-- ===== src/Controller/Status/Success.antt =====
-- When `syncStatus` succeeds: the physical volumes can be listed, and every size can be converted.
use topovgm.Prelude.{◌≡◌, refl, ap, ◌∙◌, Option, some, List, [], ◌∷◌}
use topovgm.Go.{⊤, Outcome, ok, fail, panic, M, lift, wrapped, wrapping, ◌>>=◌, >>=-ok, wrapping-ok}
use topovgm.Api.Status.{VolumeGroupStatus}
use topovgm.Lvm.{LvmTypes, LvmVolumeGroup, LvmPhysicalVolume, LvmClient}
use topovgm.Controller.Platform.{Platform, Quantity, Host}
use topovgm.Controller.Convert.{convert_size_to_quantity}
use topovgm.Controller.Sync.{State}
use topovgm.Controller.Status.{
  zero_status, fill_pv, fill_pvs, fill_status, on_world, on_status, sync_status,
}
use topovgm.Controller.Status.Sizes.{assign_sizes, put_result}
use topovgm.Controller.Status.Mirror.{pv_sizes, named, described, fill_pv-eq}

-- What follows a success.
first_ok :
    {A : Type 0} (r r' : Outcome ⊤) (x y : A)
    → r ≡ ok tt
    → r' ≡ ok tt
    → (◌≡◌ {A = Outcome ⊤}
        (elim r as (λ _. Outcome ⊤ × A) [
          | ok _ ↦ (r', x)
          | fail e ↦ (fail e, y)
          | panic p ↦ (panic p, y)
        ]).0
        (ok tt))
first_ok (ok a) r' x y e e' = e'
first_ok (fail a) r' x y e e' = cc
first_ok (panic a) r' x y e e' = cc

after_ok :
    {S : Type 0} (r : Outcome ⊤) (k : M S ⊤) (s : S)
    → r ≡ ok tt
    → (k s).0 ≡ ok tt
    → ((lift r >>= λ _. k) s).0 ≡ ok tt
after_ok (ok a) k s e e' = e'
after_ok (fail a) k s e e' = cc
after_ok (panic a) k s e e' = cc

module _ (P : Platform) where
  -- lvm2's sizes are numbers of bytes, in one unit or another.
  abbrev pub Converts : Type 0
  Converts =
      (size : LvmTypes.Size P.lvm) → (q : Quantity P) × (convert_size_to_quantity P size ≡ ok q)

  module _ (converts : Converts) where
    assign_sizes-ok :
        {S : Type 0} (sizes : List (LvmTypes.Size P.lvm × (Option (Quantity P) → S → S)))
        (rest : M S ⊤) (s : S)
        → ((s : S) → (rest s).0 ≡ ok tt)
        → (assign_sizes P sizes rest s).0 ≡ ok tt
    assign_sizes-ok [] rest s h = h s
    assign_sizes-ok ((size, put) ∷ sizes) rest s h =
        let (q, e) = converts size in
        ap (λ r. ((put_result P r put >>= λ _. assign_sizes P sizes rest) s).0) e
        ∙ assign_sizes-ok sizes rest (put (some q) s) h

    fill_pv-ok : (pv : LvmPhysicalVolume P.lvm) → (fill_pv P pv (zero_status P)).0 ≡ ok tt
    fill_pv-ok pv =
        ap (λ o. o.0) (fill_pv-eq P pv)
        ∙ assign_sizes-ok (pv_sizes P pv) (λ s. (ok tt, described P pv s)) (named P pv) (λ s. refl)

    fill_pvs-ok : (pvs : List (LvmPhysicalVolume P.lvm)) → (fill_pvs P pvs).0 ≡ ok tt
    unfolding fill_pvs
    fill_pvs-ok [] = refl
    fill_pvs-ok (pv ∷ pvs) =
        first_ok (fill_pv P pv (zero_status P)).0 (fill_pvs P pvs).0 _ _ (fill_pv-ok pv)
          (fill_pvs-ok pvs)

    abbrev GroupState : Type 0
    GroupState = VolumeGroupStatus (Quantity P)

    abbrev group_sizes :
        LvmVolumeGroup P.lvm
        → List (LvmTypes.Size P.lvm × (Option (Quantity P) → GroupState → GroupState))
    group_sizes lvm =
        (lvm.extent_size, λ q s. record s { extent_size = q })
        ∷ (lvm.size, λ q s. record s { size = q })
        ∷ (lvm.free, λ q s. record s { free = q })
        ∷ []

    abbrev summarized : LvmVolumeGroup P.lvm → GroupState → GroupState
    summarized lvm s = record s {
      name = lvm.name;
      uuid = lvm.uuid;
      sys_id = lvm.sys_id;
      attributes = lvm.attr;
      tags = lvm.tags;
      extent_count = lvm.extent_count;
      sequence_number = lvm.seq_no;
      physical_volume_count = lvm.pv_count;
      missing_physical_volume_count = lvm.missing_pv_count;
      maximum_physical_volumes = lvm.max_pv;
      logical_volume_count = lvm.lv_count;
      maximum_logical_volumes = lvm.max_lv;
      snapshot_count = lvm.snap_count;
      metadata_area_count = lvm.mda_count;
      metadata_area_used_count = lvm.mda_used_count;
    }

    fill_status-ok :
        (lvm : LvmVolumeGroup P.lvm) (pvs : List (LvmPhysicalVolume P.lvm))
        (before : VolumeGroupStatus (Quantity P))
        → (fill_status P lvm pvs before).0 ≡ ok tt
    unfolding fill_status
    fill_status-ok lvm pvs before =
        let rest = assign_sizes P (group_sizes lvm) (λ s. (ok tt, summarized lvm s)) in
        let listed = record before { physical_volumes = (fill_pvs P pvs).1 } in
        after_ok (fill_pvs P pvs).0 rest listed (fill_pvs-ok pvs)
          (assign_sizes-ok (group_sizes lvm) (λ s. (ok tt, summarized lvm s)) listed (λ s. refl))

    module _ {W : Type 0} (h : Host P W) where
      pub sync_status-ok :
          (lvm : LvmVolumeGroup P.lvm) (s : State P W) {pvs : List (LvmPhysicalVolume P.lvm)}
          {w : W}
          → LvmClient.pvs h.client lvm.name s.world ≡ (ok pvs, w)
          → (s' : State P W) × (sync_status P h (some lvm) s ≡ (ok tt, s')) × (s'.world ≡ w)
      unfolding sync_status
      sync_status-ok lvm s {pvs} {w} listed =
          let list = on_world P h (LvmClient.pvs h.client lvm.name) in
          let seen : State P W = record s { world = w } in
          let filled = fill_status P lvm pvs s.vg.status in
          let s' : State P W = record seen { vg = record (s.vg) { status = filled.1 } } in
          (
            s',
            >>=-ok (wrapping (wrapped "could not get pvs for status summary") list)
                  (λ pvs. on_status P h (fill_status P lvm pvs)) s
                  (wrapping-ok _ list s (ap (λ o. (o.0, record s { world = o.1 })) listed))
                ∙ ap (λ r. (r, s')) (fill_status-ok lvm pvs s.vg.status),
            refl,
          )
