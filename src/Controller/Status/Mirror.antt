-- ===== src/Controller/Status/Mirror.antt =====
-- What `syncStatus` makes of the host's view.
use mathlib.Core.Path.{subst}
use topovgm.Prelude.{◌≡◌, refl, sym, ◌∙◌, ap, Option, some, List, [], ◌∷◌, arith}
use topovgm.Go.{ok, >>=-eq-ok, wrapping-eq-ok, wrapping, wrapped}
use topovgm.Api.Status.{PhysicalVolumeStatus, VolumeGroupStatus}
use topovgm.Lvm.{LvmTypes, LvmVolumeGroup, LvmPhysicalVolume, LvmClient}
use topovgm.Controller.Platform.{Platform, Quantity, Host}
use topovgm.Controller.Convert.{convert_size_to_quantity}
use topovgm.Controller.Sync.{State}
use topovgm.Controller.Status.{
  zero_status, fill_pv, fill_pvs, fill_status, on_world, on_status, sync_status,
}
use topovgm.Controller.Status.Sizes.{Assigned, assign_sizes, assign_sizes-Assigned}

module _ (P : Platform) where
  -- The quantity is the size in bytes.
  abbrev pub Measures : Option (Quantity P) → LvmTypes.Size P.lvm → Type 0
  Measures q size = (v : Quantity P) × (convert_size_to_quantity P size ≡ ok v) × (q ≡ some v)

  -- The status shows the physical volume: its texts and numbers as they are, its sizes as quantities.
  pub record Shows (s : PhysicalVolumeStatus (Quantity P)) (pv : LvmPhysicalVolume P.lvm)
      : Type 0 where
    pub name : s.name ≡ pv.name
    pub uuid : s.uuid ≡ pv.uuid
    pub attributes : s.attributes ≡ pv.attr
    pub device_size : Measures s.device_size pv.dev_size
    pub size : Measures s.size pv.size
    pub free : Measures s.free pv.free
    pub used : Measures s.used pv.used
    pub metadata_area_free : Measures s.metadata_area_free pv.mda_free
    pub metadata_area_size : Measures s.metadata_area_size pv.mda_size
    pub physical_extent_start : Measures s.physical_extent_start pv.pe_start
    pub areas :
        (s.metadata_area_count ≡ pv.mda_count) × (s.metadata_area_used_count ≡ pv.mda_used_count)
    pub tags : s.tags ≡ pv.tags
    pub device : (s.device_id ≡ pv.device_id) × (s.device_id_type ≡ pv.device_id_type)
    pub number : (s.major ≡ pv.major) × (s.minor ≡ pv.minor)

  -- One status for each physical volume, in order, that shows it.
  abbrev pub ShowsAll :
      List (PhysicalVolumeStatus (Quantity P)) → List (LvmPhysicalVolume P.lvm) → Type 0
  ShowsAll [] [] = Unit
  ShowsAll (s ∷ ss) (pv ∷ pvs) = Shows s pv × ShowsAll ss pvs
  ShowsAll _ _ = ⊥

  abbrev PvState : Type 0
  PvState = PhysicalVolumeStatus (Quantity P)

  abbrev pub pv_sizes :
      LvmPhysicalVolume P.lvm
      → List (LvmTypes.Size P.lvm × (Option (Quantity P) → PvState → PvState))
  pv_sizes pv =
      (pv.dev_size, λ q s. record s { device_size = q })
      ∷ (pv.size, λ q s. record s { size = q })
      ∷ (pv.free, λ q s. record s { free = q })
      ∷ (pv.used, λ q s. record s { used = q })
      ∷ (pv.mda_free, λ q s. record s { metadata_area_free = q })
      ∷ (pv.mda_size, λ q s. record s { metadata_area_size = q })
      ∷ (pv.pe_start, λ q s. record s { physical_extent_start = q })
      ∷ []

  abbrev pub named : LvmPhysicalVolume P.lvm → PvState
  named pv = record (zero_status P) { name = pv.name; uuid = pv.uuid }

  abbrev pub described : LvmPhysicalVolume P.lvm → PvState → PvState
  described pv s = record s {
    metadata_area_count = pv.mda_count;
    metadata_area_used_count = pv.mda_used_count;
    tags = pv.tags;
    device_id = pv.device_id;
    device_id_type = pv.device_id_type;
    attributes = pv.attr;
    minor = pv.minor;
    major = pv.major;
  }

  pub fill_pv-eq :
      (pv : LvmPhysicalVolume P.lvm)
      → fill_pv P pv (zero_status P)
        ≡ assign_sizes P (pv_sizes pv) (λ s. (ok tt, described pv s)) (named pv)
  unfolding fill_pv
  fill_pv-eq pv = refl

  Assigned-Shows :
      (pv : LvmPhysicalVolume P.lvm) (s : PvState)
      → Assigned P (pv_sizes pv) (named pv) s
      → Shows (described pv s) pv
  Assigned-Shows pv s (q1, e1, (q2, e2, (q3, e3, (q4, e4, (q5, e5, (q6, e6, (q7, e7, same))))))) =
      subst (λ s. Shows (described pv s) pv) same
        (record {
          name = refl;
          uuid = refl;
          attributes = refl;
          device_size = (q1, e1, refl);
          size = (q2, e2, refl);
          free = (q3, e3, refl);
          used = (q4, e4, refl);
          metadata_area_free = (q5, e5, refl);
          metadata_area_size = (q6, e6, refl);
          physical_extent_start = (q7, e7, refl);
          areas = (refl, refl);
          tags = refl;
          device = (refl, refl);
          number = (refl, refl);
        })

  fill_pv-Shows :
      (pv : LvmPhysicalVolume P.lvm)
      → (fill_pv P pv (zero_status P)).0 ≡ ok tt
      → Shows (fill_pv P pv (zero_status P)).1 pv
  fill_pv-Shows pv h =
      let (s, assigned, end) =
        assign_sizes-Assigned P (pv_sizes pv) (λ s. (ok tt, described pv s)) (named pv)
          (sym (ap (λ o. o.0) (fill_pv-eq pv)) ∙ h) in
      subst (λ s. Shows s pv) (sym (ap (λ o. o.1) (fill_pv-eq pv ∙ end)))
        (Assigned-Shows pv s assigned)

  fill_pvs-ShowsAll :
      (pvs : List (LvmPhysicalVolume P.lvm))
      → (fill_pvs P pvs).0 ≡ ok tt
      → ShowsAll (fill_pvs P pvs).1 pvs
  unfolding fill_pvs
  fill_pvs-ShowsAll [] h = tt
  fill_pvs-ShowsAll (pv ∷ pvs) h = ground (arith, fill_pv-Shows pv, fill_pvs-ShowsAll pvs)

  -- The status shows the volume group and its physical volumes, and has the same conditions as before.
  pub record ShowsGroup (before after : VolumeGroupStatus (Quantity P)) (lvm : LvmVolumeGroup P.lvm)
      (pvs : List (LvmPhysicalVolume P.lvm)) : Type 0 where
    pub volumes : ShowsAll after.physical_volumes pvs
    pub name : after.name ≡ lvm.name
    pub uuid : after.uuid ≡ lvm.uuid
    pub sys_id : after.sys_id ≡ lvm.sys_id
    pub attributes : after.attributes ≡ lvm.attr
    pub tags : after.tags ≡ lvm.tags
    pub extent_size : Measures after.extent_size lvm.extent_size
    pub size : Measures after.size lvm.size
    pub free : Measures after.free lvm.free
    pub extent_count : after.extent_count ≡ lvm.extent_count
    pub sequence_number : after.sequence_number ≡ lvm.seq_no
    pub physical :
        (after.physical_volume_count ≡ lvm.pv_count)
        × (after.missing_physical_volume_count ≡ lvm.missing_pv_count)
    pub logical :
        (after.logical_volume_count ≡ lvm.lv_count) × (after.snapshot_count ≡ lvm.snap_count)
    pub areas :
        (after.metadata_area_count ≡ lvm.mda_count)
        × (after.metadata_area_used_count ≡ lvm.mda_used_count)
    pub limits :
        (after.maximum_physical_volumes ≡ lvm.max_pv) × (after.maximum_logical_volumes ≡ lvm.max_lv)
    pub conditions : after.conditions ≡ before.conditions

  fill_status-ShowsGroup :
      (lvm : LvmVolumeGroup P.lvm) (pvs : List (LvmPhysicalVolume P.lvm))
      (before : VolumeGroupStatus (Quantity P))
      → (fill_status P lvm pvs before).0 ≡ ok tt
      → ShowsGroup before (fill_status P lvm pvs before).1 lvm pvs
  unfolding fill_status
  fill_status-ShowsGroup lvm pvs before h = ground (arith, fill_pvs-ShowsAll pvs)

module _ (P : Platform) {W : Type 0} (h : Host P W) where
  -- From the state `s`, the physical volumes were listed, and the state `s'` shows them.
  abbrev pub Mirrors : LvmVolumeGroup P.lvm → State P W → State P W → Type 0
  Mirrors lvm s s' =
      (pvs : List (LvmPhysicalVolume P.lvm)) × (LvmClient.pvs h.client lvm.name s.world
        ≡ (ok pvs, s'.world))
      × ShowsGroup P s.vg.status s'.vg.status lvm pvs
      × (s'.vg.meta ≡ s.vg.meta)
      × (s'.vg.spec ≡ s.vg.spec)

  -- If `syncStatus` returns no error, it has asked for the volume group's physical volumes; the
  -- resource's status shows the group and these, one after another, every size converted, with the
  -- conditions as they were, and the rest of the resource is as it was.
  pub sync_status-Mirrors :
      (lvm : LvmVolumeGroup P.lvm) (s : State P W) {s' : State P W}
      → sync_status P h (some lvm) s ≡ (ok tt, s')
      → Mirrors lvm s s'
  unfolding sync_status
  sync_status-Mirrors lvm s {s'} e =
      let list = LvmClient.pvs h.client lvm.name in
      let w = (list s.world).1 in
      let (pvs, v, listed, filled) =
        >>=-eq-ok (wrapping (wrapped "could not get pvs for status summary") (on_world P h list))
          (λ pvs. on_status P h (fill_status P lvm pvs)) s e in
      let found = wrapping-eq-ok _ (on_world P h list) s listed in
      let put = λ (v : State P W). record v {
        vg = record (v.vg) { status = (fill_status P lvm pvs v.vg.status).1 };
      } in
      subst (λ s'. Mirrors lvm s s') (ap (λ o. o.1) filled)
        (subst
          (λ (v : State P W). (fill_status P lvm pvs v.vg.status).0 ≡ ok tt → Mirrors lvm s (put v))
          (ap (λ o. o.1) found)
          (λ ran. (
            pvs,
            ap (λ r. (r, w)) (ap (λ o. o.0) found),
            fill_status-ShowsGroup P lvm pvs s.vg.status ran,
            refl,
            refl,
          ))
          (ap (λ o. o.0) filled))
