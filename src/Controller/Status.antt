-- ===== src/Controller/Status.antt =====
-- internal/controller/volumegroup_controller_sync.go: `syncStatus`, which copies the host's view into
-- the resource, field by field; an error leaves what was written before it.
pub mod Sizes
pub mod Mirror
pub mod Success
use topovgm.Prelude.{String, Option, none, some, List, [], ◌∷◌, map}
use topovgm.Prelude.Int.{ℤ, pos}
use topovgm.Go.{⊤, wrapped, Outcome, ok, fail, panic, M, ◌>>=◌, ◌>>◌, wrapping}
use topovgm.Api.Status.{PhysicalVolumeStatus, VolumeGroupStatus}
use topovgm.Lvm.{LvmTypes, LvmVolumeGroup, LvmPhysicalVolume, LvmClient}
use topovgm.Controller.Platform.{Platform, Quantity, Resource, Host}
use topovgm.Controller.Convert.{convert_size_to_quantity}
use topovgm.Controller.Sync.{State}

-- An assignment to fields of the state `S`.
abbrev assign : {S : Type 0} → (S → S) → M S ⊤
assign put s = (ok tt, put s)

module _ (P : Platform) where
  -- `s.Field, err = convertSizeToQuantity(size)`: with an error the field becomes nil.
  abbrev pub assign_size :
      {S : Type 0} → LvmTypes.Size P.lvm → (Option (Quantity P) → S → S) → M S ⊤
  assign_size size put s = elim (convert_size_to_quantity P size) [
    | ok q ↦ (ok tt, put (some q) s)
    | fail e ↦ (fail e, put none s)
    | panic p ↦ (panic p, s)
  ]

  -- An element of `make([]v1alpha1.PhysicalVolumeStatus, len(pvs))`.
  abbrev pub zero_status : PhysicalVolumeStatus (Quantity P)
  zero_status = record {
    name = "";
    uuid = "";
    device_size = none;
    attributes = "";
    major = pos 0;
    minor = pos 0;
    size = none;
    free = none;
    used = none;
    metadata_area_free = none;
    metadata_area_size = none;
    physical_extent_start = none;
    metadata_area_count = pos 0;
    metadata_area_used_count = pos 0;
    tags = [];
    device_id = "";
    device_id_type = "";
  }

  -- The body of the loop over the physical volumes.
  unfoldable pub fill_pv : LvmPhysicalVolume P.lvm → M (PhysicalVolumeStatus (Quantity P)) ⊤
  fill_pv pv = do
    assign (λ s. record s { name = pv.name; uuid = pv.uuid })
    assign_size pv.dev_size (λ q s. record s { device_size = q })
    assign_size pv.size (λ q s. record s { size = q })
    assign_size pv.free (λ q s. record s { free = q })
    assign_size pv.used (λ q s. record s { used = q })
    assign_size pv.mda_free (λ q s. record s { metadata_area_free = q })
    assign_size pv.mda_size (λ q s. record s { metadata_area_size = q })
    assign_size pv.pe_start (λ q s. record s { physical_extent_start = q })
    assign (λ s. record s {
      metadata_area_count = pv.mda_count;
      metadata_area_used_count = pv.mda_used_count;
      tags = pv.tags;
      device_id = pv.device_id;
      device_id_type = pv.device_id_type;
      attributes = pv.attr;
      minor = pv.minor;
      major = pv.major;
    })

  -- The loop: an error leaves the elements after it as they were made.
  unfoldable pub fill_pvs :
      List (LvmPhysicalVolume P.lvm) → Outcome ⊤ × List (PhysicalVolumeStatus (Quantity P))
  fill_pvs [] = (ok tt, [])
  fill_pvs (pv ∷ pvs) =
      let (r, filled) = fill_pv pv zero_status in
      let (r', rest) = fill_pvs pvs in
      elim r [
        | ok _ ↦ (r', filled ∷ rest)
        | fail e ↦ (fail e, filled ∷ map (λ _. zero_status) pvs)
        | panic p ↦ (panic p, filled ∷ map (λ _. zero_status) pvs)
      ]

  abbrev assign_pvs : List (LvmPhysicalVolume P.lvm) → M (VolumeGroupStatus (Quantity P)) ⊤
  assign_pvs pvs s = let (r, filled) = fill_pvs pvs in (r, record s { physical_volumes = filled })

  unfoldable pub fill_status :
      LvmVolumeGroup P.lvm → List (LvmPhysicalVolume P.lvm) → M (VolumeGroupStatus (Quantity P)) ⊤
  fill_status lvm pvs = do
    assign_pvs pvs
    assign_size lvm.extent_size (λ q s. record s { extent_size = q })
    assign_size lvm.size (λ q s. record s { size = q })
    assign_size lvm.free (λ q s. record s { free = q })
    assign (λ s. record s {
      name = lvm.name;
      uuid = lvm.uuid;
      sys_id = lvm.sys_id;
      attributes = lvm.attr;
      tags = lvm.tags;
      extent_count = lvm.extent_count;
      sequence_number = lvm.seq_no;
      physical_volume_count = lvm.pv_count;
      missing_physical_volume_count = lvm.missing_pv_count;
      maximum_physical_volumes = lvm.max_pv;
      logical_volume_count = lvm.lv_count;
      maximum_logical_volumes = lvm.max_lv;
      snapshot_count = lvm.snap_count;
      metadata_area_count = lvm.mda_count;
      metadata_area_used_count = lvm.mda_used_count;
    })

module _ (P : Platform) {W : Type 0} (h : Host P W) where
  abbrev pub on_world : {A : Type 0} → M W A → M (State P W) A
  on_world m s = let (r, w) = m (s.world) in (r, record s { world = w })

  abbrev pub on_status : M (VolumeGroupStatus (Quantity P)) ⊤ → M (State P W) ⊤
  on_status m s =
      let (r, status) = m (s.vg.status) in (r, record s { vg = record (s.vg) { status = status } })

  -- `syncStatus`; a nil volume group is dereferenced at once.
  unfoldable pub sync_status : Option (LvmVolumeGroup P.lvm) → M (State P W) ⊤
  sync_status none s = (panic "nil pointer dereference", s)
  sync_status (some lvm) s =
      (do
        pvs ←
            wrapping (wrapped "could not get pvs for status summary")
              (on_world (LvmClient.pvs h.client lvm.name))
        on_status (fill_status P lvm pvs))
        s
