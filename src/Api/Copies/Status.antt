-- ===== src/Api/Copies/Status.antt =====
-- The deep copy of `VolumeGroupStatus`.
use topovgm.Prelude.{String, ◌++◌}
use topovgm.Prelude.Int.{ℤ}
use topovgm.Api.Copies.Memory.{
  Address, Pointer, Slice, New, pure, ◌>>=◌, Copying, plain, deep_copy, pointer_value,
  pointer_cells, copy_slice, slice_value, slice_cells,
}
use topovgm.Api.Copies.Packages.{Packages}
use topovgm.Api.Copies.PhysicalVolume.{PhysicalVolumeStatus, physical_volume_status}

pub record VolumeGroupStatus (L Q C : Type 0) : Type 0 where
  pub name : String
  pub uuid : String
  pub sys_id : String
  pub physical_volumes : Slice L (PhysicalVolumeStatus L Q)
  pub attributes : String
  pub tags : Slice L String
  pub extent_size : Pointer L Q
  pub extent_count : ℤ
  pub sequence_number : ℤ
  pub size : Pointer L Q
  pub free : Pointer L Q
  pub physical_volume_count : ℤ
  pub missing_physical_volume_count : ℤ
  pub maximum_physical_volumes : ℤ
  pub logical_volume_count : ℤ
  pub maximum_logical_volumes : ℤ
  pub snapshot_count : ℤ
  pub metadata_area_count : ℤ
  pub metadata_area_used_count : ℤ
  pub conditions : Slice L C

module _ (P : Packages) where
  abbrev pub copy_volume_group_status :
      VolumeGroupStatus Address P.Quantity P.Condition
      → New (VolumeGroupStatus Address P.Quantity P.Condition)
  copy_volume_group_status source = do
    physical_volumes ← copy_slice (physical_volume_status P) source.physical_volumes
    tags ← copy_slice plain source.tags
    extent_size ← deep_copy P.quantity source.extent_size
    size ← deep_copy P.quantity source.size
    free ← deep_copy P.quantity source.free
    conditions ← copy_slice P.condition source.conditions
    pure (record source {
      physical_volumes = physical_volumes;
      tags = tags;
      extent_size = extent_size;
      size = size;
      free = free;
      conditions = conditions;
    })

  abbrev pub volume_group_status :
      Copying
        (VolumeGroupStatus Address P.Quantity P.Condition)
        (VolumeGroupStatus Unit P.QuantityValue P.ConditionValue)
  volume_group_status = record {
    value = λ s. record {
      name = s.name;
      uuid = s.uuid;
      sys_id = s.sys_id;
      physical_volumes = slice_value (physical_volume_status P) s.physical_volumes;
      attributes = s.attributes;
      tags = slice_value plain s.tags;
      extent_size = pointer_value P.quantity s.extent_size;
      extent_count = s.extent_count;
      sequence_number = s.sequence_number;
      size = pointer_value P.quantity s.size;
      free = pointer_value P.quantity s.free;
      physical_volume_count = s.physical_volume_count;
      missing_physical_volume_count = s.missing_physical_volume_count;
      maximum_physical_volumes = s.maximum_physical_volumes;
      logical_volume_count = s.logical_volume_count;
      maximum_logical_volumes = s.maximum_logical_volumes;
      snapshot_count = s.snapshot_count;
      metadata_area_count = s.metadata_area_count;
      metadata_area_used_count = s.metadata_area_used_count;
      conditions = slice_value P.condition s.conditions;
    };
    cells = λ s.
        slice_cells (physical_volume_status P) s.physical_volumes
        ++ (slice_cells plain s.tags
            ++ (pointer_cells P.quantity s.extent_size
                ++ (pointer_cells P.quantity s.size
                    ++ (pointer_cells P.quantity s.free
                        ++ (slice_cells P.condition s.conditions)))));
    deep_copy_into = copy_volume_group_status;
  }

  abbrev deep_copy_volume_group_status :
      Pointer Address (VolumeGroupStatus Address P.Quantity P.Condition)
      → New (Pointer Address (VolumeGroupStatus Address P.Quantity P.Condition))
  deep_copy_volume_group_status = deep_copy volume_group_status
