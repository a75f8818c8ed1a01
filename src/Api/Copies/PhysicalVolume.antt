-- ===== src/Api/Copies/PhysicalVolume.antt =====
-- The deep copy of `PhysicalVolumeStatus`.
use topovgm.Prelude.{String, ◌++◌}
use topovgm.Prelude.Int.{ℤ}
use topovgm.Api.Copies.Memory.{
  Address, Pointer, Slice, New, pure, ◌>>=◌, Copying, plain, deep_copy, pointer_value,
  pointer_cells, copy_slice, slice_value, slice_cells,
}
use topovgm.Api.Copies.Packages.{Packages}

pub record PhysicalVolumeStatus (L Q : Type 0) : Type 0 where
  pub name : String
  pub uuid : String
  pub device_size : Pointer L Q
  pub attributes : String
  pub major : ℤ
  pub minor : ℤ
  pub size : Pointer L Q
  pub free : Pointer L Q
  pub used : Pointer L Q
  pub metadata_area_free : Pointer L Q
  pub metadata_area_size : Pointer L Q
  pub physical_extent_start : Pointer L Q
  pub metadata_area_count : ℤ
  pub metadata_area_used_count : ℤ
  pub tags : Slice L String
  pub device_id : String
  pub device_id_type : String

module _ (P : Packages) where
  abbrev pub copy_physical_volume_status :
      PhysicalVolumeStatus Address P.Quantity → New (PhysicalVolumeStatus Address P.Quantity)
  copy_physical_volume_status source = do
    device_size ← deep_copy P.quantity source.device_size
    size ← deep_copy P.quantity source.size
    free ← deep_copy P.quantity source.free
    used ← deep_copy P.quantity source.used
    metadata_area_free ← deep_copy P.quantity source.metadata_area_free
    metadata_area_size ← deep_copy P.quantity source.metadata_area_size
    physical_extent_start ← deep_copy P.quantity source.physical_extent_start
    tags ← copy_slice plain source.tags
    pure (record source {
      device_size = device_size;
      size = size;
      free = free;
      used = used;
      metadata_area_free = metadata_area_free;
      metadata_area_size = metadata_area_size;
      physical_extent_start = physical_extent_start;
      tags = tags;
    })

  abbrev pub physical_volume_status :
      Copying (PhysicalVolumeStatus Address P.Quantity) (PhysicalVolumeStatus Unit P.QuantityValue)
  physical_volume_status = record {
    value = λ s. record {
      name = s.name;
      uuid = s.uuid;
      device_size = pointer_value P.quantity s.device_size;
      attributes = s.attributes;
      major = s.major;
      minor = s.minor;
      size = pointer_value P.quantity s.size;
      free = pointer_value P.quantity s.free;
      used = pointer_value P.quantity s.used;
      metadata_area_free = pointer_value P.quantity s.metadata_area_free;
      metadata_area_size = pointer_value P.quantity s.metadata_area_size;
      physical_extent_start = pointer_value P.quantity s.physical_extent_start;
      metadata_area_count = s.metadata_area_count;
      metadata_area_used_count = s.metadata_area_used_count;
      tags = slice_value plain s.tags;
      device_id = s.device_id;
      device_id_type = s.device_id_type;
    };
    cells = λ s.
        pointer_cells P.quantity s.device_size
        ++ (pointer_cells P.quantity s.size
            ++ (pointer_cells P.quantity s.free
                ++ (pointer_cells P.quantity s.used
                    ++ (pointer_cells P.quantity s.metadata_area_free
                        ++ (pointer_cells P.quantity s.metadata_area_size
                            ++ (pointer_cells P.quantity s.physical_extent_start
                                ++ (slice_cells plain s.tags)))))));
    deep_copy_into = copy_physical_volume_status;
  }

  abbrev deep_copy_physical_volume_status :
      Pointer Address (PhysicalVolumeStatus Address P.Quantity)
      → New (Pointer Address (PhysicalVolumeStatus Address P.Quantity))
  deep_copy_physical_volume_status = deep_copy physical_volume_status
