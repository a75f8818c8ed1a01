-- ===== src/Api/Copies/Spec.antt =====
-- The deep copy of `VolumeGroupSpec`.
use topovgm.Prelude.{String, Bool, ◌++◌}
use topovgm.Prelude.Int.{ℤ}
use topovgm.Api.Spec.{AllocationPolicy, DeviceLossSynchronizationPolicy, DeviceRemovalVolumePolicy}
use topovgm.Api.Copies.Memory.{
  Address, Pointer, Slice, New, pure, ◌>>=◌, Copying, plain, deep_copy, pointer_value,
  pointer_cells, copy_slice, slice_value, slice_cells,
}
use topovgm.Api.Copies.Packages.{Packages}
use topovgm.Api.Copies.Selector.{PhysicalVolumeSelector, term}

pub record VolumeGroupSpec (L Q : Type 0) : Type 0 where
  pub node_name : String
  pub name_on_node : Pointer L String
  pub physical_volume_selector : PhysicalVolumeSelector L
  pub tags : Slice L String
  pub maximum_logical_volumes : Pointer L ℤ
  pub maximum_physical_volumes : Pointer L ℤ
  pub physical_extent_size : Pointer L Q
  pub metadata_size : Pointer L Q
  pub allocation_policy : Pointer L AllocationPolicy
  pub data_alignment : Pointer L Q
  pub data_alignment_offset : Pointer L Q
  pub devices : Slice L String
  pub devices_file : Pointer L String
  pub zero : Pointer L Bool
  pub auto_activation : Pointer L Bool
  pub device_loss_synchronization_policy : DeviceLossSynchronizationPolicy
  pub device_removal_volume_policy : DeviceRemovalVolumePolicy

module _ (P : Packages) where
  abbrev pub copy_volume_group_spec :
      VolumeGroupSpec Address P.Quantity → New (VolumeGroupSpec Address P.Quantity)
  copy_volume_group_spec source = do
    name_on_node ← deep_copy plain source.name_on_node
    physical_volume_selector ← copy_slice term source.physical_volume_selector
    tags ← copy_slice plain source.tags
    maximum_logical_volumes ← deep_copy plain source.maximum_logical_volumes
    maximum_physical_volumes ← deep_copy plain source.maximum_physical_volumes
    physical_extent_size ← deep_copy P.quantity source.physical_extent_size
    metadata_size ← deep_copy P.quantity source.metadata_size
    allocation_policy ← deep_copy plain source.allocation_policy
    data_alignment ← deep_copy P.quantity source.data_alignment
    data_alignment_offset ← deep_copy P.quantity source.data_alignment_offset
    devices ← copy_slice plain source.devices
    devices_file ← deep_copy plain source.devices_file
    zero ← deep_copy plain source.zero
    auto_activation ← deep_copy plain source.auto_activation
    pure (record source {
      name_on_node = name_on_node;
      physical_volume_selector = physical_volume_selector;
      tags = tags;
      maximum_logical_volumes = maximum_logical_volumes;
      maximum_physical_volumes = maximum_physical_volumes;
      physical_extent_size = physical_extent_size;
      metadata_size = metadata_size;
      allocation_policy = allocation_policy;
      data_alignment = data_alignment;
      data_alignment_offset = data_alignment_offset;
      devices = devices;
      devices_file = devices_file;
      zero = zero;
      auto_activation = auto_activation;
    })

  abbrev pub volume_group_spec :
      Copying (VolumeGroupSpec Address P.Quantity) (VolumeGroupSpec Unit P.QuantityValue)
  volume_group_spec = record {
    value = λ s. record {
      node_name = s.node_name;
      name_on_node = pointer_value plain s.name_on_node;
      physical_volume_selector = slice_value term s.physical_volume_selector;
      tags = slice_value plain s.tags;
      maximum_logical_volumes = pointer_value plain s.maximum_logical_volumes;
      maximum_physical_volumes = pointer_value plain s.maximum_physical_volumes;
      physical_extent_size = pointer_value P.quantity s.physical_extent_size;
      metadata_size = pointer_value P.quantity s.metadata_size;
      allocation_policy = pointer_value plain s.allocation_policy;
      data_alignment = pointer_value P.quantity s.data_alignment;
      data_alignment_offset = pointer_value P.quantity s.data_alignment_offset;
      devices = slice_value plain s.devices;
      devices_file = pointer_value plain s.devices_file;
      zero = pointer_value plain s.zero;
      auto_activation = pointer_value plain s.auto_activation;
      device_loss_synchronization_policy = s.device_loss_synchronization_policy;
      device_removal_volume_policy = s.device_removal_volume_policy;
    };
    cells = λ s.
        pointer_cells plain s.name_on_node
        ++ (slice_cells term s.physical_volume_selector
            ++ (slice_cells plain s.tags
                ++ (pointer_cells plain s.maximum_logical_volumes
                    ++ (pointer_cells plain s.maximum_physical_volumes
                        ++ (pointer_cells P.quantity s.physical_extent_size
                            ++ (pointer_cells P.quantity s.metadata_size
                                ++ (pointer_cells plain s.allocation_policy
                                    ++ (pointer_cells P.quantity s.data_alignment
                                        ++ (pointer_cells P.quantity s.data_alignment_offset
                                            ++ (slice_cells plain s.devices
                                                ++ (pointer_cells plain s.devices_file
                                                    ++ (pointer_cells plain s.zero
                                                        ++ (pointer_cells plain
                                                            s.auto_activation)))))))))))));
    deep_copy_into = copy_volume_group_spec;
  }

  abbrev deep_copy_volume_group_spec :
      Pointer Address (VolumeGroupSpec Address P.Quantity)
      → New (Pointer Address (VolumeGroupSpec Address P.Quantity))
  deep_copy_volume_group_spec = deep_copy volume_group_spec
