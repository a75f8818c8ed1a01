-- ===== src/Api/Spec.antt =====
-- `VolumeGroupSpec` and its policies, over the type `Q` of quantities (`resource.Quantity`).
use topovgm.Prelude.{String, Bool, Option, List}
use topovgm.Prelude.Int.{ℤ}
use topovgm.Api.Selector.{PhysicalVolumeSelector}

-- A string type with six named values; the code passes any string on.
abbrev pub AllocationPolicy : Type 0
AllocationPolicy = String

pub data NamedPolicy : Type 0 where
  contiguous normal cling cling_by_tags anywhere inherit : NamedPolicy

abbrev pub policy_text : NamedPolicy → AllocationPolicy
policy_text contiguous = "Contiguous"
policy_text normal = "Normal"
policy_text cling = "Cling"
policy_text cling_by_tags = "ClingByTags"
policy_text anywhere = "Anywhere"
policy_text inherit = "Inherit"

-- String types with named values; the source only compares with these.
pub data DeviceLossSynchronizationPolicy : Type 0 where
  fail_sync remove_missing force_remove_missing : DeviceLossSynchronizationPolicy
  other_loss_policy : String → DeviceLossSynchronizationPolicy

pub data DeviceRemovalVolumePolicy : Type 0 where
  move_and_reduce reduce force_reduce : DeviceRemovalVolumePolicy
  other_removal_policy : String → DeviceRemovalVolumePolicy

pub record VolumeGroupSpec (Q : Type 0) : Type 0 where
  pub node_name : String
  pub name_on_node : Option String
  pub physical_volume_selector : PhysicalVolumeSelector
  pub tags : List String
  pub maximum_logical_volumes : Option ℤ
  pub maximum_physical_volumes : Option ℤ
  pub physical_extent_size : Option Q
  pub metadata_size : Option Q
  pub allocation_policy : Option AllocationPolicy
  pub data_alignment : Option Q
  pub data_alignment_offset : Option Q
  pub devices : List String
  pub devices_file : Option String
  pub zero : Option Bool
  pub auto_activation : Option Bool
  pub device_loss_synchronization_policy : DeviceLossSynchronizationPolicy
  pub device_removal_volume_policy : DeviceRemovalVolumePolicy
