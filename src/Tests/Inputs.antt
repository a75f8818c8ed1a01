-- ===== src/Tests/Inputs.antt =====
-- Resources, devices and nodes for the runs.
use topovgm.Controller.Sync.{set_default}
use topovgm.Prelude.{String, true, false, Option, none, some, List, [], ◌∷◌}
use topovgm.Prelude.Int.{ℤ, pos}
use topovgm.Api.Selector.{LsblkSelectorRequirement, PvSelectorTerm, op_in}
use topovgm.Api.Spec.{VolumeGroupSpec, DeviceLossSynchronizationPolicy, fail_sync, move_and_reduce}
use topovgm.Api.Status.{VolumeGroupStatus}
use topovgm.Lsblk.{BlockDevice, no_entry, entry, string, array, next, last, object}
use topovgm.Controller.Platform.{Resource}
use topovgm.Controller.Reconcile.{Config, finalizer}
use topovgm.Tests.Node.{platform, NodeState, volume, group_named}

abbrev pub device : String → String → BlockDevice
device path kind = entry "path" (string path) (entry "type" (string kind) no_entry)

-- A disk with one partition.
abbrev pub disk : BlockDevice
disk =
    entry "children" (array (next (object (device "/dev/sda1" "part")) last))
      (device "/dev/sda" "disk")

abbrev pub loop_requirement : LsblkSelectorRequirement
loop_requirement = record { key = "TYPE"; operator = op_in; values = "loop" ∷ [] }

abbrev pub loops : PvSelectorTerm
loops = record { match_lsblk = loop_requirement ∷ [] }

abbrev pub loop_devices : List BlockDevice
loop_devices = device "/dev/loop1" "loop" ∷ (disk ∷ (device "/dev/loop0" "loop" ∷ []))

abbrev pub spec : DeviceLossSynchronizationPolicy → VolumeGroupSpec ℤ
spec policy = record {
  node_name = "crc";
  name_on_node = some "vg1";
  physical_volume_selector = loops ∷ [];
  tags = "topovgm" ∷ [];
  maximum_logical_volumes = none;
  maximum_physical_volumes = some (pos 16);
  physical_extent_size = some (pos 4194304);
  metadata_size = none;
  allocation_policy = some "ClingByTags";
  data_alignment = none;
  data_alignment_offset = none;
  devices = [];
  devices_file = none;
  zero = some true;
  auto_activation = some false;
  device_loss_synchronization_policy = policy;
  device_removal_volume_policy = move_and_reduce;
}

abbrev status : VolumeGroupStatus ℤ
status = record {
  name = "";
  uuid = "";
  sys_id = "";
  physical_volumes = [];
  attributes = "";
  tags = [];
  extent_size = none;
  extent_count = pos 0;
  sequence_number = pos 0;
  size = none;
  free = none;
  physical_volume_count = pos 0;
  missing_physical_volume_count = pos 0;
  maximum_physical_volumes = pos 0;
  logical_volume_count = pos 0;
  maximum_logical_volumes = pos 0;
  snapshot_count = pos 0;
  metadata_area_count = pos 0;
  metadata_area_used_count = pos 0;
  conditions = [];
}

abbrev pub resource : DeviceLossSynchronizationPolicy → List String → Option ℤ → Resource platform
resource policy finalizers deleted = record {
  meta = record {
    name = "vg";
    uid = "2903b9fa";
    generation = pos 1;
    deletion_timestamp = deleted;
    deletion_grace_period_seconds = some (pos 0);
    finalizers = finalizers;
  };
  spec = spec policy;
  status = status;
}

-- The resource before its first round, and when the controller has its finalizer on it.
abbrev pub new_resource : Resource platform
new_resource = resource fail_sync [] none

abbrev pub kept_resource : Resource platform
kept_resource = resource fail_sync (finalizer ∷ []) none

abbrev pub deleted_resource : Resource platform
deleted_resource = resource fail_sync (finalizer ∷ []) (some (pos 5))

abbrev pub config : Config
config = record { node_name = "crc"; sync_interval = pos 10 }

-- A node without the volume group.
abbrev pub bare_node : Resource platform → NodeState
bare_node vg = record {
  resource = some vg;
  group = none;
  volumes = [];
  devices = loop_devices;
  lost = false;
  time = pos 9;
}

-- A node with it.
abbrev pub node : Resource platform → NodeState
node vg = record (bare_node vg) {
  group = some (group_named "vg1" ("old" ∷ []));
  volumes = volume "/dev/loop0" ∷ (volume "/dev/loop9" ∷ []);
}

abbrev pub lossy_node : Resource platform → NodeState
lossy_node vg = record (node vg) { lost = true }

abbrev pub request : String × String
request = ("default", "vg")

abbrev pub wanted : Resource platform
wanted = set_default platform kept_resource

abbrev pub paths : List String
paths = "/dev/loop0" ∷ "/dev/loop1" ∷ []
