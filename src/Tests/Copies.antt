-- ===== src/Tests/Copies.antt =====
-- Deep copies of a volume group, of a list of volume groups and of a selector.
use topovgm.Prelude.{ℕ, String, true, ◌≡◌, [], ◌∷◌, arith}
use topovgm.Prelude.Int.{pos}
use topovgm.Api.Selector.{op_in}
use topovgm.Api.Spec.{fail_sync, move_and_reduce}
use topovgm.Api.Copies.Memory.{
  Address, Pointer, nil, at, Slice, nil_slice, slice, plain, pointer, pointer_value, pointer_cells,
  list_cells, sliced,
}
use topovgm.Api.Copies.Packages.{Packages}
use topovgm.Api.Copies.Resource.{
  Group, Groups, volume_group, volume_group_list, deep_copy_volume_group,
  deep_copy_volume_group_list_object,
}
use topovgm.Api.Copies.Laws.{plain-IsDeep, pointer-IsDeep, sliced-IsDeep}
use topovgm.Api.Copies.Deep.{AreDeep}
use topovgm.Api.Copies.Separation.{
  AreDisjoint, IsSeparateObject, deep_copy_volume_group-Separates,
  deep_copy_volume_group_list_object-Separates,
}

-- A quantity may point to a number of its own; object metadata hold a slice of finalizers.
abbrev packages : Packages
packages = record {
  Quantity = Pointer Address ℕ;
  QuantityValue = Pointer Unit ℕ;
  quantity = pointer plain;
  Condition = String;
  ConditionValue = String;
  condition = plain;
  ObjectMeta = Slice Address String;
  ObjectMetaValue = Slice Unit String;
  object_meta = sliced plain;
  ListMeta = String;
  ListMetaValue = String;
  list_meta = plain;
  TypeMeta = String;
}

packages-AreDeep : AreDeep packages
packages-AreDeep = record {
  quantities = pointer-IsDeep plain plain-IsDeep;
  conditions = plain-IsDeep;
  object_metas = sliced-IsDeep plain plain-IsDeep;
  list_metas = plain-IsDeep;
}

-- Its addresses are below 10; one quantity occurs twice.
abbrev group : Group packages
group = record {
  type_meta = "VolumeGroup";
  object_meta = slice 0 ("topolvm.io/volumegroup-removal-on-node" ∷ []);
  spec = record {
    node_name = "node";
    name_on_node = at 1 "vg1";
    physical_volume_selector = slice 2 (
        record {
          match_lsblk =
              slice 3 (
                record { key = "PATH"; operator = op_in; values = slice 4 ("/dev/sda" ∷ []) } ∷ []);
        }
        ∷ []);
    tags = nil_slice;
    maximum_logical_volumes = at 5 (pos 7);
    maximum_physical_volumes = nil;
    physical_extent_size = at 6 (at 7 4);
    metadata_size = at 6 (at 7 4);
    allocation_policy = nil;
    data_alignment = nil;
    data_alignment_offset = nil;
    devices = nil_slice;
    devices_file = nil;
    zero = at 8 true;
    auto_activation = nil;
    device_loss_synchronization_policy = fail_sync;
    device_removal_volume_policy = move_and_reduce;
  };
  status = record {
    name = "vg1";
    uuid = "u";
    sys_id = "";
    physical_volumes = nil_slice;
    attributes = "";
    tags = nil_slice;
    extent_size = nil;
    extent_count = pos 0;
    sequence_number = pos 0;
    size = nil;
    free = nil;
    physical_volume_count = pos 0;
    missing_physical_volume_count = pos 0;
    maximum_physical_volumes = pos 0;
    logical_volume_count = pos 0;
    maximum_logical_volumes = pos 0;
    snapshot_count = pos 0;
    metadata_area_count = pos 0;
    metadata_area_used_count = pos 0;
    conditions = slice 9 [];
  };
}

abbrev groups : Groups packages
groups = record { type_meta = "VolumeGroupList"; list_meta = "1"; items = slice 11 (group ∷ []) }

deep_copy_volume_group-Separates_example :
    (pointer_value (volume_group packages) (deep_copy_volume_group packages (at 10 group) 11).0
      ≡ pointer_value (volume_group packages) (at 10 group))
    × AreDisjoint
        (pointer_cells (volume_group packages) (deep_copy_volume_group packages (at 10 group) 11).0)
        (pointer_cells (volume_group packages) (at 10 group))
unfolding list_cells
deep_copy_volume_group-Separates_example =
    deep_copy_volume_group-Separates packages packages-AreDeep (at 10 group) 11 (ground arith)

deep_copy_volume_group_list_object-Separates_example :
    IsSeparateObject
      (volume_group_list packages)
      (at 12 groups)
      (deep_copy_volume_group_list_object packages (at 12 groups) 13).0
unfolding list_cells
deep_copy_volume_group_list_object-Separates_example =
    deep_copy_volume_group_list_object-Separates packages packages-AreDeep (at 12 groups) 13
      (ground arith)
