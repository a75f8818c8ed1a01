-- ===== src/Api/Copies/Resource.antt =====
-- The deep copies of `VolumeGroup` and `VolumeGroupList`, and as `runtime.Object`.
use topovgm.Prelude.{Option, none, some, ◌++◌}
use topovgm.Api.Copies.Memory.{
  Address, Pointer, nil, at, Slice, New, pure, ◌>>=◌, Copying, deep_copy, copy_slice, slice_value,
  slice_cells,
}
use topovgm.Api.Copies.Packages.{Packages}
use topovgm.Api.Copies.Spec.{VolumeGroupSpec, copy_volume_group_spec, volume_group_spec}
use topovgm.Api.Copies.Status.{VolumeGroupStatus, copy_volume_group_status, volume_group_status}

-- Over the types of addresses, type metadata, object metadata, quantities and conditions.
pub record VolumeGroup (L T M Q C : Type 0) : Type 0 where
  pub type_meta : T
  pub object_meta : M
  pub spec : VolumeGroupSpec L Q
  pub status : VolumeGroupStatus L Q C

pub record VolumeGroupList (L T N V : Type 0) : Type 0 where
  pub type_meta : T
  pub list_meta : N
  pub items : Slice L V

-- `if c := in.DeepCopy(); c != nil { return c }; return nil`: an interface that is nil is `none`.
abbrev pub as_object : {A : Type 0} → Pointer Address A → Option (Pointer Address A)
as_object nil = none
as_object (at a x) = some (at a x)

abbrev pub deep_copy_object :
    {A V : Type 0} → Copying A V → Pointer Address A → New (Option (Pointer Address A))
deep_copy_object c source = do copy ← deep_copy c source; pure (as_object copy)

module _ (P : Packages) where
  abbrev pub Group : Type 0
  Group = VolumeGroup Address P.TypeMeta P.ObjectMeta P.Quantity P.Condition

  abbrev pub GroupValue : Type 0
  GroupValue = VolumeGroup Unit P.TypeMeta P.ObjectMetaValue P.QuantityValue P.ConditionValue

  abbrev pub copy_volume_group : Group → New Group
  copy_volume_group source = do
    object_meta ← Copying.deep_copy_into P.object_meta source.object_meta
    spec ← copy_volume_group_spec P source.spec
    status ← copy_volume_group_status P source.status
    pure (record source { object_meta = object_meta; spec = spec; status = status })

  abbrev pub volume_group : Copying Group GroupValue
  volume_group = record {
    value = λ vg. record {
      type_meta = vg.type_meta;
      object_meta = Copying.value P.object_meta vg.object_meta;
      spec = Copying.value (volume_group_spec P) vg.spec;
      status = Copying.value (volume_group_status P) vg.status;
    };
    cells = λ vg.
        Copying.cells P.object_meta vg.object_meta
        ++ (Copying.cells (volume_group_spec P) vg.spec
            ++ Copying.cells (volume_group_status P) vg.status);
    deep_copy_into = copy_volume_group;
  }

  abbrev pub deep_copy_volume_group : Pointer Address Group → New (Pointer Address Group)
  deep_copy_volume_group = deep_copy volume_group

  abbrev deep_copy_volume_group_object :
      Pointer Address Group → New (Option (Pointer Address Group))
  deep_copy_volume_group_object = deep_copy_object volume_group

  abbrev pub Groups : Type 0
  Groups = VolumeGroupList Address P.TypeMeta P.ListMeta Group

  abbrev pub GroupsValue : Type 0
  GroupsValue = VolumeGroupList Unit P.TypeMeta P.ListMetaValue GroupValue

  abbrev pub copy_volume_group_list : Groups → New Groups
  copy_volume_group_list source = do
    list_meta ← Copying.deep_copy_into P.list_meta source.list_meta
    items ← copy_slice volume_group source.items
    pure (record source { list_meta = list_meta; items = items })

  abbrev pub volume_group_list : Copying Groups GroupsValue
  volume_group_list = record {
    value = λ l. record {
      type_meta = l.type_meta;
      list_meta = Copying.value P.list_meta l.list_meta;
      items = slice_value volume_group l.items;
    };
    cells = λ l. Copying.cells P.list_meta l.list_meta ++ slice_cells volume_group l.items;
    deep_copy_into = copy_volume_group_list;
  }

  abbrev deep_copy_volume_group_list : Pointer Address Groups → New (Pointer Address Groups)
  deep_copy_volume_group_list = deep_copy volume_group_list

  abbrev pub deep_copy_volume_group_list_object :
      Pointer Address Groups → New (Option (Pointer Address Groups))
  deep_copy_volume_group_list_object = deep_copy_object volume_group_list
