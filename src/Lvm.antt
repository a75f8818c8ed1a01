-- ===== src/Lvm.antt =====
-- What the controller takes from github.com/jakobmoellerdev/lvm2go: the types of its values, its
-- tests on errors, and its commands. Nothing is assumed of them here.
use topovgm.Prelude.{ℕ, String, Bool, Option, List, Eq}
use topovgm.Prelude.Int.{ℤ}
use topovgm.Go.{⊤, Error, Outcome, M}

pub record LvmTypes : Type 1 where
  pub Size : Type 0
  -- `size.ToUnit(lvm2go.UnitBytes)`, and then `int64` of its value.
  pub to_bytes : Size → Outcome ℤ
  -- `size.Validate()`
  pub validate : Size → Outcome ⊤
  pub AutoActivation : Type 0
  pub auto_activation_eq : Eq AutoActivation
  pub set_auto_activate : AutoActivation
  pub set_no_auto_activate : AutoActivation
  -- `a.True()`
  pub is_true : AutoActivation → Bool
  pub Zero : Type 0
  pub zero_volume : Zero
  pub do_not_zero_volume : Zero
  -- The identity of `ErrVolumeGroupNotFound`.
  pub vg_not_found : ℕ
  -- `IsLVMErrNotFound`
  pub is_lvm_not_found : Error → Bool
  -- `IsLVMErrVGMissingPVs`, of an error that may be nil.
  pub is_missing_pvs : Option Error → Bool

module _ (T : LvmTypes) where
  -- The fields of `lvm2go.VolumeGroup` that are read; an attribute field as its text.
  pub record LvmVolumeGroup : Type 0 where
    pub name : String
    pub uuid : String
    pub sys_id : String
    pub attr : String
    pub tags : List String
    pub extent_size : T.Size
    pub extent_count : ℤ
    pub seq_no : ℤ
    pub size : T.Size
    pub free : T.Size
    pub pv_count : ℤ
    pub missing_pv_count : ℤ
    pub max_pv : ℤ
    pub lv_count : ℤ
    pub max_lv : ℤ
    pub snap_count : ℤ
    pub mda_count : ℤ
    pub mda_used_count : ℤ
    pub allocation_policy : String
    pub auto_activation : T.AutoActivation

  -- Of `lvm2go.PhysicalVolume`.
  pub record LvmPhysicalVolume : Type 0 where
    pub name : String
    pub uuid : String
    pub dev_size : T.Size
    pub size : T.Size
    pub free : T.Size
    pub used : T.Size
    pub mda_free : T.Size
    pub mda_size : T.Size
    pub pe_start : T.Size
    pub mda_count : ℤ
    pub mda_used_count : ℤ
    pub tags : List String
    pub device_id : String
    pub device_id_type : String
    pub attr : String
    pub minor : ℤ
    pub major : ℤ

  -- `VGCreateOptions`; `none` is a field that was left at its zero value.
  pub record VgCreateOptions : Type 0 where
    pub volume_group_name : String
    pub tags : List String
    pub physical_volume_names : List String
    pub auto_activation : Option T.AutoActivation
    pub zero : Option T.Zero
    pub allocation_policy : Option String
    pub maximum_physical_volumes : Option ℤ
    pub maximum_logical_volumes : Option ℤ
    pub physical_extent_size : Option T.Size
    pub metadata_size : Option T.Size
    pub data_alignment : Option T.Size
    pub data_alignment_offset : Option T.Size
    pub devices : List String
    pub devices_file : Option String

  -- The options that `VGChange` is called with.
  pub data VgChangeOption : Type 0 where
    tags : List String → VgChangeOption
    del_tags : List String → VgChangeOption
    maximum_physical_volumes : ℤ → VgChangeOption
    maximum_logical_volumes : ℤ → VgChangeOption
    allocation_policy : String → VgChangeOption
    auto_activation : T.AutoActivation → VgChangeOption

  -- The commands that change the host. Of the options of `VGReduce`: the volume group, the physical
  -- volumes, `RemoveMissing` and `Force`.
  pub data Command : Type 0 where
    vg_create : VgCreateOptions → Command
    vg_remove : String → Bool → Command
    vg_change : String → VgChangeOption → Command
    vg_extend : String → List String → Command
    vg_reduce : String → List String → Bool → Bool → Command
    vg_rename : String → String → Command
    pv_move : String → List String → Command

  -- `lvm2go.Client`
  pub record LvmClient (W : Type 0) : Type 0 where
    -- `VG(ctx, name, UnitBytes)`: a pointer, nil as `none`, and an error.
    pub vg : String → W → (Option LvmVolumeGroup × Option Error) × W
    -- `PVs(ctx, name, UnitBytes)`
    pub pvs : String → M W (List LvmPhysicalVolume)
    pub run : Command → M W ⊤
