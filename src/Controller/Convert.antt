-- ===== src/Controller/Convert.antt =====
-- internal/controller/volumegroup_conversion_util.go: from the resource to lvm2's values and back.
pub mod Options
pub mod Policies
use topovgm.Prelude.{String, Bool, true, false, Option, none, some, List}
use topovgm.Go.{message, wrapped, Outcome, ok, fail, bind, M, pure, lift, wrapping, ◌>>=◌}
use topovgm.Lvm.{LvmTypes, VgCreateOptions}
use topovgm.Selector.Devices.{devices_matching_selector}
use topovgm.Controller.Platform.{Platform, Quantity, Resource, Host}

-- `if p != nil { field = convert(p) }`
abbrev when_set : {A B : Type 0} → Option A → (Option A → B) → Option B
when_set none convert = none
when_set (some a) convert = some (convert (some a))

module _ (P : Platform) where
  unfoldable pub get_name_on_node : Resource P → String
  get_name_on_node vg = elim vg.spec.name_on_node [ none ↦ vg.meta.uid | some name ↦ name ]

  unfoldable pub convert_to_auto_activation : Option Bool → LvmTypes.AutoActivation P.lvm
  convert_to_auto_activation none = LvmTypes.set_auto_activate P.lvm
  convert_to_auto_activation (some _) = LvmTypes.set_no_auto_activate P.lvm

  unfoldable pub convert_to_zero : Option Bool → LvmTypes.Zero P.lvm
  convert_to_zero none = LvmTypes.do_not_zero_volume P.lvm
  convert_to_zero (some true) = LvmTypes.do_not_zero_volume P.lvm
  convert_to_zero (some false) = LvmTypes.zero_volume P.lvm

  unfoldable pub convert_quantity_to_size : Option (Quantity P) → Outcome (LvmTypes.Size P.lvm)
  convert_quantity_to_size none = fail (message "quantity is nil")
  convert_quantity_to_size (some q) =
      bind (LvmTypes.validate P.lvm (P.new_size q)) λ _. ok (P.new_size q)

  unfoldable pub convert_size_to_quantity : LvmTypes.Size P.lvm → Outcome (Quantity P)
  convert_size_to_quantity size = bind (LvmTypes.to_bytes P.lvm size) λ n. ok (P.quantities.new n)

  -- `if vg.Spec.X != nil { size, err := convertQuantityToSize(vg.Spec.X) ... }`
  unfoldable pub size_option : Option (Quantity P) → Outcome (Option (LvmTypes.Size P.lvm))
  unfolding convert_quantity_to_size
  size_option none = ok none
  size_option (some q) = bind (convert_quantity_to_size (some q)) λ size. ok (some size)

  module _ {W : Type 0} (h : Host P W) where
    -- A device path is a physical volume's name.
    unfoldable pub get_physical_volume_names : Resource P → M W (List String)
    get_physical_volume_names vg =
        wrapping (wrapped "could not get devices matching selector")
          (devices_matching_selector P.quantities h.run_lsblk vg.spec.physical_volume_selector)

    unfoldable pub convert_to_vg_create_options : Resource P → M W (VgCreateOptions P.lvm)
    unfolding size_option get_physical_volume_names get_name_on_node
    convert_to_vg_create_options vg = do
      names ←
          wrapping (wrapped "could not get physical volume names from spec")
            (get_physical_volume_names vg)
      extent_size ← lift (size_option vg.spec.physical_extent_size)
      metadata_size ← lift (size_option vg.spec.metadata_size)
      alignment ← lift (size_option vg.spec.data_alignment)
      offset ← lift (size_option vg.spec.data_alignment_offset)
      pure (record {
        volume_group_name = get_name_on_node vg;
        tags = vg.spec.tags;
        physical_volume_names = names;
        auto_activation = when_set vg.spec.auto_activation convert_to_auto_activation;
        zero = when_set vg.spec.zero convert_to_zero;
        allocation_policy = vg.spec.allocation_policy;
        maximum_physical_volumes = vg.spec.maximum_physical_volumes;
        maximum_logical_volumes = vg.spec.maximum_logical_volumes;
        physical_extent_size = extent_size;
        metadata_size = metadata_size;
        data_alignment = alignment;
        data_alignment_offset = offset;
        devices = vg.spec.devices;
        devices_file = vg.spec.devices_file;
      })
