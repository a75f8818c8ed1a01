-- ===== src/Controller/Convert/Options.antt =====
-- The options that `VGCreate` is called with.
use mathlib.Core.Path.{subst}
use topovgm.Prelude.{String, ◌≡◌, refl, Bool, true, false, Option, none, some, List, arith}
use topovgm.Go.{
  Outcome, ok, fail, panic, lift, pure, wrapping, wrapped, ◌>>=◌, >>=-eq-ok, wrapping-eq-ok,
}
use topovgm.Lvm.{LvmTypes, VgCreateOptions}
use topovgm.Controller.Platform.{Platform, Quantity, Resource, Host}
use topovgm.Controller.Convert.{
  get_name_on_node, get_physical_volume_names, convert_quantity_to_size, convert_to_auto_activation,
  convert_to_zero, when_set, size_option, convert_to_vg_create_options,
}

module _ (P : Platform) where
  -- The option of a setting that is left out, or else that of its value.
  abbrev pub OptionOf : {A B : Type 0} → (A → B → Type 0) → Option A → Option B → Type 0
  OptionOf Is none o = o ≡ none
  OptionOf Is (some a) o = (b : _) × (o ≡ some b) × Is a b

  -- A size that lvm2 accepts, made from the quantity.
  abbrev pub IsSize : Quantity P → LvmTypes.Size P.lvm → Type 0
  IsSize q size = (P.new_size q ≡ size) × (LvmTypes.validate P.lvm size ≡ ok tt)

  -- Which option each setting of the resource is made into. Those of automatic activation and of
  -- zeroing are what the code does, against the documentation of these settings: any value for the
  -- first turns it off, and the second is inverted.
  pub record Carries (vg : Resource P) (opts : VgCreateOptions P.lvm) : Type 0 where
    pub name : opts.volume_group_name ≡ get_name_on_node P vg
    pub tags : opts.tags ≡ vg.spec.tags
    pub activation :
        OptionOf
          (λ _ a. a ≡ LvmTypes.set_no_auto_activate P.lvm)
          vg.spec.auto_activation
          opts.auto_activation
    pub zero :
        OptionOf
          (λ b z. z ≡ (elim b [
            | true ↦ LvmTypes.do_not_zero_volume P.lvm
            | false ↦ LvmTypes.zero_volume P.lvm
          ]))
          vg.spec.zero
          opts.zero
    pub policy : opts.allocation_policy ≡ vg.spec.allocation_policy
    pub limits :
        (opts.maximum_physical_volumes ≡ vg.spec.maximum_physical_volumes)
        × (opts.maximum_logical_volumes ≡ vg.spec.maximum_logical_volumes)
    pub extent_size : OptionOf IsSize vg.spec.physical_extent_size opts.physical_extent_size
    pub metadata_size : OptionOf IsSize vg.spec.metadata_size opts.metadata_size
    pub alignment : OptionOf IsSize vg.spec.data_alignment opts.data_alignment
    pub offset : OptionOf IsSize vg.spec.data_alignment_offset opts.data_alignment_offset
    pub devices : (opts.devices ≡ vg.spec.devices) × (opts.devices_file ≡ vg.spec.devices_file)

  size_option-IsSize :
      (q : Option (Quantity P)) {size : Option (LvmTypes.Size P.lvm)}
      → size_option P q ≡ ok size
      → OptionOf IsSize q size
  unfolding size_option convert_quantity_to_size
  size_option-IsSize none h = ground arith
  size_option-IsSize (some q) h = ground arith

  activation-OptionOf :
      (b : Option Bool)
      → OptionOf
          (λ _ a. a ≡ LvmTypes.set_no_auto_activate P.lvm)
          b
          (when_set b (convert_to_auto_activation P))
  unfolding convert_to_auto_activation
  activation-OptionOf none = refl
  activation-OptionOf (some b) = (_, refl, refl)

  zero-OptionOf :
      (b : Option Bool)
      → OptionOf
          (λ b z. z ≡ (elim b [
            | true ↦ LvmTypes.do_not_zero_volume P.lvm
            | false ↦ LvmTypes.zero_volume P.lvm
          ]))
          b
          (when_set b (convert_to_zero P))
  unfolding convert_to_zero
  zero-OptionOf none = refl
  zero-OptionOf (some true) = (_, refl, refl)
  zero-OptionOf (some false) = (_, refl, refl)

-- What four results in a row were, if none of them was an error.
four_ok :
    {W A B : Type 0} (r1 r2 r3 r4 : Outcome A) (f : A → A → A → A → B) (w : W) {b : B} {w' : W}
    → (lift r1 >>= λ a1. lift r2 >>= λ a2. lift r3 >>= λ a3. lift r4 >>= λ a4. pure (f a1 a2 a3 a4))
        w
      ≡ (ok b, w')
    → (a1 a2 a3 a4 : A) × (r1 ≡ ok a1)
      × (r2 ≡ ok a2)
      × (r3 ≡ ok a3)
      × (r4 ≡ ok a4)
      × (◌≡◌ {A = B × W} (f a1 a2 a3 a4, w) (b, w'))
four_ok (ok a1) (ok a2) (ok a3) (ok a4) f w h =
    (a1, a2, a3, a4, refl, refl, refl, refl, ground arith)
four_ok (fail e) r2 r3 r4 f w h = cc
four_ok (panic e) r2 r3 r4 f w h = cc
four_ok (ok _) (fail e) r3 r4 f w h = cc
four_ok (ok _) (panic e) r3 r4 f w h = cc
four_ok (ok _) (ok _) (fail e) r4 f w h = cc
four_ok (ok _) (ok _) (panic e) r4 f w h = cc
four_ok (ok _) (ok _) (ok _) (fail e) f w h = cc
four_ok (ok _) (ok _) (ok _) (panic e) f w h = cc

module _ (P : Platform) {W : Type 0} (h : Host P W) where
  abbrev pub options_of :
      Resource P
      → List String
      → Option (LvmTypes.Size P.lvm)
      → Option (LvmTypes.Size P.lvm)
      → Option (LvmTypes.Size P.lvm)
      → Option (LvmTypes.Size P.lvm)
      → VgCreateOptions P.lvm
  options_of vg names extent_size metadata_size alignment offset = record {
    volume_group_name = get_name_on_node P vg;
    tags = vg.spec.tags;
    physical_volume_names = names;
    auto_activation = when_set vg.spec.auto_activation (convert_to_auto_activation P);
    zero = when_set vg.spec.zero (convert_to_zero P);
    allocation_policy = vg.spec.allocation_policy;
    maximum_physical_volumes = vg.spec.maximum_physical_volumes;
    maximum_logical_volumes = vg.spec.maximum_logical_volumes;
    physical_extent_size = extent_size;
    metadata_size = metadata_size;
    data_alignment = alignment;
    data_alignment_offset = offset;
    devices = vg.spec.devices;
    devices_file = vg.spec.devices_file;
  }

  -- If the resource can be converted, the physical volumes of the options are those that the selector
  -- picks, nothing but the selection acts on the host, and a setting has an option exactly if the
  -- resource makes it: the name, the tags, the text of the policy, the limits and the devices are
  -- passed as they are, and sizes as lvm2 accepts them. Two options do not say what the resource's
  -- documentation does: any value for automatic activation, true included, becomes the setting that
  -- turns it off, and zeroing is turned off when the resource asks for it and on when it declines it.
  pub convert_to_vg_create_options-Carries :
      (vg : Resource P) (w : W) {opts : VgCreateOptions P.lvm} {w' : W}
      → convert_to_vg_create_options P h vg w ≡ (ok opts, w')
      → (get_physical_volume_names P h vg w ≡ (ok opts.physical_volume_names, w'))
        × Carries P vg opts
  unfolding convert_to_vg_create_options
  convert_to_vg_create_options-Carries vg w {opts} {w'} e =
      let sizes = λ (names : List String).
        lift (size_option P vg.spec.physical_extent_size) >>= λ a1.
        lift (size_option P vg.spec.metadata_size) >>= λ a2.
        lift (size_option P vg.spec.data_alignment) >>= λ a3.
        lift (size_option P vg.spec.data_alignment_offset) >>= λ a4.
        pure (options_of vg names a1 a2 a3 a4) in
      let (names, v, selected, rest) =
        >>=-eq-ok
          (wrapping (wrapped "could not get physical volume names from spec")
            (get_physical_volume_names P h vg))
          sizes w e in
      let (a1, a2, a3, a4, e1, e2, e3, e4, same) = four_ok _ _ _ _ (options_of vg names) v rest in
      let picked : get_physical_volume_names P h vg w ≡ (ok names, v) =
        wrapping-eq-ok _ (get_physical_volume_names P h vg) w selected in
      subst
        (λ (o : VgCreateOptions P.lvm × W).
          (get_physical_volume_names P h vg w ≡ (ok o.0.physical_volume_names, o.1))
          × Carries P vg o.0)
        same
        (
          picked,
          record {
            name = refl;
            tags = refl;
            activation = activation-OptionOf P vg.spec.auto_activation;
            zero = zero-OptionOf P vg.spec.zero;
            policy = refl;
            limits = (refl, refl);
            extent_size = size_option-IsSize P vg.spec.physical_extent_size e1;
            metadata_size = size_option-IsSize P vg.spec.metadata_size e2;
            alignment = size_option-IsSize P vg.spec.data_alignment e3;
            offset = size_option-IsSize P vg.spec.data_alignment_offset e4;
            devices = (refl, refl);
          },
        )
