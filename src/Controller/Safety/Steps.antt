-- ===== src/Controller/Safety/Steps.antt =====
-- What the parts of a round keep.
use topovgm.Prelude.{◌≡◌, ap, ◌∙◌, Option, none, some, string_eq}
use topovgm.Go.{
  ⊤, Error, Outcome, ok, M, pure, lift, as_value, wrapped, wrapping, ◌>>=◌, wrapping-eq-ok,
}
use topovgm.Go.Preserves.{
  Preserves, pure-Preserves, lift-Preserves, >>=-Preserves, >>=-Inv, as_value-Preserves,
  wrapping-Preserves,
}
use topovgm.Api.Status.{VolumeGroupStatus}
use topovgm.Lvm.{LvmTypes, LvmVolumeGroup, VgCreateOptions, vg_create}
use topovgm.Controller.Platform.{Platform, Quantity, Resource, Host}
use topovgm.Controller.Convert.{get_name_on_node, size_option, convert_to_vg_create_options}
use topovgm.Controller.Convert.Options.{options_of, convert_to_vg_create_options-Carries}
use topovgm.Controller.Syncers.{run}
use topovgm.Controller.Status.{on_world, on_status, fill_status, sync_status}
use topovgm.Controller.Sync.{State}
use topovgm.Controller.Reconcile.{Config, after_create, write_status, initialize_vg, finish}
use topovgm.Controller.Safety.{MaySync, IsQuiet, AllowedPreserve}
use topovgm.Controller.Safety.Syncers.{get_physical_volume_names-Preserves}
use topovgm.Controller.Safety.Loop.{StateInv}

module _ (P : Platform) {W : Type 0} (h : Host P W) (Inv : W → Type 0)
    (quiet : IsQuiet P h Inv) where
  pub convert_to_vg_create_options-Preserves :
      (vg : Resource P) → Preserves Inv (convert_to_vg_create_options P h vg)
  unfolding convert_to_vg_create_options
  convert_to_vg_create_options-Preserves vg =
      >>=-Preserves Inv
        (wrapping-Preserves Inv _ (get_physical_volume_names-Preserves P h Inv quiet vg))
        λ names. sized vg.spec.physical_extent_size λ extent_size.
          sized vg.spec.metadata_size λ metadata_size. sized vg.spec.data_alignment λ alignment.
            sized vg.spec.data_alignment_offset
              {f = λ o. pure (options_of P h vg names extent_size metadata_size alignment o)}
              λ offset. record { keeps = λ w i. i }
    where
      sized :
          {B : Type 0} (q : Option (Quantity P)) {f : Option (LvmTypes.Size P.lvm) → M W B}
          → ((size : Option (LvmTypes.Size P.lvm)) → Preserves Inv (f size))
          → Preserves Inv (lift (size_option P q) >>= f)
      sized q k = >>=-Preserves Inv {m = lift (size_option P q)} (lift-Preserves Inv _) k

  module _ (vg : Resource P) (allowed : AllowedPreserve P h Inv (MaySync P vg)) where
    abbrev pub Keeps : State P W → Type 0
    Keeps = StateInv P h Inv quiet vg allowed

    pub on_world-Preserves :
        {A : Type 0} {m : M W A} → Preserves Inv m → Preserves Keeps (on_world P h m)
    on_world-Preserves p = record { keeps = λ s i. (p.keeps s.world i.0, i.1) }

    pub write_status-Preserves : Preserves Keeps (write_status P h)
    write_status-Preserves = record {
      keeps = λ s i.
          (as_value-Preserves Keeps (on_world-Preserves (quiet.update_status s.vg))).keeps s i;
    }

    on_status-Preserves :
        (m : M (VolumeGroupStatus (Quantity P)) ⊤) → Preserves Keeps (on_status P h m)
    unfolding get_name_on_node
    on_status-Preserves m = record { keeps = λ s i. i }

    pub sync_status-Preserves :
        (lvm : Option (LvmVolumeGroup P.lvm)) → Preserves Keeps (sync_status P h lvm)
    unfolding sync_status
    sync_status-Preserves none = record { keeps = λ s i. i }
    sync_status-Preserves (some lvm) = record {
      keeps = λ s i.
          (>>=-Preserves Keeps
              (wrapping-Preserves Keeps _ (on_world-Preserves (quiet.pvs lvm.name)))
              (λ pvs. on_status-Preserves (fill_status P lvm pvs))).keeps
            s i;
    }

    after_create-Preserves : (err : Option Error) → Preserves Keeps (after_create P h err)
    unfolding get_name_on_node
    after_create-Preserves none = pure-Preserves Keeps tt
    after_create-Preserves (some e) = record { keeps = λ s i. i }

    named :
        (s : State P W) (opts : VgCreateOptions P.lvm) (v : State P W)
        → wrapping
            (wrapped "failed to convert VolumeGroup to VGCreateOptions")
            (on_world P h (convert_to_vg_create_options P h s.vg))
            s
          ≡ (ok opts, v)
        → opts.volume_group_name ≡ get_name_on_node P s.vg
    named s opts v e =
        let convert = convert_to_vg_create_options P h s.vg in
        let ran =
          ap (λ (o : Outcome (VgCreateOptions P.lvm) × State P W). (o.0, o.1.world))
            (wrapping-eq-ok _ (on_world P h convert) s e) in
        (convert_to_vg_create_options-Carries P h s.vg s.world ran).1.name

    pub initialize_vg-Preserves : Preserves Keeps (initialize_vg P h)
    unfolding initialize_vg get_name_on_node
    initialize_vg-Preserves = record {
      keeps = λ s i.
          let convert = convert_to_vg_create_options P h s.vg in
          let create = λ (opts : VgCreateOptions P.lvm). run P h (vg_create opts) in
          >>=-Inv Keeps
            (wrapping (wrapped "failed to convert VolumeGroup to VGCreateOptions")
              (on_world P h convert))
            (λ opts. as_value (on_world P h (create opts)) >>= after_create P h) s
            ((convert_to_vg_create_options-Preserves s.vg).keeps s.world i.0, i.1)
            (λ opts v e j.
              (>>=-Preserves Keeps
                  (as_value-Preserves Keeps
                    (on_world-Preserves (allowed (vg_create opts) (named s opts v e ∙ i.1.1))))
                  (λ err. after_create-Preserves err)).keeps
                v j);
    }

    pub finish-Preserves :
        (config : Config) (lvm : Option (LvmVolumeGroup P.lvm)) (err : Option Error)
        → Preserves Keeps (finish P h config lvm err)
    unfolding finish
    finish-Preserves config lvm err =
        >>=-Preserves Keeps (as_value-Preserves Keeps (sync_status-Preserves lvm)) λ status_err.
          >>=-Preserves Keeps write_status-Preserves λ write_err. pure-Preserves Keeps _
