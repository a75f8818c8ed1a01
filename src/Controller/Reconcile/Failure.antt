-- ===== src/Controller/Reconcile/Failure.antt =====
-- The round whose resource cannot be converted into the options of `VGCreate`.
use topovgm.Prelude.{ℕ, String, ◌≡◌, ap, ◌∙◌, true, Option, some, string_eq}
use topovgm.Go.{
  Error, wrapped, is_error, ok, fail, panic, as_value, wrapping, ◌>>=◌, >>=-ok, wrapping-ok,
  >>=-fail, wrapping-fail, as_value-fail, >>=-panic, wrapping-panic, as_value-panic,
}
use topovgm.Lvm.{LvmTypes, LvmVolumeGroup, LvmClient, VgCreateOptions, vg_create}
use topovgm.Controller.Platform.{Platform, Resource, Host}
use topovgm.Controller.Convert.{get_name_on_node, convert_to_vg_create_options}
use topovgm.Controller.Syncers.{run}
use topovgm.Controller.Status.{on_world}
use topovgm.Controller.Reconcile.{
  Config, initialize_vg, after_create, give_up, after_discovery, world_of, reconcile,
}
use topovgm.Controller.Reconcile.Creation.{IsOwned, on_world-ok, on_world-fail}
use topovgm.Controller.Sync.{set_failed}

module _ (P : Platform) {W : Type 0} (h : Host P W) where
  abbrev pub not_converted : Error → Error
  not_converted = wrapped "failed to convert VolumeGroup to VGCreateOptions"

  initialize_vg-fail :
      (vg : Resource P) (w w' : W) {e : Error}
      → convert_to_vg_create_options P h vg w ≡ (fail e, w')
      → initialize_vg P h (record { vg = vg; world = w })
        ≡ (fail (not_converted e), record { vg = vg; world = w' })
  unfolding initialize_vg
  initialize_vg-fail vg w w' failed =
      let convert = on_world P h (convert_to_vg_create_options P h vg) in
      let create = λ (opts : VgCreateOptions P.lvm). on_world P h (run P h (vg_create opts)) in
      >>=-fail (wrapping (wrapped "failed to convert VolumeGroup to VGCreateOptions") convert)
        (λ opts. as_value (create opts) >>= after_create P h) _
        (wrapping-fail _ convert _
          (on_world-fail P h (convert_to_vg_create_options P h vg) vg w failed))

  initialize_vg-panic :
      (vg : Resource P) (w w' : W) {p : String}
      → convert_to_vg_create_options P h vg w ≡ (panic p, w')
      → initialize_vg P h (record { vg = vg; world = w })
        ≡ (panic p, record { vg = vg; world = w' })
  unfolding initialize_vg
  initialize_vg-panic vg w w' failed =
      let convert = on_world P h (convert_to_vg_create_options P h vg) in
      let create = λ (opts : VgCreateOptions P.lvm). on_world P h (run P h (vg_create opts)) in
      >>=-panic (wrapping not_converted convert)
        (λ opts. as_value (create opts) >>= after_create P h) _
        (wrapping-panic not_converted convert _
          (ap (λ out. (out.0, record { vg = vg; world = out.1 })) failed))

  initialize_vg-not_created :
      (vg : Resource P) (w w1 w' : W) {opts : VgCreateOptions P.lvm} {e : Error}
      → convert_to_vg_create_options P h vg w ≡ (ok opts, w1)
      → run P h (vg_create opts) w1 ≡ (fail e, w')
      → initialize_vg P h (record { vg = vg; world = w })
        ≡ (fail e, record { vg = set_failed P vg e; world = w' })
  unfolding initialize_vg
  initialize_vg-not_created vg w w1 w' {opts} converted failed =
      let convert = on_world P h (convert_to_vg_create_options P h vg) in
      let create = λ (opts : VgCreateOptions P.lvm). on_world P h (run P h (vg_create opts)) in
      >>=-ok (wrapping not_converted convert) (λ opts. as_value (create opts) >>= after_create P h)
        _
        (wrapping-ok not_converted convert _
          (on_world-ok P h (convert_to_vg_create_options P h vg) vg w converted))
      ∙ >>=-ok (as_value (create opts)) (after_create P h) _ (
          as_value-fail (create opts) _ (on_world-fail P h (run P h (vg_create opts)) vg w1 failed))

  initialize_vg-creation_panics :
      (vg : Resource P) (w w1 w' : W) {opts : VgCreateOptions P.lvm} {p : String}
      → convert_to_vg_create_options P h vg w ≡ (ok opts, w1)
      → run P h (vg_create opts) w1 ≡ (panic p, w')
      → initialize_vg P h (record { vg = vg; world = w })
        ≡ (panic p, record { vg = vg; world = w' })
  unfolding initialize_vg
  initialize_vg-creation_panics vg w w1 w' {opts} converted failed =
      let convert = on_world P h (convert_to_vg_create_options P h vg) in
      let create = λ (opts : VgCreateOptions P.lvm). on_world P h (run P h (vg_create opts)) in
      >>=-ok (wrapping not_converted convert) (λ opts. as_value (create opts) >>= after_create P h)
        _
        (wrapping-ok not_converted convert _
          (on_world-ok P h (convert_to_vg_create_options P h vg) vg w converted))
      ∙ >>=-panic (as_value (create opts)) (after_create P h) _ (
          as_value-panic (create opts) _
            (ap (λ out. (out.0, record { vg = vg; world = out.1 })) failed))

  module _ (config : Config) (request : String × String) where
    -- lvm2 reports that the volume group of an owned resource does not exist.
    pub record Misses (w : W) (vg : Resource P) (lvm : Option (LvmVolumeGroup P.lvm)) (w' : W)
        : Type 0 where
      pub w1 : W
      pub owned : IsOwned P h config request w vg w1
      pub missing : Error
      pub looked : LvmClient.vg h.client (get_name_on_node P vg) w1 ≡ ((lvm, some missing), w')
      pub is_missing : is_error missing (LvmTypes.vg_not_found P.lvm) ≡ true

    -- The round that should create the volume group of a resource that cannot be converted writes its
    -- status, with nothing created, and returns the error.
    pub reconcile_gives_up :
        (fuel : ℕ) {vg : Resource P} {lvm : Option (LvmVolumeGroup P.lvm)} {w w1 w' : W} {e : Error}
        → Misses w vg lvm w1
        → convert_to_vg_create_options P h vg w1 ≡ (fail e, w')
        → reconcile P h fuel config request w
          ≡ world_of P h (some (give_up P h (not_converted e) (record { vg = vg; world = w' })))
    unfolding reconcile
    reconcile_gives_up fuel {vg} {lvm} {w1 = w1} {w' = w'} m failed =
        simp (m.owned.got, m.owned.node, m.owned.kept, m.looked, m.is_missing)
          (ap (λ o. world_of P h (after_discovery P h fuel config lvm o))
            (as_value-fail (initialize_vg P h) _ (initialize_vg-fail vg w1 w' failed)))

    -- A panic of the conversion ends the round.
    pub reconcile_panics_before_creation :
        (fuel : ℕ) {vg : Resource P} {lvm : Option (LvmVolumeGroup P.lvm)} {w w1 w' : W}
        {p : String}
        → Misses w vg lvm w1
        → convert_to_vg_create_options P h vg w1 ≡ (panic p, w')
        → reconcile P h fuel config request w ≡ some (panic p, w')
    unfolding reconcile
    reconcile_panics_before_creation fuel {vg} {lvm} {w1 = w1} {w' = w'} m failed =
        simp (m.owned.got, m.owned.node, m.owned.kept, m.looked, m.is_missing)
          (ap (λ o. world_of P h (after_discovery P h fuel config lvm o))
            (as_value-panic (initialize_vg P h) _ (initialize_vg-panic vg w1 w' failed)))

    -- If `VGCreate` fails, the round records the error as a condition, writes the status, and returns
    -- the error.
    pub reconcile_not_created :
        (fuel : ℕ) {vg : Resource P} {lvm : Option (LvmVolumeGroup P.lvm)} {w w1 w2 w' : W}
        {opts : VgCreateOptions P.lvm} {e : Error}
        → Misses w vg lvm w1
        → convert_to_vg_create_options P h vg w1 ≡ (ok opts, w2)
        → run P h (vg_create opts) w2 ≡ (fail e, w')
        → reconcile P h fuel config request w
          ≡ world_of P h (some (give_up P h e (record { vg = set_failed P vg e; world = w' })))
    unfolding reconcile
    reconcile_not_created fuel {vg} {lvm} {w1 = w1} {w2} {w'} m converted failed =
        simp (m.owned.got, m.owned.node, m.owned.kept, m.looked, m.is_missing)
          (ap (λ o. world_of P h (after_discovery P h fuel config lvm o))
            (as_value-fail (initialize_vg P h) _
              (initialize_vg-not_created vg w1 w2 w' converted failed)))

    pub reconcile_panics_in_creation :
        (fuel : ℕ) {vg : Resource P} {lvm : Option (LvmVolumeGroup P.lvm)} {w w1 w2 w' : W}
        {opts : VgCreateOptions P.lvm} {p : String}
        → Misses w vg lvm w1
        → convert_to_vg_create_options P h vg w1 ≡ (ok opts, w2)
        → run P h (vg_create opts) w2 ≡ (panic p, w')
        → reconcile P h fuel config request w ≡ some (panic p, w')
    unfolding reconcile
    reconcile_panics_in_creation fuel {vg} {lvm} {w1 = w1} {w2} {w'} m converted failed =
        simp (m.owned.got, m.owned.node, m.owned.kept, m.looked, m.is_missing)
          (ap (λ o. world_of P h (after_discovery P h fuel config lvm o))
            (as_value-panic (initialize_vg P h) _
              (initialize_vg-creation_panics vg w1 w2 w' converted failed)))
