-- ===== src/Controller/Reconcile/Creation.antt =====
-- The round that creates the volume group.
use topovgm.Prelude.{
  ℕ, suc, String, ◌≡◌, refl, ap, ◌∙◌, true, false, Option, none, some, List, ◌==◌, string_eq,
}
use topovgm.Go.{
  Error, wrapped, is_error, ok, fail, panic, M, pure, as_value, wrapping, ◌>>=◌, >>=-ok,
  wrapping-ok, as_value-ok, as_value-fail,
}
use topovgm.Controller.Status.{on_world}
use topovgm.Lvm.{LvmTypes, LvmVolumeGroup, LvmClient, VgCreateOptions, vg_create}
use topovgm.Controller.Platform.{Platform, Resource, Host}
use topovgm.Controller.Convert.{get_name_on_node, convert_to_vg_create_options}
use topovgm.Controller.Syncers.{run}
use topovgm.Controller.Sync.{sync}
use topovgm.Controller.Reconcile.{
  Config, finalizer, requeued, with_finalizers, keep, initialize_vg, after_create, after_discovery,
  world_of, reconcile,
}

module _ (P : Platform) {W : Type 0} (h : Host P W) where
  pub on_world-ok :
      {A : Type 0} (m : M W A) (vg : Resource P) (w : W) {a : A} {w' : W}
      → m w ≡ (ok a, w')
      → on_world P h m (record { vg = vg; world = w }) ≡ (ok a, record { vg = vg; world = w' })
  on_world-ok m vg w e = ap (λ out. (out.0, record { vg = vg; world = out.1 })) e

  pub on_world-fail :
      {A : Type 0} (m : M W A) (vg : Resource P) (w : W) {e : Error} {w' : W}
      → m w ≡ (fail e, w')
      → on_world P h m (record { vg = vg; world = w }) ≡ (fail e, record { vg = vg; world = w' })
  on_world-fail m vg w e = ap (λ out. (out.0, record { vg = vg; world = out.1 })) e

module _ (P : Platform) {W : Type 0} (h : Host P W) (config : Config)
    (request : String × String) where
  -- The request is for a resource of this node that is not being deleted.
  pub record IsOwned (w : W) (vg : Resource P) (w' : W) : Type 0 where
    pub got : h.get request w ≡ (ok vg, w')
    pub node : (config.node_name == vg.spec.node_name) ≡ true
    pub kept : vg.meta.deletion_timestamp ≡ none

  -- lvm2 reports that the volume group of an owned resource does not exist, and creates it.
  pub record Creates (w : W) (vg : Resource P) (lvm : Option (LvmVolumeGroup P.lvm)) (w' : W)
      : Type 0 where
    pub w1 : W
    pub owned : IsOwned w vg w1
    pub missing : Error
    pub w2 : W
    pub looked : LvmClient.vg h.client (get_name_on_node P vg) w1 ≡ ((lvm, some missing), w2)
    pub is_missing : is_error missing (LvmTypes.vg_not_found P.lvm) ≡ true
    pub opts : VgCreateOptions P.lvm
    pub w3 : W
    pub converted : convert_to_vg_create_options P h vg w2 ≡ (ok opts, w3)
    pub created : run P h (vg_create opts) w3 ≡ (ok tt, w')

  initialize_vg-ok :
      (vg : Resource P) (w2 w3 w' : W) {opts : VgCreateOptions P.lvm}
      → convert_to_vg_create_options P h vg w2 ≡ (ok opts, w3)
      → run P h (vg_create opts) w3 ≡ (ok tt, w')
      → initialize_vg P h (record { vg = vg; world = w2 }) ≡ (ok tt, record { vg = vg; world = w' })
  unfolding initialize_vg
  initialize_vg-ok vg w2 w3 w' {opts} converted created =
      let convert = on_world P h (convert_to_vg_create_options P h vg) in
      let create = λ (opts : VgCreateOptions P.lvm). on_world P h (run P h (vg_create opts)) in
      >>=-ok (wrapping (wrapped "failed to convert VolumeGroup to VGCreateOptions") convert)
        (λ opts. as_value (create opts) >>= after_create P h) _
        (wrapping-ok _ convert _
          (on_world-ok P h (convert_to_vg_create_options P h vg) vg w2 converted))
      ∙ >>=-ok (as_value (create opts)) (after_create P h) _
          (as_value-ok (create opts) _ (on_world-ok P h (run P h (vg_create opts)) vg w3 created))

  created_value :
      {vg : Resource P} {lvm : Option (LvmVolumeGroup P.lvm)} {w w' : W} (c : Creates w vg lvm w')
      → as_value (initialize_vg P h) (record { vg = vg; world = c.w2 })
        ≡ (ok none, record { vg = vg; world = w' })
  created_value {vg} {w' = w'} c =
      as_value-ok (initialize_vg P h) _ (initialize_vg-ok vg c.w2 c.w3 w' c.converted c.created)

  keep-adds :
      (fuel : ℕ) (vg : Resource P) (lvm : Option (LvmVolumeGroup P.lvm)) (w' : W) {w'' : W}
      {finalizers : List String}
      → P.add_finalizer vg.meta.finalizers finalizer ≡ (finalizers, true)
      → h.update (with_finalizers P vg finalizers) w' ≡ (ok tt, w'')
      → keep P h fuel config lvm (record { vg = vg; world = w' })
        ≡ some (ok (requeued, none), record { vg = with_finalizers P vg finalizers; world = w'' })
  unfolding keep
  keep-adds fuel vg lvm w' {finalizers = finalizers} added written =
      let changed = with_finalizers P vg finalizers in
      let update = on_world P h (h.update changed) in
      simp added (
        ap some (
          >>=-ok (as_value update) (λ err. pure (requeued, err)) _
            (as_value-ok update _ (on_world-ok P h (h.update changed) changed w' written))))

  keep-panics :
      (fuel : ℕ) (vg : Resource P) (w' : W) {finalizers : List String}
      → P.add_finalizer vg.meta.finalizers finalizer ≡ (finalizers, false)
      → world_of P h (keep P h (suc fuel) config none (record { vg = vg; world = w' }))
        ≡ some (panic "nil pointer dereference", w')
  unfolding keep sync
  keep-panics fuel vg w' present = rw present refl

  -- The round that creates the volume group of a resource without the finalizer adds the finalizer,
  -- writes the resource, and, if the write succeeds, asks for another round; it does not call
  -- `sync`.
  pub reconcile-Creates :
      (fuel : ℕ) {vg : Resource P} {lvm : Option (LvmVolumeGroup P.lvm)} {w w' w'' : W}
      {finalizers : List String}
      → Creates w vg lvm w'
      → P.add_finalizer vg.meta.finalizers finalizer ≡ (finalizers, true)
      → h.update (with_finalizers P vg finalizers) w' ≡ (ok tt, w'')
      → reconcile P h fuel config request w ≡ some (ok (requeued, none), w'')
  unfolding reconcile
  reconcile-Creates fuel {vg} {lvm} {w' = w'} c added written =
      simp (c.owned.got, c.owned.node, c.owned.kept, c.looked, c.is_missing)
        (ap (λ o. world_of P h (after_discovery P h fuel config lvm o)) (created_value c)
          ∙ ap (world_of P h) (keep-adds fuel vg lvm w' added written))

  keep-fails :
      (fuel : ℕ) (vg : Resource P) (lvm : Option (LvmVolumeGroup P.lvm)) (w' : W) {w'' : W}
      {finalizers : List String} {e : Error}
      → P.add_finalizer vg.meta.finalizers finalizer ≡ (finalizers, true)
      → h.update (with_finalizers P vg finalizers) w' ≡ (fail e, w'')
      → keep P h fuel config lvm (record { vg = vg; world = w' })
        ≡ some (ok (requeued, some e), record { vg = with_finalizers P vg finalizers; world = w'' })
  unfolding keep
  keep-fails fuel vg lvm w' {finalizers = finalizers} added refused =
      let changed = with_finalizers P vg finalizers in
      let update = on_world P h (h.update changed) in
      simp added (
        ap some (
          >>=-ok (as_value update) (λ err. pure (requeued, err)) _
            (as_value-fail update _ (on_world-fail P h (h.update changed) changed w' refused))))

  -- If the write of the finalizer fails, the round that created the volume group returns the error and
  -- undoes nothing: the world is as the write left it, with the volume group on the host and no
  -- finalizer of the controller on the resource.
  pub reconcile_leaves_group :
      (fuel : ℕ) {vg : Resource P} {lvm : Option (LvmVolumeGroup P.lvm)} {w w' w'' : W}
      {finalizers : List String} {e : Error}
      → Creates w vg lvm w'
      → P.add_finalizer vg.meta.finalizers finalizer ≡ (finalizers, true)
      → h.update (with_finalizers P vg finalizers) w' ≡ (fail e, w'')
      → reconcile P h fuel config request w ≡ some (ok (requeued, some e), w'')
  unfolding reconcile
  reconcile_leaves_group fuel {vg} {lvm} {w' = w'} c added refused =
      simp (c.owned.got, c.owned.node, c.owned.kept, c.looked, c.is_missing)
        (ap (λ o. world_of P h (after_discovery P h fuel config lvm o)) (created_value c)
          ∙ ap (world_of P h) (keep-fails fuel vg lvm w' added refused))

  -- If the resource has the finalizer already, as when its volume group was removed from the host
  -- behind the controller's back, and the failed lookup returned nil, then the round that creates the
  -- volume group anew panics: `sync` is called with the nil of the lookup.
  pub reconcile_panics_after_creation :
      (fuel : ℕ) {vg : Resource P} {w w' : W} {finalizers : List String}
      → Creates w vg none w'
      → P.add_finalizer vg.meta.finalizers finalizer ≡ (finalizers, false)
      → reconcile P h (suc fuel) config request w ≡ some (panic "nil pointer dereference", w')
  unfolding reconcile
  reconcile_panics_after_creation fuel {vg} {w' = w'} c present =
      simp (c.owned.got, c.owned.node, c.owned.kept, c.looked, c.is_missing)
        (ap (λ o. world_of P h (after_discovery P h (suc fuel) config none o)) (created_value c)
          ∙ keep-panics fuel vg w' present)
