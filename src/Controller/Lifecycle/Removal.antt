-- ===== src/Controller/Lifecycle/Removal.antt =====
-- The end of a volume group.
use topovgm.Prelude.{
  ℕ, String, ◌≡◌, sym, ap, ◌∙◌, Bool, true, false, Option, none, some, [], ◌==◌, string_eq,
}
use topovgm.Prelude.Int.{ℤ, ltb_ℤ, ◌+ℤ◌, wrap64, scale}
use topovgm.Go.{⊤, Outcome, ok}
use topovgm.Controller.Platform.{Platform, Resource, Host}
use topovgm.Controller.Convert.{get_name_on_node}
use topovgm.Controller.Reconcile.{Config, finalizer, no_result, with_finalizers, handle, reconcile}
use topovgm.Controller.Reconcile.Removal.{RunsRemove, IsGone, remove_drops_finalizer}
use topovgm.Controller.Lifecycle.{Cluster, stored_at, reconcile-handle}

module _ (P : Platform) {W : Type 0} (h : Host P W) (config : Config) (request : String × String)
    (stored : W → Option (Resource P)) (on_host : W → Bool) where
  -- A round for a deleted resource of this node whose only finalizer is the controller's, by what its
  -- two effects return: if `VGRemove` removes the volume group or lvm2 does not find it, and the write
  -- of the resource without the finalizer succeeds, then the round returns no error and asks for no
  -- other, and after it neither the volume group nor the resource is there. The API server, lvm2 and
  -- the clock are to do what they document.
  pub reconcile_dismantles :
      (fuel : ℕ) (vg : Resource P) (w : W) {timestamp seconds : ℤ} (r : Outcome ⊤) {w1 w' : W}
      → Cluster P h request (get_name_on_node P vg) stored on_host
      → stored w ≡ some vg
      → (config.node_name == vg.spec.node_name) ≡ true
      → vg.meta.deletion_timestamp ≡ some timestamp
      → P.remove_finalizer vg.meta.finalizers finalizer ≡ ([], true)
      → RunsRemove P h vg timestamp seconds w r w1
      → IsGone P h vg timestamp r
      → h.update (with_finalizers P vg []) w1 ≡ (ok tt, w')
      → (reconcile P h fuel config request w ≡ some (ok (no_result, none), w'))
        × (stored w' ≡ none)
        × (on_host w' ≡ false)
  reconcile_dismantles fuel vg w {timestamp} {seconds} r {w1} {w'} cluster here owned deleted only
        runs gone written =
      let rest = with_finalizers P vg [] in
      let force = ltb_ℤ (timestamp +ℤ wrap64 (scale 1000000000 seconds)) runs.now in
      (
        reconcile-handle P h config request fuel vg w w (cluster.gets w vg here) owned
            ∙ ap (λ d. handle P h fuel config vg d w) deleted
            ∙ ap some (remove_drops_finalizer P h vg timestamp r runs gone only written),
        cluster.updates rest w1 w' written ∙ ap (λ d. stored_at P d [] rest) deleted,
        ap (λ (out : Outcome ⊤ × W). on_host out.1) (sym written)
            ∙ cluster.updates_host rest w1
            ∙ cluster.removes force r runs.read w1 runs.ran gone,
      )
