-- ===== src/Controller/Lifecycle/Creation.antt =====
-- The beginning of a volume group: from a fresh resource to the volume group that it asks for.
use topovgm.Prelude.{String, ◌≡◌, Bool, true, false, Option, none, some, List, ◌==◌, string_eq}
use topovgm.Go.{ok}
use topovgm.Lvm.{VgCreateOptions, vg_create}
use topovgm.Controller.Platform.{Platform, Resource, Host}
use topovgm.Controller.Convert.{get_name_on_node, convert_to_vg_create_options}
use topovgm.Controller.Sync.{set_default}
use topovgm.Controller.Reconcile.{Config, finalizer, with_finalizers}
use topovgm.Controller.Syncers.{run}
use topovgm.Controller.Lifecycle.{Cluster}

module _ (P : Platform) {W : Type 0} (h : Host P W) (config : Config) (request : String × String)
    (stored : W → Option (Resource P)) (on_host : W → Bool) where
  -- A resource of this node that no round has seen: it is stored without the controller's finalizer,
  -- `finalizers` are its finalizers with that one, and lvm2 has no volume group of its name. Its
  -- settings can be converted into the options `opts`.
  pub record IsFresh (vg : Resource P) (finalizers : List String) (opts : VgCreateOptions P.lvm)
      (w : W) : Type 0 where
    pub cluster : Cluster P h request (get_name_on_node P vg) stored on_host
    pub here : stored w ≡ some vg
    pub node : (config.node_name == vg.spec.node_name) ≡ true
    pub kept : vg.meta.deletion_timestamp ≡ none
    pub added : P.add_finalizer vg.meta.finalizers finalizer ≡ (finalizers, true)
    pub absent : on_host w ≡ false
    pub converted : convert_to_vg_create_options P h vg w ≡ (ok opts, w)

  module _ {vg : Resource P} {finalizers : List String} {opts : VgCreateOptions P.lvm} {w w1 w2 : W}
      (fresh : IsFresh vg finalizers opts w) (created : run P h (vg_create opts) w ≡ (ok tt, w1))
      (written : h.update (with_finalizers P vg finalizers) w1 ≡ (ok tt, w2)) where
    abbrev guarded : Resource P
    guarded = with_finalizers P vg finalizers

    abbrev asked : Resource P
    asked = set_default P guarded
