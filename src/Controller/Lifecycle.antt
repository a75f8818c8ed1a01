-- ===== src/Controller/Lifecycle.antt =====
-- The rounds of the controller in a row: a cluster whose API server stores the resource and whose
-- node holds its volume group, and what a volume group goes through from its creation to its removal.
pub mod Creation
pub mod Removal
pub mod Guard
pub mod Rounds
pub mod Invariant
use topovgm.Prelude.{
  ℕ, String, ◌≡◌, ◌≢◌, ◌⊎◌, Bool, true, false, Option, none, some, List, [], ◌∷◌, ◌==◌, string_eq,
}
use topovgm.Prelude.Int.{ℤ}
use topovgm.Go.{⊤, Error, Outcome, is_error, ok, fail}
use topovgm.Lvm.{LvmTypes, LvmVolumeGroup, LvmClient, VgCreateOptions, vg_create, vg_remove}
use topovgm.Controller.Platform.{Platform, Resource, Host}
use topovgm.Controller.Syncers.{run}
use topovgm.Controller.Reconcile.{Config, finalizer, handle, reconcile}

module _ (P : Platform) where
  -- A resource that is being deleted is gone once its last finalizer is.
  abbrev pub stored_at : Option ℤ → List String → Resource P → Option (Resource P)
  stored_at none finalizers vg = some vg
  stored_at (some _) [] vg = none
  stored_at (some _) (_ ∷ _) vg = some vg

  -- What the API server stores after an update.
  abbrev pub stored_after : Resource P → Option (Resource P)
  stored_after vg = stored_at vg.meta.deletion_timestamp vg.meta.finalizers vg

  -- `AddFinalizer` finds what it has added.
  abbrev pub AddsOnce : Type 0
  AddsOnce =
      (fs gs : List String)
      → P.add_finalizer fs finalizer ≡ (gs, true)
      → P.add_finalizer gs finalizer ≡ (gs, false)

-- What the API server and lvm2 document of one resource and of its volume group `name`: `stored` is
-- what is stored, and `on_host` whether lvm2 has the group. Writes and commands may fail: these laws
-- say what they leave, by what they return.
pub record Cluster (P : Platform) {W : Type 0} (h : Host P W) (request : String × String)
    (name : String) (stored : W → Option (Resource P)) (on_host : W → Bool) : Type 0 where
  pub gets : (w : W) (vg : Resource P) → stored w ≡ some vg → h.get request w ≡ (ok vg, w)
  pub gets_nothing : (w : W) → stored w ≡ none → (e : Error) × (h.get request w ≡ (fail e, w))
  -- The lookup returns an error that is lvm2's for a missing group.
  pub misses :
      (w : W)
      → on_host w ≡ false
      → (e : Error) × (LvmClient.vg h.client name w ≡ ((none, some e), w))
        × (is_error e (LvmTypes.vg_not_found P.lvm) ≡ true)
  -- The clock stands outside of both.
  pub tells :
      (w : W)
      → (now : ℤ) × (v : W) × (h.now w ≡ (now, v)) × (stored v ≡ stored w) × (on_host v ≡ on_host w)
  -- A write that is accepted is stored, and no write touches the host.
  pub updates :
      (vg : Resource P) (w w' : W) → h.update vg w ≡ (ok tt, w') → stored w' ≡ stored_after P vg
  pub updates_host : (vg : Resource P) (w : W) → on_host (h.update vg w).1 ≡ on_host w
  -- `vgcreate` makes the group, or fails and makes none.
  pub creates :
      (opts : VgCreateOptions P.lvm) (w w' : W)
      → opts.volume_group_name ≡ name
      → run P h (vg_create opts) w ≡ (ok tt, w')
      → on_host w' ≡ true
  pub creates_nothing :
      (opts : VgCreateOptions P.lvm) (r : Outcome ⊤) (w w' : W)
      → r ≢ ok tt
      → run P h (vg_create opts) w ≡ (r, w')
      → on_host w ≡ false
      → on_host w' ≡ false
  -- Behind a `vgremove` that succeeds or finds no group there is none, and it never makes one.
  pub removes :
      (force : Bool) (r : Outcome ⊤) (w w' : W)
      → run P h (vg_remove name force) w ≡ (r, w')
      → (r ≡ ok tt) ⊎ ((e : Error) × (r ≡ fail e) × (LvmTypes.is_lvm_not_found P.lvm e ≡ true))
      → on_host w' ≡ false
  pub removes_absent :
      (force : Bool) (w : W)
      → on_host w ≡ false
      → on_host (run P h (vg_remove name force) w).1 ≡ false

module _ (P : Platform) {W : Type 0} (h : Host P W) (config : Config)
    (request : String × String) where
  -- The round of a resource of this node is the branch for its deletion timestamp.
  pub reconcile-handle :
      (fuel : ℕ) (vg : Resource P) (w w' : W)
      → h.get request w ≡ (ok vg, w')
      → (config.node_name == vg.spec.node_name) ≡ true
      → reconcile P h fuel config request w
        ≡ handle P h fuel config vg vg.meta.deletion_timestamp w'
  unfolding reconcile
  reconcile-handle fuel vg w w' got owned = simp (got, owned)
