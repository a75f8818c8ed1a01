-- ===== src/Controller/Lifecycle/Invariant.antt =====
-- Rounds in turn with what a user does to the resource: the finalizer guards the volume group.
use topovgm.Prelude.{ℕ, String, ◌≡◌, Bool, Option, none, some, string_eq}
use topovgm.Prelude.Int.{ℤ}
use topovgm.Go.{Outcome}
use topovgm.Controller.Platform.{Platform, Resource, Host}
use topovgm.Controller.Convert.{get_name_on_node}
use topovgm.Controller.Reconcile.{Config, Answer, reconcile}
use topovgm.Controller.Lifecycle.{stored_after}

module _ (P : Platform) where
  -- What the API server makes of a deletion.
  abbrev pub being_deleted : Resource P → ℤ → ℤ → Resource P
  being_deleted vg timestamp seconds = record vg {
    meta = record (vg.meta) {
      deletion_timestamp = some timestamp;
      deletion_grace_period_seconds = some seconds;
    };
  }

module _ (P : Platform) {W : Type 0} (h : Host P W) (config : Config) (request : String × String)
    (stored : W → Option (Resource P)) (on_host : W → Bool) (name : String) where
  -- What happens to the cluster: rounds, while the resource names the volume group `name`, and users
  -- who create, edit and delete the resource but leave its finalizers; and anything that leaves the
  -- resource and the volume group as they are.
  pub data Step (w w' : W) : Type 0 where
    round :
        (fuel : ℕ) (answer : Outcome Answer)
        → ((vg : Resource P) → stored w ≡ some vg → get_name_on_node P vg ≡ name)
        → reconcile P h fuel config request w ≡ some (answer, w')
        → Step w w'
    create :
        (vg : Resource P)
        → stored w ≡ none
        → stored w' ≡ some vg
        → on_host w' ≡ on_host w
        → Step w w'
    edit :
        (vg vg' : Resource P)
        → stored w ≡ some vg
        → stored w' ≡ some vg'
        → vg'.meta.finalizers ≡ vg.meta.finalizers
        → on_host w' ≡ on_host w
        → Step w w'
    delete :
        (vg : Resource P) (timestamp seconds : ℤ)
        → stored w ≡ some vg
        → stored w' ≡ stored_after P (being_deleted P vg timestamp seconds)
        → on_host w' ≡ on_host w
        → Step w w'
    elapse : stored w' ≡ stored w → on_host w' ≡ on_host w → Step w w'

  pub data Reach (w : W) : W → Type 0 where
    no_step : Reach w w
    then_step : {v u : W} → Reach w v → Step v u → Reach w u
