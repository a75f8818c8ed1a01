-- ===== src/Controller/Lifecycle/Guard.antt =====
-- The finalizer guards the volume group: what each round keeps of that.
pub mod Removing
pub mod Creating
use mathlib.Core.Path.{subst}
use topovgm.Prelude.{
  ℕ, String, ◌≡◌, refl, sym, ap, ◌∙◌, ◌⊎◌, inl, inr, Bool, Bool-cases, Option-cases, true, false,
  Option, none, some, List, [], ◌∷◌, ◌==◌, string_eq, contains,
}
use topovgm.Prelude.Int.{ℤ, ltb_ℤ, ◌+ℤ◌, wrap64, scale}
use topovgm.Go.{⊤, Error, Outcome, ok, fail, panic, M}
use topovgm.Go.Preserves.{Preserves, pure-Preserves, >>=-Preserves, as_value-Preserves}
use topovgm.Lvm.{
  LvmTypes, LvmClient, Command, VgCreateOptions, vg_create, vg_remove, vg_change, vg_extend,
  vg_reduce, vg_rename, pv_move,
}
use topovgm.Controller.Platform.{Platform, Resource, Host}
use topovgm.Controller.Convert.{get_name_on_node, convert_to_vg_create_options}
use topovgm.Controller.Sync.{State, set_failed}
use topovgm.Controller.Status.{on_world}
use topovgm.Controller.Reconcile.{
  Config, Answer, finalizer, with_finalizers, remove, give_up, write_status, reconcile,
}
use topovgm.Controller.Reconcile.Creation.{reconcile-Creates}
use topovgm.Controller.Reconcile.Failure.{
  Misses, not_converted, reconcile_gives_up, reconcile_panics_before_creation,
  reconcile_not_created, reconcile_panics_in_creation,
}
use topovgm.Controller.Reconcile.Removal.{
  RunsRemove, IsGone, remove_keeps_finalizer, remove_panics, remove-drop_finalizer,
}
use topovgm.Controller.Syncers.{run}
use topovgm.Controller.Safety.{MayRemove, LooksUpByName, IsQuiet, AllowedPreserve, WritesPreserve}
use topovgm.Controller.Safety.Rounds.{WorldInv, drop_finalizer-Preserves, reconcile_runs_allowed}
use topovgm.Controller.Lifecycle.{Cluster, stored_at, stored_after}

module _ (P : Platform) {W : Type 0} (stored : W → Option (Resource P)) (on_host : W → Bool) where
  -- The stored resource has the controller's finalizer.
  abbrev pub HasFinalizer : W → Type 0
  HasFinalizer w =
      (vg : Resource P) × (stored w ≡ some vg) × (contains vg.meta.finalizers finalizer ≡ true)

  abbrev pub IsAbsent : W → Type 0
  IsAbsent w = on_host w ≡ false

  -- A volume group that is on the host is held by the finalizer of its resource.
  abbrev pub IsGuarded : W → Type 0
  IsGuarded w = IsAbsent w ⊎ HasFinalizer w

  -- `AddFinalizer` returns finalizers with the one that it adds, and reports no change only if it was
  -- there.
  pub record AddsFinalizer : Type 0 where
    pub adds : (fs : List String) → contains (P.add_finalizer fs finalizer).0 finalizer ≡ true
    pub present :
        (fs : List String) → (P.add_finalizer fs finalizer).1 ≡ false → contains fs finalizer ≡ true

  -- The API server accepts each write that adds the finalizer.
  abbrev pub AcceptsFinalizer : Host P W → Type 0
  AcceptsFinalizer h =
      (vg : Resource P) (w : W)
      → (w' : W) × (h.update (with_finalizers P vg (P.add_finalizer vg.meta.finalizers finalizer).0)
            w
          ≡ (ok tt, w'))

  -- Beside the cluster's own laws: no command writes the resource, no query and no write of the status
  -- makes a volume group or takes a finalizer away, and lvm2 returns the group that it is asked for.
  pub record Guards (h : Host P W) : Type 0 where
    pub adding : AddsFinalizer
    pub keeps_finalizer : IsQuiet P h HasFinalizer
    pub runs_finalizer : (c : Command P.lvm) → Preserves HasFinalizer (LvmClient.run h.client c)
    pub keeps_absent : IsQuiet P h IsAbsent
    pub by_name : LooksUpByName P h

  pub stored_after-has :
      (vg : Resource P) → contains vg.meta.finalizers finalizer ≡ true → stored_after P vg ≡ some vg
  stored_after-has vg m = at vg.meta.deletion_timestamp vg.meta.finalizers m
    where
      at :
          (d : Option ℤ) (fs : List String)
          → contains fs finalizer ≡ true
          → stored_at P d fs vg ≡ some vg
      at none fs m = refl
      at (some _) [] m = cc
      at (some _) (_ ∷ _) m = refl

module _ (P : Platform) {W : Type 0} (h : Host P W) (config : Config) (request : String × String)
    (stored : W → Option (Resource P)) (on_host : W → Bool) {name : String}
    (cluster : Cluster P h request name stored on_host) (guards : Guards P stored on_host h)
    (accepts : AcceptsFinalizer P stored on_host h) where
  writes-HasFinalizer : WritesPreserve P h (HasFinalizer P stored on_host) none
  writes-HasFinalizer vg = record {
    keeps = λ w has.
        let changed = with_finalizers P vg (P.add_finalizer vg.meta.finalizers finalizer).0 in
        let (w', written) = accepts vg w in
        let left = cluster.updates changed w w' written in
        let m = guards.adding.adds vg.meta.finalizers in
        rw written (changed, left ∙ stored_after-has P stored on_host changed m, m);
  }

  pub updates-IsAbsent : (vg : Resource P) → Preserves (IsAbsent P stored on_host) (h.update vg)
  updates-IsAbsent vg = record { keeps = λ w absent. cluster.updates_host vg w ∙ absent }

  -- A kept resource that has the finalizer keeps it.
  pub reconcile-HasFinalizer :
      (fuel : ℕ) (vg : Resource P) (w : W)
      → stored w ≡ some vg
      → vg.meta.deletion_timestamp ≡ none
      → contains vg.meta.finalizers finalizer ≡ true
      → WorldInv P h (HasFinalizer P stored on_host) (reconcile P h fuel config request w)
  reconcile-HasFinalizer fuel vg w here kept m =
      reconcile_runs_allowed P h (HasFinalizer P stored on_host) config request fuel w
        guards.keeps_finalizer guards.by_name (cluster.gets w vg here)
        (λ c may. guards.runs_finalizer c) (rw kept writes-HasFinalizer) (vg, here, m)

  abbrev StateAbsent : State P W → Type 0
  StateAbsent s = IsAbsent P stored on_host s.world

  on_world-Preserves :
      {A : Type 0} {m : M W A}
      → Preserves (IsAbsent P stored on_host) m
      → Preserves StateAbsent (on_world P h m)
  on_world-Preserves p = record { keeps = λ s i. p.keeps s.world i }

  pub give_up-StateAbsent :
      (e : Error) (s : State P W) → StateAbsent s → StateAbsent (give_up P h e s).1
  give_up-StateAbsent e s i =
      (>>=-Preserves StateAbsent {m = write_status P h}
          (record {
            keeps = λ s i.
                (as_value-Preserves StateAbsent
                    (on_world-Preserves (guards.keeps_absent.update_status s.vg))).keeps
                  s i;
          })
          (λ err. pure-Preserves StateAbsent _)).keeps
        s i

  module _ (vg : Resource P) (named : get_name_on_node P vg ≡ name) where
    pub own : Cluster P h request (get_name_on_node P vg) stored on_host
    own = subst (λ n. Cluster P h request n stored on_host) (sym named) cluster
