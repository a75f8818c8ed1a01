-- ===== src/Controller/Lifecycle/Rounds.antt =====
-- A round, on each of its branches, leaves the volume group guarded by the finalizer.
use mathlib.Core.Path.{subst}
use mathlib.Core.Option.{some-injective}
use topovgm.Prelude.{
  ℕ, String, ◌≡◌, refl, sym, ap, ◌∙◌, inl, inr, Bool, Bool-cases, Option-cases, true, false, Option,
  none, some, ◌==◌, string_eq, contains,
}
use topovgm.Prelude.Int.{ℤ}
use topovgm.Go.{Outcome}
use topovgm.Controller.Platform.{Platform, Resource, Host}
use topovgm.Controller.Convert.{get_name_on_node}
use topovgm.Controller.Reconcile.{Config, Answer, finalizer, handle, after_get, reconcile}
use topovgm.Controller.Safety.Rounds.{WorldInv}
use topovgm.Controller.Safety.Steps.{convert_to_vg_create_options-Preserves}
use topovgm.Controller.Lifecycle.{Cluster, reconcile-handle}
use topovgm.Controller.Lifecycle.Guard.{
  HasFinalizer, IsAbsent, IsGuarded, Guards, AcceptsFinalizer, reconcile-HasFinalizer,
}
use topovgm.Controller.Lifecycle.Guard.Removing.{remove-IsGuarded}
use topovgm.Controller.Lifecycle.Guard.Creating.{converted_group}

module _ (P : Platform) {W : Type 0} (h : Host P W) (config : Config) (request : String × String)
    (stored : W → Option (Resource P)) (on_host : W → Bool) {name : String}
    (cluster : Cluster P h request name stored on_host) (guards : Guards P stored on_host h)
    (accepts : AcceptsFinalizer P stored on_host h) where
  abbrev pub Guarded : W → Type 0
  Guarded = IsGuarded P stored on_host

  abbrev pub EndsGuarded : Option (Outcome Answer × W) → Type 0
  EndsGuarded = WorldInv P h Guarded

  WorldInv-IsGuarded :
      (out : Option (Outcome Answer × W))
      → WorldInv P h (HasFinalizer P stored on_host) out
      → EndsGuarded out
  WorldInv-IsGuarded none i = tt
  WorldInv-IsGuarded (some (r, w)) i = inr i

  module _ (fuel : ℕ) (w : W) (guarded : Guarded w) where
    no_resource : stored w ≡ none → EndsGuarded (reconcile P h fuel config request w)
    unfolding reconcile
    no_resource gone =
        subst (λ out. EndsGuarded (after_get P h fuel config out))
          (sym (cluster.gets_nothing w gone).1) guarded

    module _ (vg : Resource P) (here : stored w ≡ some vg)
        (named : get_name_on_node P vg ≡ name) where
      other_node :
          (config.node_name == vg.spec.node_name) ≡ false
          → EndsGuarded (reconcile P h fuel config request w)
      unfolding reconcile
      other_node differs =
          subst (λ out. EndsGuarded (after_get P h fuel config out)) (sym (cluster.gets w vg here))
            (rw differs guarded)

      module _ (owned : (config.node_name == vg.spec.node_name) ≡ true) where
        own_round :
            reconcile P h fuel config request w
            ≡ handle P h fuel config vg vg.meta.deletion_timestamp w
        own_round = reconcile-handle P h config request fuel vg w w (cluster.gets w vg here) owned

        with_finalizer :
            vg.meta.deletion_timestamp ≡ none
            → contains vg.meta.finalizers finalizer ≡ true
            → EndsGuarded (reconcile P h fuel config request w)
        with_finalizer kept m = WorldInv-IsGuarded _ (
            reconcile-HasFinalizer P h config request stored on_host cluster guards accepts fuel vg
              w here kept m)

        without_group :
            vg.meta.deletion_timestamp ≡ none
            → IsAbsent P stored on_host w
            → EndsGuarded (reconcile P h fuel config request w)
        without_group kept absent =
            elim (Bool-cases (P.add_finalizer vg.meta.finalizers finalizer).1) [
              | inl added ↦
                  converted_group P h config request stored on_host cluster guards accepts vg named
                    w here owned kept absent fuel _ refl
                    ((convert_to_vg_create_options-Preserves P h (IsAbsent P stored on_host)
                        guards.keeps_absent vg).keeps
                      w absent)
                    (ap (λ b. ((P.add_finalizer vg.meta.finalizers finalizer).0, b)) added)
              | inr present ↦ with_finalizer kept (guards.adding.present _ present)
            ]

        own_resource :
            (deleted : Option ℤ)
            → vg.meta.deletion_timestamp ≡ deleted
            → Guarded w
            → EndsGuarded (reconcile P h fuel config request w)
        own_resource (some timestamp) deleted g =
            subst EndsGuarded (sym (own_round ∙ ap (λ d. handle P h fuel config vg d w) deleted)) (
              remove-IsGuarded P h config request stored on_host cluster guards accepts vg named
                timestamp w g)
        own_resource none kept (inl absent) = without_group kept absent
        own_resource none kept (inr (vg', here', m)) = with_finalizer kept (
            subst (λ (v : Resource P). contains v.meta.finalizers finalizer ≡ true)
              (some-injective _ _ (sym here' ∙ here)) m)

  -- A round that returns leaves the volume group guarded.
  pub reconcile-IsGuarded :
      (fuel : ℕ) (w : W)
      → ((vg : Resource P) → stored w ≡ some vg → get_name_on_node P vg ≡ name)
      → Guarded w
      → EndsGuarded (reconcile P h fuel config request w)
  reconcile-IsGuarded fuel w named guarded = elim (Option-cases (stored w)) [
    | inl gone ↦ no_resource fuel w guarded gone
    | inr (vg, here) ↦ elim (Bool-cases (config.node_name == vg.spec.node_name)) [
      | inl owned ↦ own_resource fuel w guarded vg here (named vg here) owned _ refl guarded
      | inr differs ↦ other_node fuel w guarded vg here (named vg here) differs
    ]
  ]
