-- ===== src/Controller/Lifecycle/Guard/Creating.antt =====
-- The round that creates the volume group of a resource leaves it guarded.
use mathlib.Core.Path.{subst}
use topovgm.Prelude.{
  ℕ, String, ◌≡◌, refl, sym, ap, ◌∙◌, inl, inr, Bool, true, Option, none, some, List, ◌==◌,
  string_eq, contains,
}
use topovgm.Go.{⊤, Outcome, ok, fail, panic}
use topovgm.Lvm.{VgCreateOptions, vg_create}
use topovgm.Controller.Platform.{Platform, Resource, Host}
use topovgm.Controller.Convert.{get_name_on_node, convert_to_vg_create_options}
use topovgm.Controller.Sync.{set_failed}
use topovgm.Controller.Reconcile.{Config, Answer, finalizer, with_finalizers, reconcile}
use topovgm.Controller.Reconcile.Creation.{reconcile-Creates}
use topovgm.Controller.Reconcile.Failure.{
  Misses, not_converted, reconcile_gives_up, reconcile_panics_before_creation,
  reconcile_not_created, reconcile_panics_in_creation,
}
use topovgm.Controller.Syncers.{run}
use topovgm.Controller.Safety.Rounds.{WorldInv}
use topovgm.Controller.Lifecycle.{Cluster}
use topovgm.Controller.Lifecycle.Guard.{
  IsAbsent, IsGuarded, AcceptsFinalizer, Guards, stored_after-has, give_up-StateAbsent, own,
}

module _ (P : Platform) {W : Type 0} (h : Host P W) (config : Config) (request : String × String)
    (stored : W → Option (Resource P)) (on_host : W → Bool) {name : String}
    (cluster : Cluster P h request name stored on_host) (guards : Guards P stored on_host h)
    (accepts : AcceptsFinalizer P stored on_host h) where
  module _ (vg : Resource P) (named : get_name_on_node P vg ≡ name) where
    module _ (w : W) (here : stored w ≡ some vg)
        (owned : (config.node_name == vg.spec.node_name) ≡ true)
        (kept : vg.meta.deletion_timestamp ≡ none) (absent : IsAbsent P stored on_host w) where
      abbrev EndsGuarded : Option (Outcome Answer × W) → Type 0
      EndsGuarded = WorldInv P h (IsGuarded P stored on_host)

      misses : (lvm : _) × Misses P h config request w vg lvm w
      misses =
          let (e, looked, missing) =
            (own P h config request stored on_host cluster guards accepts vg named).misses w
              absent in
          (
            none,
            record {
              w1 = w;
              owned = record { got = cluster.gets w vg here; node = owned; kept = kept };
              missing = e;
              looked = looked;
              is_missing = missing;
            },
          )

      -- What the round does with the outcome of `VGCreate`.
      created_group :
          (fuel : ℕ) (opts : VgCreateOptions P.lvm) (w3 : W) (out : Outcome ⊤ × W)
          {finalizers : List String}
          → convert_to_vg_create_options P h vg w ≡ (ok opts, w3)
          → IsAbsent P stored on_host w3
          → run P h (vg_create opts) w3 ≡ out
          → P.add_finalizer vg.meta.finalizers finalizer ≡ (finalizers, true)
          → EndsGuarded (reconcile P h fuel config request w)
      created_group fuel opts w3 (ok _, w4) {finalizers} converted nothing created added =
          let guarded = with_finalizers P vg finalizers in
          let (w', accepted) = accepts vg w4 in
          let fs : (P.add_finalizer vg.meta.finalizers finalizer).0 ≡ finalizers =
            ap (λ (o : List String × Bool). o.0) added in
          let written : h.update guarded w4 ≡ (ok tt, w') =
            subst (λ fs. h.update (with_finalizers P vg fs) w4 ≡ (ok tt, w')) fs accepted in
          let m =
            ap (λ fs. contains fs finalizer) (sym fs) ∙ guards.adding.adds vg.meta.finalizers in
          let m' = misses.1 in
          subst EndsGuarded
            (sym (
              reconcile-Creates P h config request fuel
                (record {
                  w1 = m'.w1;
                  owned = m'.owned;
                  missing = m'.missing;
                  w2 = w;
                  looked = m'.looked;
                  is_missing = m'.is_missing;
                  opts = opts;
                  w3 = w3;
                  converted = converted;
                  created = created;
                })
                added written))
            (inr (
              guarded,
              cluster.updates guarded w4 w' written ∙ stored_after-has P stored on_host guarded m,
              m,
            ))
      created_group fuel opts w3 (fail e, w4) converted nothing failed added =
          subst EndsGuarded
            (sym (reconcile_not_created P h config request fuel misses.1 converted failed))
            (inl (
              give_up-StateAbsent P h config request stored on_host cluster guards accepts e
                (record { vg = set_failed P vg e; world = w4 })
                ((own P h config request stored on_host cluster guards accepts vg
                    named).creates_nothing
                  opts (fail e) w3 w4 (λ f. cc) failed nothing)))
      created_group fuel opts w3 (panic p, w4) converted nothing failed added =
          subst EndsGuarded
            (sym (reconcile_panics_in_creation P h config request fuel misses.1 converted failed))
            (inl (
              (own P h config request stored on_host cluster guards accepts vg
                  named).creates_nothing
                opts (panic p) w3 w4 (λ f. cc) failed nothing))

      -- What the round does with the outcome of the conversion, which makes no volume group.
      pub converted_group :
          (fuel : ℕ) (out : Outcome (VgCreateOptions P.lvm) × W) {finalizers : List String}
          → convert_to_vg_create_options P h vg w ≡ out
          → IsAbsent P stored on_host out.1
          → P.add_finalizer vg.meta.finalizers finalizer ≡ (finalizers, true)
          → EndsGuarded (reconcile P h fuel config request w)
      converted_group fuel (ok opts, w3) converted nothing added =
          created_group fuel opts w3 (run P h (vg_create opts) w3) converted nothing refl added
      converted_group fuel (fail e, w3) failed nothing added =
          subst EndsGuarded (sym (reconcile_gives_up P h config request fuel misses.1 failed)) (
            inl (
              give_up-StateAbsent P h config request stored on_host cluster guards accepts
                (not_converted P h e) (record { vg = vg; world = w3 }) nothing))
      converted_group fuel (panic p, w3) failed nothing added =
          subst EndsGuarded
            (sym (reconcile_panics_before_creation P h config request fuel misses.1 failed))
            (inl nothing)
