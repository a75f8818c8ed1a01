-- ===== src/Controller/Lifecycle/Guard/Removing.antt =====
-- The round that removes the volume group of a deleted resource keeps it guarded.
use mathlib.Core.Path.{subst}
use topovgm.Prelude.{
  String, ◌≡◌, refl, sym, ◌∙◌, inl, inr, Bool, Bool-cases, Option-cases, false, Option, none,
  string_eq,
}
use topovgm.Prelude.Int.{ℤ, ltb_ℤ, ◌+ℤ◌, wrap64, scale}
use topovgm.Go.{⊤, Outcome, ok, fail, panic}
use topovgm.Lvm.{
  LvmTypes, vg_create, vg_remove, vg_change, vg_extend, vg_reduce, vg_rename, pv_move,
}
use topovgm.Controller.Platform.{Platform, Resource, Host}
use topovgm.Controller.Convert.{get_name_on_node}
use topovgm.Controller.Reconcile.{Config, remove}
use topovgm.Controller.Reconcile.Removal.{
  RunsRemove, IsGone, remove_keeps_finalizer, remove_panics, remove-drop_finalizer,
}
use topovgm.Controller.Syncers.{run}
use topovgm.Controller.Safety.{MayRemove, AllowedPreserve}
use topovgm.Controller.Safety.Rounds.{drop_finalizer-Preserves}
use topovgm.Controller.Lifecycle.{Cluster}
use topovgm.Controller.Lifecycle.Guard.{
  IsAbsent, IsGuarded, AcceptsFinalizer, Guards, updates-IsAbsent, own,
}

module _ (P : Platform) {W : Type 0} (h : Host P W) (config : Config) (request : String × String)
    (stored : W → Option (Resource P)) (on_host : W → Bool) {name : String}
    (cluster : Cluster P h request name stored on_host) (guards : Guards P stored on_host h)
    (accepts : AcceptsFinalizer P stored on_host h) where
  module _ (vg : Resource P) (named : get_name_on_node P vg ≡ name) where
    may_remove : AllowedPreserve P h (IsAbsent P stored on_host) (MayRemove P vg)
    may_remove (vg_remove n force) may = record {
      keeps = λ w absent. rw may (
          (own P h config request stored on_host cluster guards accepts vg named).removes_absent
            force w absent);
    }
    may_remove (vg_create _) may = absurd may
    may_remove (vg_change _ _) may = absurd may
    may_remove (vg_extend _ _) may = absurd may
    may_remove (vg_reduce _ _ _ _) may = absurd may
    may_remove (vg_rename _ _) may = absurd may
    may_remove (pv_move _ _) may = absurd may

    no_grace :
        (timestamp : ℤ) (w : W)
        → vg.meta.deletion_grace_period_seconds ≡ none
        → remove P h vg timestamp w ≡ (panic "nil pointer dereference", w)
    unfolding remove
    no_grace timestamp w grace = rw grace refl

    -- What `VGRemove` leaves guarded if it failed: it makes no group and takes no finalizer away.
    not_removed-IsGuarded :
        (force : Bool) (v : W)
        → IsGuarded P stored on_host v
        → IsGuarded P stored on_host (run P h (vg_remove (get_name_on_node P vg) force) v).1
    not_removed-IsGuarded force v (inl absent) = inl (
        (own P h config request stored on_host cluster guards accepts vg named).removes_absent force
          v absent)
    not_removed-IsGuarded force v (inr has) =
        inr ((guards.runs_finalizer (vg_remove (get_name_on_node P vg) force)).keeps v has)

    told :
        {w v : W}
        → stored v ≡ stored w
        → on_host v ≡ on_host w
        → IsGuarded P stored on_host w
        → IsGuarded P stored on_host v
    told kept still (inl absent) = inl (still ∙ absent)
    told kept still (inr (vg', here, m)) = inr (vg', kept ∙ here, m)

    module _ (timestamp seconds : ℤ) {w w1 : W} where
      gone-IsGuarded :
          (r : Outcome ⊤) (runs : RunsRemove P h vg timestamp seconds w r w1)
          → IsGone P h vg timestamp r
          → IsGuarded P stored on_host (remove P h vg timestamp w).1
      gone-IsGuarded r runs gone = inl (
          subst (λ out. on_host out.1 ≡ false)
            (sym (remove-drop_finalizer P h vg timestamp r runs gone))
            ((drop_finalizer-Preserves P h (IsAbsent P stored on_host) guards.keeps_absent vg
                may_remove
                (λ vg'.
                  updates-IsAbsent P h config request stored on_host cluster guards accepts
                    _)).keeps
              w1
              ((own P h config request stored on_host cluster guards accepts vg named).removes
                (ltb_ℤ (timestamp +ℤ wrap64 (scale 1000000000 seconds)) runs.now) r runs.read w1
                runs.ran gone)))

      ran-IsGuarded :
          (r : Outcome ⊤)
          → RunsRemove P h vg timestamp seconds w r w1
          → IsGuarded P stored on_host w1
          → IsGuarded P stored on_host (remove P h vg timestamp w).1
      ran-IsGuarded (ok _) runs guarded = gone-IsGuarded (ok tt) runs (inl refl)
      ran-IsGuarded (fail e) runs guarded = elim (Bool-cases (LvmTypes.is_lvm_not_found P.lvm e)) [
        | inl missing ↦ gone-IsGuarded (fail e) runs (inr (e, refl, missing))
        | inr other ↦
            subst (λ out. IsGuarded P stored on_host out.1)
              (sym (remove_keeps_finalizer P h vg timestamp runs other)) guarded
      ]
      ran-IsGuarded (panic p) runs guarded =
          subst (λ out. IsGuarded P stored on_host out.1)
            (sym (remove_panics P h vg timestamp runs)) guarded

    -- A round for a deleted resource leaves the group guarded, whatever `VGRemove` returns.
    pub remove-IsGuarded :
        (timestamp : ℤ) (w : W)
        → IsGuarded P stored on_host w
        → IsGuarded P stored on_host (remove P h vg timestamp w).1
    remove-IsGuarded timestamp w guarded =
        elim (Option-cases vg.meta.deletion_grace_period_seconds) [
          | inl grace ↦
              subst (λ out. IsGuarded P stored on_host out.1) (sym (no_grace timestamp w grace))
                guarded
          | inr (seconds, grace) ↦
              let (now, v, clock, kept, still) = cluster.tells w in
              let force = ltb_ℤ (timestamp +ℤ wrap64 (scale 1000000000 seconds)) now in
              let out = run P h (vg_remove (get_name_on_node P vg) force) v in
              ran-IsGuarded timestamp seconds {w1 = out.1} out.0
                (record { grace = grace; read = v; now = now; clock = clock; ran = refl })
                (not_removed-IsGuarded force v (told kept still guarded))
        ]
