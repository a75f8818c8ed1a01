-- ===== src/Controller/Sync/Errors.antt =====
-- The errors of the six functions: all of them run, and `sync` succeeds when none of them failed.
use mathlib.Core.Path.{subst}
use topovgm.Prelude.{
  ℕ, suc, ◌≡◌, refl, ap, ◌∙◌, ◌↔◌, false, Option, none, some, List, [], ◌∷◌, arith, inl, inr,
  Option-cases,
}
use topovgm.Go.{⊤, Error, join, ok, fail, Outcome, M, as_value, pure, ◌>>=◌, >>=-eq-ok, >>=-ok}
use topovgm.Lvm.{LvmTypes, LvmVolumeGroup}
use topovgm.Controller.Platform.{Platform, Resource, Host}
use topovgm.Controller.Syncers.{
  sync_tags, sync_pvs, sync_maximum_volumes, sync_allocation_policy, sync_auto_activation,
  sync_name,
}
use topovgm.Controller.Sync.{
  State, after_turn, conclude, set_default, set_failed, set_ok, syncers, run_all, run_syncers, sync,
}

-- Every value of type `error` is nil.
abbrev pub AllNil : List (Option Error) → Type 0
AllNil [] = ⊤
AllNil (none ∷ errs) = AllNil errs
AllNil (some _ ∷ errs) = ⊥

-- `errors.Join` is nil exactly when all that it joins are.
pub join-AllNil : (errs : List (Option Error)) → (join errs ≡ none) ↔ AllNil errs
unfolding join
join-AllNil [] = (λ _. tt, λ _. refl)
join-AllNil (none ∷ errs) = join-AllNil errs
join-AllNil (some e ∷ errs) = (λ h. cc, λ n. absurd n)

module _ (P : Platform) {W : Type 0} (h : Host P W) where
  -- The calls `syncers`, one after another from one world to another, and what each returned.
  abbrev pub Calls : List (M W ⊤) → W → List (Option Error) → W → Type 0
  Calls [] w [] w' = w ≡ w'
  Calls [] w (_ ∷ _) w' = ⊥
  Calls (m ∷ ms) w [] w' = ⊥
  Calls (m ∷ ms) w (err ∷ errs) w' = (v : W) × (as_value m w ≡ (ok err, v)) × Calls ms v errs w'

  run_all-Calls :
      (ms : List (M W ⊤)) (w : W) {errs : List (Option Error)} {w' : W}
      → run_all P h ms w ≡ (ok errs, w')
      → Calls ms w errs w'
  unfolding run_all
  run_all-Calls [] w {errs = []} e = ground arith
  run_all-Calls [] w {errs = _ ∷ _} e = cc
  run_all-Calls (m ∷ ms) w {errs} {w'} e =
      let (err, v, called, rest) =
        >>=-eq-ok (as_value m) (λ err. run_all P h ms >>= λ errs. pure (err ∷ errs)) w e in
      let (others, v', ran, returned) =
        >>=-eq-ok (run_all P h ms) (λ errs. pure (err ∷ errs)) v rest in
      let same : err ∷ others ≡ errs = ground arith in
      let there : v' ≡ w' = ground arith in
      subst (λ l. Calls (m ∷ ms) w l w') same
        (v, called, subst (λ u. Calls ms v others u) there (run_all-Calls ms v ran))

  -- No function is skipped for the error of one before it: if none of the six panics, each is called,
  -- in the order of the source, in the world that the ones before it leave.
  pub run_syncers-Calls :
      (vg : Resource P) (lvm : LvmVolumeGroup P.lvm) (w : W) {errs : List (Option Error)} {w' : W}
      → run_syncers P h vg lvm w ≡ (ok errs, w')
      → Calls (syncers P h vg lvm) w errs w'
  unfolding run_syncers
  run_syncers-Calls vg lvm w e = run_all-Calls (syncers P h vg lvm) w e

  Calls-run_all :
      (ms : List (M W ⊤)) (w : W) {errs : List (Option Error)} {w' : W}
      → Calls ms w errs w'
      → run_all P h ms w ≡ (ok errs, w')
  unfolding run_all
  Calls-run_all [] w {errs = []} same = ap (λ v. (ok [], v)) same
  Calls-run_all [] w {errs = _ ∷ _} called = absurd called
  Calls-run_all (m ∷ ms) w {errs = []} called = absurd called
  Calls-run_all (m ∷ ms) w {errs = err ∷ errs} (v, called, rest) =
      >>=-ok (as_value m) (λ err. run_all P h ms >>= λ errs. pure (err ∷ errs)) w called
      ∙ >>=-ok (run_all P h ms) (λ errs. pure (err ∷ errs)) v (Calls-run_all ms v rest)

  -- The six functions of the source, called in its order, and what each returned.
  abbrev pub SixCalls : Resource P → LvmVolumeGroup P.lvm → W → List (Option Error) → W → Type 0
  SixCalls vg lvm = Calls (
      sync_tags P h vg lvm
      ∷ sync_pvs P h vg lvm
      ∷ sync_maximum_volumes P h vg lvm
      ∷ sync_allocation_policy P h vg lvm
      ∷ sync_auto_activation P h vg lvm
      ∷ sync_name P h vg lvm
      ∷ [])

  pub SixCalls-run_syncers :
      (vg : Resource P) (lvm : LvmVolumeGroup P.lvm) (w : W) {errs : List (Option Error)} {w' : W}
      → SixCalls vg lvm w errs w'
      → run_syncers P h vg lvm w ≡ (ok errs, w')
  unfolding run_syncers
  SixCalls-run_syncers vg lvm w called = Calls-run_all (syncers P h vg lvm) w called

  sync_concludes :
      (fuel : ℕ) (lvm : LvmVolumeGroup P.lvm) (s : State P W) {errs : List (Option Error)} {w : W}
      (err : Option Error)
      → run_syncers P h (set_default P s.vg) lvm s.world ≡ (ok errs, w)
      → join errs ≡ err
      → LvmTypes.is_missing_pvs P.lvm err ≡ false
      → sync P h (suc fuel) (some lvm) s
        ≡ after_turn P h (sync P h fuel (some lvm)) (conclude P h (set_default P s.vg) err w)
  unfolding sync
  sync_concludes fuel lvm s err ran joined kept = rw (ran, joined, kept)

  -- `sync` returns from its first activation, in the world `w`, and without an error exactly when all
  -- of `errs` are nil.
  abbrev pub Concludes : ℕ → LvmVolumeGroup P.lvm → State P W → List (Option Error) → W → Type 0
  Concludes fuel lvm s errs w =
      (r : Outcome ⊤) × (s' : State P W) × (sync P h (suc fuel) (some lvm) s ≡ some (r, s'))
      × (s'.world ≡ w)
      × ((r ≡ ok tt) ↔ AllNil errs)

  -- If the six functions, called in turn, return the errors `errs` and their join is not one of lost
  -- devices, one activation of `sync` is all: it ends in the world that the last function leaves, and
  -- returns no error exactly when each function returned nil.
  pub sync_ok_iff :
      (fuel : ℕ) (lvm : LvmVolumeGroup P.lvm) (s : State P W) (errs : List (Option Error)) {w : W}
      → SixCalls (set_default P s.vg) lvm s.world errs w
      → LvmTypes.is_missing_pvs P.lvm (join errs) ≡ false
      → Concludes fuel lvm s errs w
  sync_ok_iff fuel lvm s errs {w} called kept = elim (Option-cases (join errs)) [
    | inl nil ↦ (
      ok tt,
      record { vg = set_ok P (set_default P s.vg); world = w },
      sync_concludes fuel lvm s none (SixCalls-run_syncers _ lvm s.world called) nil
          (rw nil at kept),
      refl,
      (λ _. (join-AllNil errs).0 nil, λ _. refl),
    )
    | inr (err, e) ↦ (
      fail err,
      record { vg = set_failed P (set_default P s.vg) err; world = w },
      sync_concludes fuel lvm s (some err) (SixCalls-run_syncers _ lvm s.world called) e
          (rw e at kept),
      refl,
      (λ f. cc, λ n. cc ((join-AllNil errs).1 n)),
    )
  ]
