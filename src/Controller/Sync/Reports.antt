-- ===== src/Controller/Sync/Reports.antt =====
-- What `sync` leaves in the resource: a condition that tells how it ended, and nothing else.
use mathlib.Core.Path.{subst}
use mathlib.Core.Option.{some-injective}
use topovgm.Prelude.{
  either, ℕ, zero, suc, String, ◌≡◌, refl, ap, ◌∙◌, ◌⊎◌, inl, inr, Option, none, some, List, [],
  ◌∷◌, ◌==◌, string_eq, arith, if◌then◌else◌,
}
use topovgm.Prelude.Int.{ℤ}
use topovgm.Go.{⊤, Error, wrapped, Outcome, ok, fail, panic, M, join}
use topovgm.Api.Status.{Condition, VolumeGroupStatus}
use topovgm.Lvm.{LvmTypes, LvmVolumeGroup}
use topovgm.Controller.Platform.{Platform, Quantity, Resource, Host}
use topovgm.Controller.Conditions.{
  condition_type, pending, failed, synced, set_synced_on_host_default,
  set_synced_on_host_creation_failed, set_synced_on_host_creation_ok,
}
use topovgm.Controller.Sync.{
  State, Turn, returns, again, set_default, removes_missing, syncers, run_all, run_syncers,
  after_reduce, conclude, fail_on_loss, settle, after_syncers, after_turn, sync_once, sync,
}

-- `meta.FindStatusCondition`
abbrev pub find_condition : String → List Condition → Option Condition
find_condition kind [] = none
find_condition kind (c ∷ conditions) =
    let rest = find_condition kind conditions in if kind == c.kind then some c else rest

module _ (P : Platform) where
  -- What `meta.SetStatusCondition` is documented to do with the condition's own type.
  abbrev pub SetsConditions : Type 0
  SetsConditions =
      (conditions : List Condition) (c : Condition)
      → find_condition c.kind (P.set_status_condition conditions c) ≡ some c

  abbrev pub condition_of : Resource P → Option Condition
  condition_of vg = find_condition condition_type vg.status.conditions

  -- How a return of `sync` shows in the resource, by the resource's generation. An error is recorded
  -- as it is returned, unless it is that of the removal of lost devices: that leaves the condition
  -- pending.
  abbrev pub Reports : ℤ → Outcome ⊤ → Resource P → Type 0
  Reports generation (ok _) vg = condition_of vg ≡ some (synced generation)
  Reports generation (fail e) vg =
      (condition_of vg ≡ some (failed generation e))
      ⊎ ((e' : Error) × (e
            ≡ wrapped
                "could not remove missing physical volumes (attempted due to DeviceLossSynchronizationPolicy)"
                e')
          × (condition_of vg ≡ some (pending generation)))
  Reports generation (panic _) vg = ⊤

  -- The resource is as it was, but for its conditions.
  abbrev pub Keeps : Resource P → Resource P → Type 0
  Keeps before after =
      (after.meta ≡ before.meta)
      × (after.spec ≡ before.spec)
      × (record (after.status) { conditions = before.status.conditions } ≡ before.status)

Keeps-trans : (P : Platform) (a b c : Resource P) → Keeps P a b → Keeps P b c → Keeps P a c
Keeps-trans P a b c (m, s, t) (m', s', t') = (
  m' ∙ m,
  s' ∙ s,
  ap (λ (v : VolumeGroupStatus (Quantity P)). record v { conditions = a.status.conditions }) t' ∙ t,
)

-- An outcome that is a value or a panic.
abbrev NeverFails : {A : Type 0} → Outcome A → Type 0
NeverFails (fail _) = ⊥
NeverFails _ = Unit

module _ (P : Platform) {W : Type 0} (h : Host P W) where
  run_all-NeverFails : (syncers : List (M W ⊤)) (w : W) → NeverFails (run_all P h syncers w).0
  unfolding run_all
  run_all-NeverFails [] w = tt
  run_all-NeverFails (m ∷ syncers) w = ground (arith, run_all-NeverFails syncers (m w).1)

  run_syncers-NeverFails :
      (vg : Resource P) (lvm : LvmVolumeGroup P.lvm) (w : W)
      → NeverFails (run_syncers P h vg lvm w).0
  unfolding run_syncers
  run_syncers-NeverFails vg lvm w = run_all-NeverFails (syncers P h vg lvm) w

module _ (P : Platform) (sets : SetsConditions P) {W : Type 0} (h : Host P W) where
  abbrev TurnReports : Resource P → Turn (State P W) → Type 0
  TurnReports vg (returns r s) = Reports P vg.meta.generation r s.vg × Keeps P vg s.vg
  TurnReports vg (again s) = Keeps P vg s.vg

  after_reduce-TurnReports :
      (vg : Resource P) (out : Outcome ⊤ × W)
      → TurnReports vg (after_reduce P h (set_default P vg) out)
  unfolding set_synced_on_host_default
  after_reduce-TurnReports vg (ok _, w) = (refl, refl, refl)
  after_reduce-TurnReports vg (fail e, w) = (inr (e, refl, sets _ _), (refl, refl, refl))
  after_reduce-TurnReports vg (panic p, w) = (tt, (refl, refl, refl))

  conclude-TurnReports :
      (vg : Resource P) (err : Option Error) (w : W)
      → TurnReports vg (conclude P h (set_default P vg) err w)
  unfolding set_synced_on_host_creation_failed set_synced_on_host_creation_ok
  conclude-TurnReports vg none w = (sets _ _, (refl, refl, refl))
  conclude-TurnReports vg (some e) w = (inl (sets _ _), (refl, refl, refl))

  fail_on_loss-TurnReports :
      (vg : Resource P) (err : Option Error) (w : W)
      → TurnReports vg (fail_on_loss P h (set_default P vg) err w)
  unfolding set_synced_on_host_creation_failed
  fail_on_loss-TurnReports vg none w = (tt, (refl, refl, refl))
  fail_on_loss-TurnReports vg (some e) w = (inl (sets _ _), (refl, refl, refl))

  settle-TurnReports :
      (vg : Resource P) (lvm : LvmVolumeGroup P.lvm) (err : Option Error) (w : W)
      → TurnReports vg (settle P h (set_default P vg) lvm err w)
  unfolding settle
  settle-TurnReports vg lvm err w =
      either (TurnReports vg) (LvmTypes.is_missing_pvs P.lvm err)
        (either (TurnReports vg) (removes_missing P vg.spec.device_loss_synchronization_policy)
          (after_reduce-TurnReports vg _) (fail_on_loss-TurnReports vg err w))
        (conclude-TurnReports vg err w)

  after_syncers-TurnReports :
      (vg : Resource P) (lvm : LvmVolumeGroup P.lvm) (out : Outcome (List (Option Error)) × W)
      → NeverFails out.0
      → TurnReports vg (after_syncers P h (set_default P vg) lvm out)
  after_syncers-TurnReports vg lvm (ok errs, w) n = settle-TurnReports vg lvm (join errs) w
  after_syncers-TurnReports vg lvm (fail e, w) n = absurd n
  after_syncers-TurnReports vg lvm (panic p, w) n = (tt, (refl, refl, refl))

  sync_once-TurnReports :
      (lvm : Option (LvmVolumeGroup P.lvm)) (s : State P W) → TurnReports s.vg (sync_once P h lvm s)
  unfolding sync_once set_synced_on_host_default
  sync_once-TurnReports none s = (tt, (refl, refl, refl))
  sync_once-TurnReports (some lvm) s =
      after_syncers-TurnReports s.vg lvm _
        (run_syncers-NeverFails P h (set_default P s.vg) lvm s.world)

  -- What `sync` makes of a turn.
  Turn-Reports :
      (fuel : ℕ) (lvm : Option (LvmVolumeGroup P.lvm)) (vg : Resource P) (t : Turn (State P W))
      {r : Outcome ⊤} {s' : State P W}
      → TurnReports vg t
      → ((s : State P W) (r : Outcome ⊤) (s' : State P W)
          → sync P h fuel lvm s ≡ some (r, s')
          → Reports P s.vg.meta.generation r s'.vg × Keeps P s.vg s'.vg)
      → after_turn P h (sync P h fuel lvm) t ≡ some (r, s')
      → Reports P vg.meta.generation r s'.vg × Keeps P vg s'.vg
  Turn-Reports fuel lvm vg (returns q s) report rest e =
      subst (λ p. Reports P vg.meta.generation p.0 p.1.vg × Keeps P vg p.1.vg)
        (some-injective _ _ e) report
  Turn-Reports fuel lvm vg (again s) {r} {s'} kept rest e =
      let (reports, keeps) = rest s r s' e in
      (
        subst (λ m. Reports P m.generation r s'.vg) kept.0 reports,
        Keeps-trans P vg s.vg s'.vg kept keeps,
      )

  -- Whenever `sync` ends, after any number of its calls of itself, nothing of the resource has
  -- changed but its conditions. Unless it panicked, the condition VolumeGroupSyncedOnNode tells how
  -- it ended: it is true if `sync` returned no error, and false with the error's text if it
  -- returned one, but pending if that was the error of the removal of lost devices. This is for a
  -- `SetStatusCondition` that stores the condition it is given.
  pub sync-Reports :
      (fuel : ℕ) (lvm : Option (LvmVolumeGroup P.lvm)) (s : State P W) {r : Outcome ⊤}
      {s' : State P W}
      → sync P h fuel lvm s ≡ some (r, s')
      → Reports P s.vg.meta.generation r s'.vg × Keeps P s.vg s'.vg
  unfolding sync
  sync-Reports zero lvm s e = cc
  sync-Reports (suc fuel) lvm s e =
      Turn-Reports fuel lvm s.vg (sync_once P h lvm s) (sync_once-TurnReports lvm s)
        (λ s' r t. sync-Reports fuel lvm s' {r = r} {s' = t}) e
