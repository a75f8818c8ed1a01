-- ===== src/Controller/Sync/Loss.antt =====
-- Lost devices: what `sync` does about them by policy, and that its calls of itself end.
use topovgm.Prelude.{
  ℕ, zero, suc, ◌<◌, ◌≡◌, ◌≢◌, ◌↔◌, refl, sym, ap, ◌∙◌, Bool, true, false, Option, none, some, List,
  [], arith, inl, inr, Bool-cases,
}
use topovgm.Go.{⊤, Error, join, ok, fail, panic, wrapped, Outcome}
use topovgm.Api.Spec.{
  DeviceLossSynchronizationPolicy, fail_sync, remove_missing, force_remove_missing,
  other_loss_policy,
}
use topovgm.Lvm.{LvmTypes, LvmVolumeGroup, vg_reduce}
use topovgm.Controller.Platform.{Platform, Resource, Host}
use topovgm.Controller.Syncers.{run}
use topovgm.Controller.Sync.{
  State, Turn, returns, again, set_default, set_failed, removes_missing, is_forced, run_syncers,
  settle, after_reduce, conclude, fail_on_loss, after_syncers, after_turn, sync_once, sync,
}

removes_missing_ne :
    (P : Platform) (policy : DeviceLossSynchronizationPolicy)
    → policy ≢ fail_sync
    → removes_missing P policy ≡ true
removes_missing_ne P fail_sync n = absurd (n refl)
removes_missing_ne P remove_missing n = refl
removes_missing_ne P _ n = refl

is_forced_iff :
    (P : Platform) (policy : DeviceLossSynchronizationPolicy) (force : Bool)
    → (force ≡ true) ↔ (policy ≡ force_remove_missing)
    → force ≡ is_forced P policy
is_forced_iff P force_remove_missing force iff = iff.1 refl
is_forced_iff P fail_sync true iff = cc (iff.0 refl)
is_forced_iff P remove_missing true iff = cc (iff.0 refl)
is_forced_iff P (other_loss_policy _) true iff = cc (iff.0 refl)
is_forced_iff P fail_sync false iff = refl
is_forced_iff P remove_missing false iff = refl
is_forced_iff P (other_loss_policy _) false iff = refl

module _ (P : Platform) {W : Type 0} (h : Host P W) where
  -- The six functions return, in the world `w'`, and the joined error is one of lost devices.
  abbrev pub ReportsLoss : Resource P → LvmVolumeGroup P.lvm → W → Option Error → W → Type 0
  ReportsLoss vg lvm w err w' =
      (errs : List (Option Error)) × (run_syncers P h vg lvm w ≡ (ok errs, w'))
      × (join errs ≡ err)
      × (LvmTypes.is_missing_pvs P.lvm err ≡ true)

  -- With the policy Fail, if the six functions return and the joined error is one of lost devices,
  -- `sync` ends at once: it returns the error and records it, and nothing is removed from the host.
  pub sync_fails_on_loss :
      (fuel : ℕ) (lvm : LvmVolumeGroup P.lvm) (s : State P W) {err : Error} {w : W}
      → s.vg.spec.device_loss_synchronization_policy ≡ fail_sync
      → ReportsLoss (set_default P s.vg) lvm s.world (some err) w
      → sync P h (suc fuel) (some lvm) s
        ≡ some (fail err, record { vg = set_failed P (set_default P s.vg) err; world = w })
  unfolding sync
  sync_fails_on_loss fuel lvm s policy (errs, ran, joined, missing) =
      rw (ran, joined, missing, policy) refl

  abbrev resumed :
      ℕ → LvmVolumeGroup P.lvm → State P W → Outcome ⊤ × W → Option (Outcome ⊤ × State P W)
  resumed fuel lvm s out =
      after_turn P h (sync P h fuel (some lvm)) (after_reduce P h (set_default P s.vg) out)

  sync-reduces :
      (fuel : ℕ) (lvm : LvmVolumeGroup P.lvm) (s : State P W) {err : Option Error} {w : W}
      (force : Bool)
      → s.vg.spec.device_loss_synchronization_policy ≢ fail_sync
      → (force ≡ true) ↔ (s.vg.spec.device_loss_synchronization_policy ≡ force_remove_missing)
      → ReportsLoss (set_default P s.vg) lvm s.world err w
      → sync P h (suc fuel) (some lvm) s
        ≡ resumed fuel lvm s (run P h (vg_reduce lvm.name [] true force) w)
  unfolding sync
  sync-reduces fuel lvm s {w = w} force policy forces (errs, ran, joined, missing) =
      rw (ran, joined, missing, removes_missing_ne P _ policy)
        (ap (λ f. resumed fuel lvm s (run P h (vg_reduce lvm.name [] true f) w))
          (sym (is_forced_iff P s.vg.spec.device_loss_synchronization_policy force forces)))

  -- If the six functions return and the joined error is one of lost devices, then with another policy
  -- than Fail `sync` has lvm2 remove them from the volume group, with `force` set for ForceRemove and
  -- for no other policy, and goes by what that returns: on success it starts again, from the world
  -- that the removal left and with the condition pending; on an error it returns that error, wrapped,
  -- and the condition stays pending; and a panic passes through.
  pub sync_removes_lost :
      (fuel : ℕ) (lvm : LvmVolumeGroup P.lvm) (s : State P W) {err : Option Error} {w w' : W}
      (force : Bool) (r : Outcome ⊤)
      → s.vg.spec.device_loss_synchronization_policy ≢ fail_sync
      → (force ≡ true) ↔ (s.vg.spec.device_loss_synchronization_policy ≡ force_remove_missing)
      → ReportsLoss (set_default P s.vg) lvm s.world err w
      → run P h (vg_reduce lvm.name [] true force) w ≡ (r, w')
      → sync P h (suc fuel) (some lvm) s ≡ (elim r [
        | ok _ ↦ sync P h fuel (some lvm) (record { vg = set_default P s.vg; world = w' })
        | fail e ↦ some (
          fail (
              wrapped
                "could not remove missing physical volumes (attempted due to DeviceLossSynchronizationPolicy)"
                e),
          record { vg = set_default P s.vg; world = w' },
        )
        | panic p ↦ some (panic p, record { vg = set_default P s.vg; world = w' })
      ])
  sync_removes_lost fuel lvm s force (ok _) policy forces lost reduced =
      sync-reduces fuel lvm s force policy forces lost ∙ ap (resumed fuel lvm s) reduced
  sync_removes_lost fuel lvm s force (fail e) policy forces lost reduced =
      sync-reduces fuel lvm s force policy forces lost ∙ ap (resumed fuel lvm s) reduced
  sync_removes_lost fuel lvm s force (panic p) policy forces lost reduced =
      sync-reduces fuel lvm s force policy forces lost ∙ ap (resumed fuel lvm s) reduced

  -- A number that a successful removal of lost devices lowers, such as that of the devices that are
  -- lost but still listed.
  abbrev pub LossDrops : (W → ℕ) → Type 0
  LossDrops lost =
      (vg : Resource P) (lvm : LvmVolumeGroup P.lvm) (w w' w'' : W) (err : Option Error)
      (force : Bool)
      → ReportsLoss vg lvm w err w'
      → run P h (vg_reduce lvm.name [] true force) w' ≡ (ok tt, w'')
      → lost w'' < lost w

  module _ (lost : W → ℕ) (drops : LossDrops lost) where
    abbrev TurnDrops : ℕ → Turn (State P W) → Type 0
    TurnDrops bound (returns r s) = Unit
    TurnDrops bound (again s) = lost (s.world) < bound

    after_reduce-TurnDrops :
        (vg : Resource P) (bound : ℕ) (out : Outcome ⊤ × W)
        → ((w : W) → out ≡ (ok tt, w) → lost w < bound)
        → TurnDrops bound (after_reduce P h vg out)
    after_reduce-TurnDrops vg bound (ok _, w) d = d w refl
    after_reduce-TurnDrops vg bound (fail e, w) d = tt
    after_reduce-TurnDrops vg bound (panic p, w) d = tt

    conclude-TurnDrops :
        (vg : Resource P) (bound : ℕ) (err : Option Error) (w : W)
        → TurnDrops bound (conclude P h vg err w) × TurnDrops bound (fail_on_loss P h vg err w)
    conclude-TurnDrops vg bound none w = (tt, tt)
    conclude-TurnDrops vg bound (some e) w = (tt, tt)

    settle-TurnDrops :
        (vg : Resource P) (lvm : LvmVolumeGroup P.lvm) (w w' : W) (errs : List (Option Error))
        → run_syncers P h vg lvm w ≡ (ok errs, w')
        → TurnDrops (lost w) (settle P h vg lvm (join errs) w')
    unfolding settle
    settle-TurnDrops vg lvm w w' errs ran =
        let policy = vg.spec.device_loss_synchronization_policy in
        elim (Bool-cases (LvmTypes.is_missing_pvs P.lvm (join errs))) [
          | inr kept ↦ rw kept (conclude-TurnDrops vg (lost w) (join errs) w').0
          | inl missing ↦ elim (Bool-cases (removes_missing P policy)) [
            | inr keep ↦ rw (missing, keep) (conclude-TurnDrops vg (lost w) (join errs) w').1
            | inl remove ↦
                rw (missing, remove)
                  (after_reduce-TurnDrops vg (lost w) _ (λ w'' reduced.
                    drops vg lvm w w' w'' (join errs) (is_forced P policy)
                      (errs, ran, refl, missing) reduced))
          ]
        ]

    after_syncers-TurnDrops :
        (vg : Resource P) (lvm : LvmVolumeGroup P.lvm) (w : W)
        (out : Outcome (List (Option Error)) × W)
        → run_syncers P h vg lvm w ≡ out
        → TurnDrops (lost w) (after_syncers P h vg lvm out)
    after_syncers-TurnDrops vg lvm w (ok errs, w') ran = settle-TurnDrops vg lvm w w' errs ran
    after_syncers-TurnDrops vg lvm w (fail e, w') ran = tt
    after_syncers-TurnDrops vg lvm w (panic p, w') ran = tt

    sync_once-TurnDrops :
        (lvm : Option (LvmVolumeGroup P.lvm)) (s : State P W)
        → TurnDrops (lost s.world) (sync_once P h lvm s)
    unfolding sync_once
    sync_once-TurnDrops none s = tt
    sync_once-TurnDrops (some lvm) s =
        after_syncers-TurnDrops (set_default P s.vg) lvm s.world _ refl

    abbrev pub Returns : Option (Outcome ⊤ × State P W) → Type 0
    Returns o = (r : Outcome ⊤) × (s : State P W) × (o ≡ some (r, s))

    after_turn-Returns :
        (bound : ℕ) (rest : State P W → Option (Outcome ⊤ × State P W)) (t : Turn (State P W))
        → TurnDrops bound t
        → ((s : State P W) → lost s.world < bound → Returns (rest s))
        → Returns (after_turn P h rest t)
    after_turn-Returns bound rest (returns r s) d go = (r, s, refl)
    after_turn-Returns bound rest (again s) d go = go s d

    -- `sync` ends, whatever the functions and the commands do, if the fuel is greater than a number
    -- that each successful removal of lost devices lowers, such as that of the lost devices: it
    -- calls itself at most so often.
    pub sync_terminates :
        (fuel : ℕ) (lvm : Option (LvmVolumeGroup P.lvm)) (s : State P W)
        → lost s.world < fuel
        → Returns (sync P h fuel lvm s)
    unfolding sync
    sync_terminates zero lvm s b = absurd (omega arith)
    sync_terminates (suc fuel) lvm s b =
        after_turn-Returns (lost s.world) (sync P h fuel lvm) (sync_once P h lvm s)
          (sync_once-TurnDrops lvm s) (λ s' d. sync_terminates fuel lvm s' (omega arith))
