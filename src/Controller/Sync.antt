-- ===== src/Controller/Sync.antt =====
-- internal/controller/volumegroup_controller_sync.go: `sync`, which runs the six functions, joins
-- their errors, reacts to lost devices and records the outcome as a condition.
pub mod Reports
pub mod Loss
pub mod Errors
pub mod Agreement
use topovgm.Prelude.{
  ℕ, zero, suc, String, Bool, true, false, Option, none, some, List, [], ◌∷◌, if◌then◌else◌,
}
use topovgm.Go.{⊤, Error, wrapped, join, Outcome, ok, fail, panic, M, pure, as_value, ◌>>=◌}
use topovgm.Api.Status.{Condition}
use topovgm.Api.Spec.{
  DeviceLossSynchronizationPolicy, fail_sync, remove_missing, force_remove_missing,
  other_loss_policy,
}
use topovgm.Lvm.{LvmTypes, LvmVolumeGroup, vg_reduce}
use topovgm.Controller.Platform.{Platform, Resource, Host}
use topovgm.Controller.Conditions.{
  set_synced_on_host_default, set_synced_on_host_creation_failed, set_synced_on_host_creation_ok,
}
use topovgm.Controller.Syncers.{
  run, sync_tags, sync_pvs, sync_maximum_volumes, sync_allocation_policy, sync_auto_activation,
  sync_name,
}

-- The resource in memory, which `sync` writes to, and the world.
pub record State (P : Platform) (W : Type 0) : Type 0 where
  pub vg : Resource P
  pub world : W

-- How one activation of `sync` ends: it returns, or it calls itself.
pub data Turn (S : Type 0) : Type 0 where
  returns : Outcome ⊤ → S → Turn S
  again : S → Turn S

module _ (P : Platform) where
  -- `vg.Status.Conditions = conditions`
  abbrev pub with_conditions : Resource P → List Condition → Resource P
  with_conditions vg conditions = record vg {
    status = record (vg.status) { conditions = conditions };
  }

  abbrev pub set_default : Resource P → Resource P
  set_default vg =
      with_conditions vg (set_synced_on_host_default P vg.status.conditions vg.meta.generation)

  abbrev pub set_failed : Resource P → Error → Resource P
  set_failed vg err =
      with_conditions vg
        (set_synced_on_host_creation_failed P vg.status.conditions vg.meta.generation err)

  abbrev pub set_ok : Resource P → Resource P
  set_ok vg =
      with_conditions vg (set_synced_on_host_creation_ok P vg.status.conditions vg.meta.generation)

  -- `DeviceLossSynchronizationPolicy != Fail`, and whether the removal is forced.
  abbrev pub removes_missing : DeviceLossSynchronizationPolicy → Bool
  removes_missing fail_sync = false
  removes_missing _ = true

  abbrev pub is_forced : DeviceLossSynchronizationPolicy → Bool
  is_forced force_remove_missing = true
  is_forced _ = false

module _ (P : Platform) {W : Type 0} (h : Host P W) where
  -- `errs`: each function runs, whatever the ones before it returned.
  unfoldable pub run_all : List (M W ⊤) → M W (List (Option Error))
  run_all [] = pure []
  run_all (m ∷ syncers) = do err ← as_value m; errs ← run_all syncers; pure (err ∷ errs)

  abbrev pub syncers : Resource P → LvmVolumeGroup P.lvm → List (M W ⊤)
  syncers vg lvm =
      sync_tags P h vg lvm
      ∷ sync_pvs P h vg lvm
      ∷ sync_maximum_volumes P h vg lvm
      ∷ sync_allocation_policy P h vg lvm
      ∷ sync_auto_activation P h vg lvm
      ∷ sync_name P h vg lvm
      ∷ []

  unfoldable pub run_syncers : Resource P → LvmVolumeGroup P.lvm → M W (List (Option Error))
  unfolding run_all
  run_syncers vg lvm = run_all (syncers vg lvm)

  abbrev not_removed : Error → Error
  not_removed =
      wrapped
        "could not remove missing physical volumes (attempted due to DeviceLossSynchronizationPolicy)"

  -- After `VGReduce`.
  abbrev pub after_reduce : Resource P → Outcome ⊤ × W → Turn (State P W)
  after_reduce vg (ok _, w) = again (record { vg = vg; world = w })
  after_reduce vg (fail e, w) = returns (fail (not_removed e)) (record { vg = vg; world = w })
  after_reduce vg (panic p, w) = returns (panic p) (record { vg = vg; world = w })

  -- Where the joined error is not about lost devices, or the policy is to fail.
  abbrev pub conclude : Resource P → Option Error → W → Turn (State P W)
  conclude vg none w = returns (ok tt) (record { vg = set_ok P vg; world = w })
  conclude vg (some e) w = returns (fail e) (record { vg = set_failed P vg e; world = w })

  -- The policy `Fail` on lost devices: the condition is set from `err.Error()`.
  abbrev pub fail_on_loss : Resource P → Option Error → W → Turn (State P W)
  fail_on_loss vg none w = returns (panic "nil pointer dereference") (record { vg = vg; world = w })
  fail_on_loss vg (some e) w = returns (fail e) (record { vg = set_failed P vg e; world = w })

  -- What follows `err := errors.Join(errs...)`.
  unfoldable pub settle : Resource P → LvmVolumeGroup P.lvm → Option Error → W → Turn (State P W)
  settle vg lvm err w =
      let policy = vg.spec.device_loss_synchronization_policy in
      let reduced = after_reduce vg (run P h (vg_reduce lvm.name [] true (is_forced P policy)) w) in
      if LvmTypes.is_missing_pvs P.lvm err
      then if removes_missing P policy then reduced else fail_on_loss vg err w
      else conclude vg err w

  abbrev pub after_syncers :
      Resource P → LvmVolumeGroup P.lvm → Outcome (List (Option Error)) × W → Turn (State P W)
  after_syncers vg lvm (ok errs, w) = settle vg lvm (join errs) w
  after_syncers vg lvm (fail e, w) = returns (fail e) (record { vg = vg; world = w })
  after_syncers vg lvm (panic p, w) = returns (panic p) (record { vg = vg; world = w })

  -- One activation of `sync`. Without a volume group, the first function, `syncTags`, dereferences
  -- nil before it calls anything.
  unfoldable pub sync_once : Option (LvmVolumeGroup P.lvm) → State P W → Turn (State P W)
  unfolding settle
  sync_once none s =
      returns (panic "nil pointer dereference") (record s { vg = set_default P (s.vg) })
  sync_once (some lvm) s =
      let vg = set_default P (s.vg) in after_syncers vg lvm (run_syncers vg lvm (s.world))

  -- `return r.sync(ctx, vg, lvmvg)`, if a turn ends so.
  abbrev pub after_turn :
      (State P W → Option (Outcome ⊤ × State P W))
      → Turn (State P W)
      → Option (Outcome ⊤ × State P W)
  after_turn rest (returns r s) = some (r, s)
  after_turn rest (again s) = rest s

  -- `sync`, with fuel for its calls of itself; `none` means that the fuel ran out.
  unfoldable pub sync :
      ℕ → Option (LvmVolumeGroup P.lvm) → State P W → Option (Outcome ⊤ × State P W)
  unfolding sync_once run_syncers
  sync zero lvm s = none
  sync (suc fuel) lvm s = after_turn (sync fuel lvm) (sync_once lvm s)
