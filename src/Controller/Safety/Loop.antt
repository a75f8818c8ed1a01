-- ===== src/Controller/Safety/Loop.antt =====
-- `sync` runs allowed commands only.
use topovgm.Prelude.{
  ℕ, zero, suc, ◌≡◌, refl, sym, ◌∙◌, ◌≢◌, true, false, Option, none, some, List, [], Bool-cases,
  inl, inr, string_eq,
}
use topovgm.Go.{⊤, Error, Outcome, ok, fail, panic, join}
use topovgm.Api.Spec.{DeviceLossSynchronizationPolicy, fail_sync}
use topovgm.Lvm.{
  LvmTypes, LvmVolumeGroup, Command, vg_create, vg_remove, vg_change, vg_extend, vg_reduce,
  vg_rename, pv_move,
}
use topovgm.Controller.Platform.{Platform, Resource, Host}
use topovgm.Controller.Convert.{get_name_on_node}
use topovgm.Controller.Sync.{
  State, Turn, returns, again, set_default, removes_missing, is_forced, run_syncers, after_reduce,
  conclude, fail_on_loss, settle, after_syncers, after_turn, sync_once, sync,
}
use topovgm.Controller.Safety.{MaySync, IsQuiet, AllowedPreserve}
use topovgm.Controller.Safety.Syncers.{run_syncers-Preserves}

removes_missing-ne :
    (P : Platform) (policy : DeviceLossSynchronizationPolicy)
    → removes_missing P policy ≡ true
    → policy ≢ fail_sync
removes_missing-ne P policy h e = cc (rw e at h)

-- The same resource as `vg`, but for its finalizers and its status.
abbrev pub Same : (P : Platform) → Resource P → Resource P → Type 0
Same P vg vg' = (vg'.spec ≡ vg.spec) × (get_name_on_node P vg' ≡ get_name_on_node P vg)

MaySync-Same :
    (P : Platform) (vg vg' : Resource P) (c : Command P.lvm)
    → Same P vg vg'
    → MaySync P vg' c
    → MaySync P vg c
MaySync-Same P vg vg' (vg_create opts) (spec, name) m = m ∙ name
MaySync-Same P vg vg' (vg_remove _ _) (spec, name) m = m
MaySync-Same P vg vg' (vg_change _ _) (spec, name) m = m ∙ name
MaySync-Same P vg vg' (vg_extend _ _) (spec, name) m = m ∙ name
MaySync-Same P vg vg' (vg_reduce _ _ true _) (spec, name) (n, nil, loss, force) =
    (n ∙ name, nil, rw (← spec) loss, rw (← spec) force)
MaySync-Same P vg vg' (vg_reduce _ _ false _) (spec, name) (n, force) =
    (n ∙ name, rw (← spec) force)
MaySync-Same P vg vg' (vg_rename _ _) (spec, name) m = m
MaySync-Same P vg vg' (pv_move _ _) (spec, name) m = rw (← spec) m

module _ (P : Platform) {W : Type 0} (h : Host P W) (Inv : W → Type 0) (quiet : IsQuiet P h Inv)
    (vg : Resource P) (allowed : AllowedPreserve P h Inv (MaySync P vg)) where
  -- The property of the world, and that the resource in memory is still the same.
  abbrev pub StateInv : State P W → Type 0
  StateInv s = Inv (s.world) × Same P vg (s.vg)

  abbrev TurnInv : Turn (State P W) → Type 0
  TurnInv (returns r s) = StateInv s
  TurnInv (again s) = StateInv s

  after_reduce-Inv :
      (vg' : Resource P) (out : Outcome ⊤ × W)
      → Same P vg vg'
      → Inv out.1
      → TurnInv (after_reduce P h vg' out)
  after_reduce-Inv vg' (ok _, w) s i = (i, s)
  after_reduce-Inv vg' (fail e, w) s i = (i, s)
  after_reduce-Inv vg' (panic p, w) s i = (i, s)

  conclude-Inv :
      (vg' : Resource P) (err : Option Error) (w : W)
      → Same P vg vg'
      → Inv w
      → TurnInv (conclude P h vg' err w) × TurnInv (fail_on_loss P h vg' err w)
  unfolding get_name_on_node
  conclude-Inv vg' none w s i = ((i, s), (i, s))
  conclude-Inv vg' (some e) w s i = ((i, s), (i, s))

  module _ (vg' : Resource P) (same : Same P vg vg') (lvm : LvmVolumeGroup P.lvm)
      (named : lvm.name ≡ get_name_on_node P vg) where
    allowed_same : AllowedPreserve P h Inv (MaySync P vg')
    allowed_same c m = allowed c (MaySync-Same P vg vg' c same m)

    settle-Inv : (err : Option Error) (w : W) → Inv w → TurnInv (settle P h vg' lvm err w)
    unfolding settle
    settle-Inv err w i =
        let policy = vg'.spec.device_loss_synchronization_policy in
        elim (Bool-cases (LvmTypes.is_missing_pvs P.lvm err)) [
          | inr kept ↦ rw kept (conclude-Inv vg' err w same i).0
          | inl missing ↦ elim (Bool-cases (removes_missing P policy)) [
            | inr keep ↦ rw (missing, keep) (conclude-Inv vg' err w same i).1
            | inl removes ↦
                rw (missing, removes)
                  (after_reduce-Inv vg' _ same (
                    (allowed_same (vg_reduce lvm.name [] true (is_forced P policy))
                        (named ∙ sym same.1, refl, removes_missing-ne P policy removes, refl)).keeps
                      w i))
          ]
        ]

    after_syncers-Inv :
        (out : Outcome (List (Option Error)) × W)
        → Inv out.1
        → TurnInv (after_syncers P h vg' lvm out)
    after_syncers-Inv (ok errs, w) i = settle-Inv (join errs) w i
    after_syncers-Inv (fail e, w) i = (i, same)
    after_syncers-Inv (panic p, w) i = (i, same)

    syncers-Inv : (w : W) → Inv w → TurnInv (after_syncers P h vg' lvm (run_syncers P h vg' lvm w))
    syncers-Inv w i =
        after_syncers-Inv (run_syncers P h vg' lvm w) (
          (run_syncers-Preserves P h Inv quiet vg' allowed_same lvm (named ∙ sym same.1)).keeps w i)

  -- The volume group, if there is one, has the name of the resource's.
  abbrev pub IsNamed : Option (LvmVolumeGroup P.lvm) → Type 0
  IsNamed none = ⊤
  IsNamed (some lvm) = lvm.name ≡ get_name_on_node P vg

  sync_once-Inv :
      (lvm : Option (LvmVolumeGroup P.lvm)) (s : State P W)
      → IsNamed lvm
      → StateInv s
      → TurnInv (sync_once P h lvm s)
  unfolding sync_once get_name_on_node
  sync_once-Inv none s named i = i
  sync_once-Inv (some lvm) s named (i, same) =
      syncers-Inv (set_default P s.vg) same lvm named s.world i

  abbrev pub EndInv : {A : Type 0} → Option (Outcome A × State P W) → Type 0
  EndInv none = ⊤
  EndInv (some (r, s)) = StateInv s

  after_turn-Inv :
      (rest : State P W → Option (Outcome ⊤ × State P W)) (t : Turn (State P W))
      → ((s : State P W) → StateInv s → EndInv (rest s))
      → TurnInv t
      → EndInv (after_turn P h rest t)
  after_turn-Inv rest (returns r s) go i = i
  after_turn-Inv rest (again s) go i = go s i

  pub sync-Inv :
      (fuel : ℕ) (lvm : Option (LvmVolumeGroup P.lvm)) (s : State P W)
      → IsNamed lvm
      → StateInv s
      → EndInv (sync P h fuel lvm s)
  unfolding sync
  sync-Inv zero lvm s named i = tt
  sync-Inv (suc fuel) lvm s named i =
      after_turn-Inv (sync P h fuel lvm) (sync_once P h lvm s)
        (λ s' i'. sync-Inv fuel lvm s' named i') (sync_once-Inv lvm s named i)
