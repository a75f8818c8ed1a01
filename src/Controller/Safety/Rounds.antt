-- ===== src/Controller/Safety/Rounds.antt =====
-- A round runs allowed commands only.
use mathlib.Core.Path.{subst}
use topovgm.Prelude.{
  either, ℕ, String, ◌≡◌, refl, sym, Option, none, some, Bool-cases, inl, inr, ◌==◌, string_eq,
}
use topovgm.Prelude.Int.{ℤ, pos, ltb_ℤ}
use topovgm.Go.{⊤, Error, Outcome, ok, fail, panic, as_value, reading}
use topovgm.Go.Preserves.{
  Preserves, pure-Preserves, lift-Preserves, >>=-Preserves, as_value-Preserves, if-Preserves,
}
use topovgm.Lvm.{LvmTypes, LvmVolumeGroup, LvmClient, Command, vg_remove}
use topovgm.Controller.Platform.{Platform, Resource, Host}
use topovgm.Controller.Convert.{get_name_on_node}
use topovgm.Controller.Sync.{State}
use topovgm.Controller.Reconcile.{
  Config, Answer, finalizer, requeued, no_result, keep, ensure, remove, drop_finalizer,
  after_remove, initialize_vg, after_sync, give_up, after_discovery, world_of, handle, not_found,
  reconcile,
}
use topovgm.Controller.Safety.{
  MaySync, MayRemove, MayRun, MayRunAt, LooksUpByName, IsQuiet, AllowedPreserve, WritesPreserve,
}
use topovgm.Controller.Safety.Steps.{
  Keeps, on_world-Preserves, write_status-Preserves, initialize_vg-Preserves, finish-Preserves,
}
use topovgm.Controller.Safety.Loop.{IsNamed, EndInv, sync-Inv}

module _ (P : Platform) {W : Type 0} (h : Host P W) (Inv : W → Type 0) (quiet : IsQuiet P h Inv)
    (vg : Resource P) (allowed : AllowedPreserve P h Inv (MaySync P vg)) where
  abbrev Kept : State P W → Type 0
  Kept = Keeps P h Inv quiet vg allowed

  abbrev Ends : {A : Type 0} → Option (Outcome A × State P W) → Type 0
  Ends = EndInv P h Inv quiet vg allowed

  module _ (config : Config) where
    sync_and_finish-Inv :
        (lvm : Option (LvmVolumeGroup P.lvm)) (out : Option (Outcome ⊤ × State P W))
        → Ends out
        → Ends (elim out as (λ _. Option (Outcome Answer × State P W)) [
          | none ↦ none
          | some o ↦ some (after_sync P h config lvm o)
        ])
    sync_and_finish-Inv lvm none i = tt
    sync_and_finish-Inv lvm (some (ok _, s)) i =
        (finish-Preserves P h Inv quiet vg allowed config lvm _).keeps s i
    sync_and_finish-Inv lvm (some (fail e, s)) i =
        (finish-Preserves P h Inv quiet vg allowed config lvm _).keeps s i
    sync_and_finish-Inv lvm (some (panic p, s)) i = i

    keep-Inv :
        (fuel : ℕ) (lvm : Option (LvmVolumeGroup P.lvm)) (s : State P W)
        → WritesPreserve P h Inv none
        → IsNamed P h Inv quiet vg allowed lvm
        → Kept s
        → Ends (keep P h fuel config lvm s)
    unfolding keep get_name_on_node
    keep-Inv fuel lvm s writes named (i, same) =
        elim (Bool-cases (P.add_finalizer s.vg.meta.finalizers finalizer).1) [
          | inl updated ↦ rw updated (
              (>>=-Preserves Kept
                  (as_value-Preserves Kept
                    (on_world-Preserves P h Inv quiet vg allowed (writes s.vg)))
                  (λ err. pure-Preserves Kept (requeued, err))).keeps
                _ (i, same))
          | inr not ↦ rw not (
              sync_and_finish-Inv lvm _
                (sync-Inv P h Inv quiet vg allowed fuel lvm _ named (i, same)))
        ]

    give_up-Preserves : (e : Error) → Preserves Kept (give_up P h e)
    give_up-Preserves e =
        >>=-Preserves Kept (write_status-Preserves P h Inv quiet vg allowed)
          λ write_err. pure-Preserves Kept _

    after_discovery-Inv :
        (fuel : ℕ) (lvm : Option (LvmVolumeGroup P.lvm)) (out : Outcome (Option Error) × State P W)
        → WritesPreserve P h Inv none
        → IsNamed P h Inv quiet vg allowed lvm
        → Kept out.1
        → Ends (after_discovery P h fuel config lvm out)
    after_discovery-Inv fuel lvm (ok none, s) writes named i = keep-Inv fuel lvm s writes named i
    after_discovery-Inv fuel lvm (ok (some e), s) writes named i = (give_up-Preserves e).keeps s i
    after_discovery-Inv fuel lvm (fail e, s) writes named i = i
    after_discovery-Inv fuel lvm (panic p, s) writes named i = i

    module _ (by_name : LooksUpByName P h) where
      found-IsNamed :
          (w : W) (lvm : Option (LvmVolumeGroup P.lvm))
          → (LvmClient.vg h.client (get_name_on_node P vg) w).0.0 ≡ lvm
          → IsNamed P h Inv quiet vg allowed lvm
      found-IsNamed w none e = tt
      found-IsNamed w (some lvm) e = by_name (get_name_on_node P vg) w lvm e

      pub ensure-Inv :
          (fuel : ℕ) (w : W)
          → WritesPreserve P h Inv none
          → Inv w
          → Ends (ensure P h fuel config (record { vg = vg; world = w }))
      unfolding ensure
      ensure-Inv fuel w writes i =
          let name = get_name_on_node P vg in
          let looked = LvmClient.vg h.client name w in
          let lvm = looked.0.0 in
          let discovered : State P W = record { vg = vg; world = looked.1 } in
          let kept : Kept discovered = (quiet.vg name w i, (refl, refl)) in
          let named = found-IsNamed w lvm refl in
          elim (Bool-cases (not_found looked.0.1 (LvmTypes.vg_not_found P.lvm))) [
            | inl missing ↦ rw missing (
                after_discovery-Inv fuel lvm (as_value (initialize_vg P h) discovered) writes named
                  ((as_value-Preserves Kept
                      (initialize_vg-Preserves P h Inv quiet vg allowed)).keeps
                    discovered kept))
            | inr there ↦
                rw there
                  (after_discovery-Inv fuel lvm (ok looked.0.1, discovered) writes named kept)
          ]

-- A resource that is being deleted.
module _ (P : Platform) {W : Type 0} (h : Host P W) (Inv : W → Type 0) (quiet : IsQuiet P h Inv)
    (vg : Resource P) (allowed : AllowedPreserve P h Inv (MayRemove P vg))
    (writes : WritesPreserve P h Inv (some (pos 0))) where
  pub drop_finalizer-Preserves : Preserves Inv (drop_finalizer P h vg)
  unfolding drop_finalizer
  drop_finalizer-Preserves =
      if-Preserves Inv _
        (>>=-Preserves Inv (as_value-Preserves Inv (writes vg))
          (λ err. pure-Preserves Inv (no_result, err)))
        (pure-Preserves Inv _)

  after_remove-Preserves : (err : Option Error) → Preserves Inv (after_remove P h vg err)
  after_remove-Preserves none = drop_finalizer-Preserves
  after_remove-Preserves (some e) =
      if-Preserves Inv _ drop_finalizer-Preserves (pure-Preserves Inv _)

  pub remove-Preserves : (timestamp : ℤ) → Preserves Inv (remove P h vg timestamp)
  unfolding remove
  remove-Preserves timestamp = >>=-Preserves Inv (lift-Preserves Inv _) λ at.
      >>=-Preserves Inv {m = reading h.now} (record { keeps = λ w i. quiet.now w i })
        λ now.
          >>=-Preserves Inv (as_value-Preserves Inv (allowed (vg_remove _ (ltb_ℤ at now)) refl))
            λ err. after_remove-Preserves err

module _ (P : Platform) {W : Type 0} (h : Host P W) (Inv : W → Type 0) where
  -- A round that returns leaves a world with the property.
  abbrev pub WorldInv : Option (Outcome Answer × W) → Type 0
  WorldInv none = ⊤
  WorldInv (some (r, w)) = Inv w

  world_of-Inv :
      (quiet : IsQuiet P h Inv) (vg : Resource P) (allowed : AllowedPreserve P h Inv (MaySync P vg))
      (out : Option (Outcome Answer × State P W))
      → EndInv P h Inv quiet vg allowed out
      → WorldInv (world_of P h out)
  world_of-Inv quiet vg allowed none i = tt
  world_of-Inv quiet vg allowed (some (r, s)) i = i.0

  handle-Inv :
      (config : Config) (fuel : ℕ) (vg : Resource P) (w : W) (deleted : Option ℤ)
      → IsQuiet P h Inv
      → LooksUpByName P h
      → vg.meta.deletion_timestamp ≡ deleted
      → AllowedPreserve P h Inv (MayRun P vg)
      → WritesPreserve P h Inv deleted
      → Inv w
      → WorldInv (handle P h fuel config vg deleted w)
  handle-Inv config fuel vg w none quiet by_name e allowed writes i =
      let may = λ (c : Command P.lvm) (m : MaySync P vg c).
        allowed c (subst (λ d. MayRunAt P d vg c) (sym e) m) in
      world_of-Inv quiet vg may _ (ensure-Inv P h Inv quiet vg may config by_name fuel w writes i)
  handle-Inv config fuel vg w (some timestamp) quiet by_name e allowed writes i =
      let may = λ (c : Command P.lvm) (m : MayRemove P vg c).
        allowed c (subst (λ d. MayRunAt P d vg c) (sym e) m) in
      (remove-Preserves P h Inv quiet vg may writes timestamp).keeps w i

  -- A round for a resource runs only the commands that it may run, and writes the resource only with
  -- the controller's finalizer added, or removed if it is being deleted: whatever property of the
  -- world those commands, those writes, the queries and the writes of the status keep, a round that
  -- returns keeps too, if lvm2 returns the volume group that it is asked for. A resource that is being deleted
  -- may run the removal of its own volume group only. Any other may not remove or rename a volume
  -- group; each of its commands that names a volume group names its own; lost devices are removed
  -- only if the policy is not Fail, a removal of devices is forced only if its policy asks for
  -- that, and extents are moved only with MoveAndReduce.
  pub reconcile_runs_allowed :
      (config : Config) (request : String × String) (fuel : ℕ) (w : W) {vg : Resource P} {w1 : W}
      → IsQuiet P h Inv
      → LooksUpByName P h
      → h.get request w ≡ (ok vg, w1)
      → AllowedPreserve P h Inv (MayRun P vg)
      → WritesPreserve P h Inv vg.meta.deletion_timestamp
      → Inv w1
      → WorldInv (reconcile P h fuel config request w)
  unfolding reconcile
  reconcile_runs_allowed config request fuel w {vg} {w1} quiet by_name got allowed writes i =
      rw got (
        either WorldInv (config.node_name == vg.spec.node_name)
          (handle-Inv config fuel vg w1 _ quiet by_name refl allowed writes i) i)
