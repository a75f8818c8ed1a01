-- ===== src/Controller/Safety/Termination.antt =====
-- A round returns.
use topovgm.Prelude.{
  ℕ, ◌≤◌, ◌<◌, String, ◌≡◌, refl, Option, none, some, arith, ◌==◌, string_eq, either, Bool-cases,
  inl, inr,
}
use topovgm.Prelude.Int.{ℤ}
use topovgm.Go.{⊤, Error, Outcome, ok, fail, panic, as_value}
use topovgm.Go.Preserves.{as_value-Preserves}
use topovgm.Lvm.{LvmTypes, LvmVolumeGroup, LvmClient}
use topovgm.Controller.Platform.{Platform, Resource, Host}
use topovgm.Controller.Convert.{get_name_on_node}
use topovgm.Controller.Sync.{State}
use topovgm.Controller.Sync.Loss.{LossDrops, Returns, sync_terminates}
use topovgm.Controller.Reconcile.{
  Config, Answer, finalizer, keep, ensure, initialize_vg, after_sync, after_discovery, not_found,
  world_of, handle, reconcile,
}
use topovgm.Controller.Safety.{MaySync, IsQuiet, AllowedPreserve}
use topovgm.Controller.Safety.Steps.{initialize_vg-Preserves}

-- The fuel did not run out.
abbrev pub Ended : {A : Type 0} → Option A → Type 0
Ended none = ⊥
Ended (some _) = ⊤

module _ (P : Platform) {W : Type 0} (h : Host P W) (lost : W → ℕ) where
  -- No call but the commands raises the number of lost devices, and no command that the resource
  -- allows does.
  pub record NeverRaises (vg : Resource P) : Type 0 where
    pub quiet : (n : ℕ) → IsQuiet P h (λ w. lost w ≤ n)
    pub allowed : (n : ℕ) → AllowedPreserve P h (λ w. lost w ≤ n) (MaySync P vg)

  module _ (drops : LossDrops P h lost) (config : Config) where
    synced-Ended :
        (lvm : Option (LvmVolumeGroup P.lvm)) (out : Option (Outcome ⊤ × State P W))
        → Returns P h lost drops out
        → Ended (elim out as (λ _. Option (Outcome Answer × State P W)) [
          | none ↦ none
          | some o ↦ some (after_sync P h config lvm o)
        ])
    synced-Ended lvm none (r, s, e) = cc
    synced-Ended lvm (some (ok _, s)) e = tt
    synced-Ended lvm (some (fail _, s)) e = tt
    synced-Ended lvm (some (panic _, s)) e = tt

    keep-Ended :
        (fuel : ℕ) (lvm : Option (LvmVolumeGroup P.lvm)) (s : State P W)
        → lost s.world < fuel
        → Ended (keep P h fuel config lvm s)
    unfolding keep
    keep-Ended fuel lvm s b =
        either Ended (P.add_finalizer s.vg.meta.finalizers finalizer).1 tt
          (synced-Ended lvm _ (sync_terminates P h lost drops fuel lvm _ b))

    after_discovery-Ended :
        (fuel : ℕ) (lvm : Option (LvmVolumeGroup P.lvm)) (out : Outcome (Option Error) × State P W)
        → lost out.1.world < fuel
        → Ended (after_discovery P h fuel config lvm out)
    after_discovery-Ended fuel lvm (ok none, s) b = keep-Ended fuel lvm s b
    after_discovery-Ended fuel lvm (ok (some e), s) b = tt
    after_discovery-Ended fuel lvm (fail e, s) b = tt
    after_discovery-Ended fuel lvm (panic p, s) b = tt

    module _ (vg : Resource P) (raises : NeverRaises vg) where
      ensure-Ended :
          (fuel : ℕ) (w : W)
          → lost w < fuel
          → Ended (ensure P h fuel config (record { vg = vg; world = w }))
      unfolding ensure
      ensure-Ended fuel w b =
          let Inv = λ (v : W). lost v ≤ lost w in
          let quiet = raises.quiet (lost w) in
          let allowed = raises.allowed (lost w) in
          let looked = LvmClient.vg h.client (get_name_on_node P vg) w in
          let discovered : State P W = record { vg = vg; world = looked.1 } in
          let low : lost looked.1 ≤ lost w = quiet.vg (get_name_on_node P vg) w (omega arith) in
          let created =
            (as_value-Preserves _ (initialize_vg-Preserves P h Inv quiet vg allowed)).keeps
              discovered (low, (refl, refl)) in
          elim (Bool-cases (not_found looked.0.1 (LvmTypes.vg_not_found P.lvm))) [
            | inl missing ↦ rw missing (
                after_discovery-Ended fuel looked.0.0 (as_value (initialize_vg P h) discovered)
                  (omega (arith, created.0)))
            | inr there ↦
                rw there
                  (after_discovery-Ended fuel looked.0.0 (ok looked.0.1, discovered) (omega arith))
          ]

      world_of-Ended :
          (out : Option (Outcome Answer × State P W)) → Ended out → Ended (world_of P h out)
      world_of-Ended none e = e
      world_of-Ended (some (r, s)) e = tt

      handle-Ended :
          (fuel : ℕ) (w : W) (deleted : Option ℤ)
          → lost w < fuel
          → Ended (handle P h fuel config vg deleted w)
      handle-Ended fuel w none b = world_of-Ended _ (ensure-Ended fuel w b)
      handle-Ended fuel w (some timestamp) b = tt

      -- A round for a resource returns, whatever the calls answer, if the fuel is greater than the
      -- number of lost devices, each removal of lost devices that succeeds lowers that number, and no
      -- other call raises it.
      pub reconcile_terminates :
          (request : String × String) (fuel : ℕ) (w : W) {w1 : W}
          → h.get request w ≡ (ok vg, w1)
          → lost w1 < fuel
          → Ended (reconcile P h fuel config request w)
      unfolding reconcile
      reconcile_terminates request fuel w {w1} got b = rw got (
          either Ended (config.node_name == vg.spec.node_name)
            (handle-Ended fuel w1 vg.meta.deletion_timestamp b) tt)
