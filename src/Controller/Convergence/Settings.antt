-- ===== src/Controller/Convergence/Settings.antt =====
-- What the functions for single settings make of the volume group.
use topovgm.Prelude.{
  String, ◌≡◌, refl, ap, sym, ◌∙◌, ◌≢◌, Bool, true, false, Option, none, some, Option-cases, [],
  ◌∷◌, ◌++◌, ◌==◌, string_eq, Bool-cases, inl, inr, arith,
}
use topovgm.Prelude.Int.{ℤ, int_eq}
use topovgm.Go.{⊤, Outcome, ◌>>◌, ok, wrapped, >>=-ok, wrapping-ok}
use topovgm.Utils.Snake.{to_snake_case}
use topovgm.Lvm.{
  LvmTypes, LvmVolumeGroup, VgChangeOption, vg_change, maximum_physical_volumes,
  maximum_logical_volumes, allocation_policy, auto_activation,
}
use topovgm.Controller.Platform.{Platform, Resource, Host}
use topovgm.Controller.Convert.{get_name_on_node, convert_to_auto_activation}
use topovgm.Controller.Syncers.{
  run, sync_name, sync_maximum, sync_maximum_volumes, sync_allocation_policy, sync_auto_activation,
}
use topovgm.Controller.Plan.{execute}
use topovgm.Controller.Convergence.{
  Group, change, or_current, policy_or_current, TurnsOff, Documents, limit_plan, max_pv_plan,
  max_lv_plan, policy_plan, activation_plan,
}
use topovgm.Controller.Convergence.Commands.{execute-append, execute-one}
use topovgm.Controller.Convergence.Syncers.{Makes}

module _ (P : Platform) {W : Type 0} (h : Host P W) (view : W → Group) (vg : Resource P)
    (lvm : LvmVolumeGroup P.lvm) where
  -- Where nothing ran.
  abbrev Stays : W → W → Type 0
  Stays w w' = ◌≡◌ {A = Outcome ⊤ × W} (ok tt, w) (ok tt, w')

  Stays-view : {w w' : W} → Stays w w' → view w' ≡ view w
  Stays-view stays = ap (λ (out : Outcome ⊤ × W). view out.1) (sym stays)

  module _ (documents : Documents P h view vg) where
    module _ (named : lvm.name ≡ get_name_on_node P vg) where
      change-Makes :
          (o : VgChangeOption P.lvm) (w : W)
          → Makes P h view vg lvm
              (run P h (vg_change lvm.name o))
              (vg_change (get_name_on_node P vg) o ∷ [])
              (change P.lvm o)
              w
      change-Makes o w w' ran =
          let ran' = execute-one P h (vg_change (get_name_on_node P vg) o) w w' ran in
          (
            ap (λ n. run P h (vg_change n o) w) named ∙ ran',
            documents (vg_change (get_name_on_node P vg) o) w w' refl ran',
          )

      -- One of the two limits, by the function that puts it into the state.
      sync_maximum-Makes :
          (wanted : Option ℤ) (current : ℤ) (option : ℤ → VgChangeOption P.lvm) (what : String)
          (put : ℤ → Group → Group) (w : W)
          → ((n : ℤ) (g : Group) → change P.lvm (option n) g ≡ put n g)
          → put current (view w) ≡ view w
          → Makes P h view vg lvm
              (sync_maximum P h wanted current option lvm.name what)
              (limit_plan P wanted current λ n. vg_change (get_name_on_node P vg) (option n))
              (put (or_current wanted current))
              w
      unfolding sync_maximum execute
      sync_maximum-Makes none current option what put w puts same w' ran =
          (ran, Stays-view ran ∙ sym same)
      sync_maximum-Makes (some n) current option what put w puts same w' ran =
          elim (Bool-cases (current == n)) [
            | inl there ↦
                let stays : Stays w w' = rw there at ran in
                (
                  rw there stays,
                  Stays-view stays ∙ sym same ∙ ap (λ m. put m (view w)) (ground arith),
                )
            | inr differ ↦
                let (ran', shown) = change-Makes (option n) w w' (rw differ at ran) in
                (
                  rw differ
                      (wrapping-ok (wrapped what) (run P h (vg_change lvm.name (option n))) w ran'),
                  shown ∙ puts n (view w),
                )
          ]

      pub sync_maximum_volumes-Makes :
          (w : W)
          → lvm.max_pv ≡ (view w).max_pv
          → lvm.max_lv ≡ (view w).max_lv
          → Makes P h view vg lvm
              (sync_maximum_volumes P h vg lvm)
              (max_pv_plan P vg (view w).max_pv ++ max_lv_plan P vg (view w).max_lv)
              (λ g. record g {
                max_pv = or_current vg.spec.maximum_physical_volumes g.max_pv;
                max_lv = or_current vg.spec.maximum_logical_volumes g.max_lv;
              })
              w
      unfolding sync_maximum_volumes
      sync_maximum_volumes-Makes w p l w' ran =
          let pvs = vg.spec.maximum_physical_volumes in
          let lvs = vg.spec.maximum_logical_volumes in
          let pv_text : String = "could not set maximum physical volumes" in
          let lv_text : String = "could not set maximum logical volumes" in
          let put_pv = λ (n : ℤ) (g : Group). record g { max_pv = n } in
          let put_lv = λ (n : ℤ) (g : Group). record g { max_lv = n } in
          let pv_now = (view w).max_pv in
          let lv_now = (view w).max_lv in
          let (v, first, second) =
            execute-append P h (max_pv_plan P vg pv_now) (max_lv_plan P vg lv_now) w w' ran in
          let (ran1, shown1) =
            sync_maximum-Makes pvs pv_now maximum_physical_volumes pv_text put_pv w (λ n g. refl)
              refl v first in
          let (ran2, shown2) =
            sync_maximum-Makes lvs lv_now maximum_logical_volumes lv_text put_lv v (λ n g. refl)
              (ap (λ (g : Group). put_lv g.max_lv (view v))
                  (sym (ap (λ (g : Group). record (view w) { max_lv = g.max_lv }) shown1))
                ∙ refl)
              w' second in
          (
            ap
                  (λ n.
                    (sync_maximum P h pvs n maximum_physical_volumes lvm.name pv_text
                        >> sync_maximum P h lvs lvm.max_lv maximum_logical_volumes lvm.name lv_text)
                      w)
                  p
                ∙ >>=-ok (sync_maximum P h pvs pv_now maximum_physical_volumes lvm.name pv_text)
                    (λ _. sync_maximum P h lvs lvm.max_lv maximum_logical_volumes lvm.name lv_text)
                    w ran1
                ∙ ap (λ n. sync_maximum P h lvs n maximum_logical_volumes lvm.name lv_text v) l
                ∙ ran2,
            shown2 ∙ ap (put_lv (or_current lvs lv_now)) shown1,
          )

      pub sync_allocation_policy-Makes :
          (w : W)
          → lvm.allocation_policy ≡ (view w).policy
          → Makes P h view vg lvm
              (sync_allocation_policy P h vg lvm)
              (policy_plan P vg.spec.allocation_policy (get_name_on_node P vg) (view w).policy)
              (λ g. record g { policy = policy_or_current vg.spec.allocation_policy g.policy })
              w
      unfolding sync_allocation_policy execute get_name_on_node
      sync_allocation_policy-Makes w e w' ran = elim (Option-cases vg.spec.allocation_policy) [
        | inl out ↦
            let stays : Stays w w' = rw out at ran in
            (rw (out, sync_allocation_policy) stays, Stays-view stays ∙ ap kept (sym out))
        | inr (policy, set) ↦ elim (Bool-cases ((view w).policy == to_snake_case policy)) [
          | inl there ↦
              let stays : Stays w w' = rw (set, there) at ran in
              (
                rw (set, sync_allocation_policy) (rw (e, there) stays),
                Stays-view stays
                    ∙ ap (λ p. record (view w) { policy = p }) (ground arith)
                    ∙ ap kept (sym set),
              )
          | inr differ ↦
              let (ran', shown) =
                change-Makes (allocation_policy (to_snake_case policy)) w w'
                  (rw (set, differ) at ran) in
              (rw (set, sync_allocation_policy) (rw (e, differ) ran'), shown ∙ ap kept (sym set))
        ]
      ]
        where
          kept : Option String → Group
          kept p = record (view w) { policy = policy_or_current p (view w).policy }

      pub sync_auto_activation-Makes :
          (w : W)
          → TurnsOff P
          → vg.spec.auto_activation ≢ some true
          → LvmTypes.is_true P.lvm lvm.auto_activation ≡ (view w).active
          → Makes P h view vg lvm
              (sync_auto_activation P h vg lvm)
              (activation_plan P vg.spec.auto_activation (get_name_on_node P vg) (view w).active)
              (λ g. record g { active = or_current vg.spec.auto_activation g.active })
              w
      unfolding sync_auto_activation convert_to_auto_activation execute get_name_on_node
      sync_auto_activation-Makes w turns n e w' ran = elim (Option-cases vg.spec.auto_activation) [
        | inl out ↦
            let stays : Stays w w' = rw out at ran in
            (rw (out, sync_auto_activation) stays, Stays-view stays ∙ ap kept (sym out))
        | inr (true, set) ↦ absurd (n set)
        | inr (false, set) ↦ elim (Bool-cases (view w).active) [
          | inl on ↦
              let (ran', shown) =
                change-Makes (auto_activation (LvmTypes.set_no_auto_activate P.lvm)) w w'
                  (rw (set, on) at ran) in
              (
                ground (arith, ran', turns.differ, e, on, set),
                shown ∙ ap (λ a. record (view w) { active = a }) turns.off ∙ ap kept (sym set),
              )
          | inr off ↦
              let stays : Stays w w' = rw (set, off) at ran in
              (
                ground (arith, stays, e, off, set),
                Stays-view stays ∙ ap (λ a. record (view w) { active = a }) off ∙ ap kept (sym set),
              )
        ]
      ]
        where
          kept : Option Bool → Group
          kept b = record (view w) { active = or_current b (view w).active }

      pub sync_name-ok : (w : W) → sync_name P h vg lvm w ≡ (ok tt, w)
      unfolding sync_name
      sync_name-ok w = ground arith
