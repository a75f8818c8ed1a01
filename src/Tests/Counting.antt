-- ===== src/Tests/Counting.antt =====
-- The theorems on termination, on a node that counts lost devices.
use topovgm.Prelude.{
  ◌≡◌, refl, ap, String, ℕ, zero, suc, ◌≤◌, ◌<◌, true, false, Option, none, some, Option-cases, inl,
  inr, List, [], ◌∷◌, string_eq, arith,
}
use topovgm.Prelude.Int.{ℤ, pos}
use topovgm.Go.{⊤, Error, message, wrapped, Outcome, ok, fail, M, pure, as_value, ◌>>=◌}
use topovgm.Go.Preserves.{
  Preserves, pure-Preserves, >>-Preserves, >>=-Preserves, as_value-Preserves, wrapping-Preserves,
  if-Preserves, when-Preserves,
}
use topovgm.Api.Spec.{remove_missing}
use topovgm.Utils.Snake.{to_snake_case}
use topovgm.Controller.Convert.{get_name_on_node, convert_to_auto_activation}
use topovgm.Lvm.{
  allocation_policy, auto_activation, LvmVolumeGroup, VgChangeOption, Command, vg_create, vg_remove,
  vg_change, vg_extend, vg_reduce, vg_rename, pv_move,
}
use topovgm.Controller.Platform.{Resource, Host}
use topovgm.Controller.Syncers.{
  run, sync_maximum, sync_maximum_volumes, sync_allocation_policy, sync_auto_activation, sync_name,
}
use topovgm.Controller.Sync.{run_syncers}
use topovgm.Controller.Sync.Loss.{LossDrops}
use topovgm.Controller.Reconcile.{reconcile}
use topovgm.Controller.Safety.{MaySync, IsQuiet, AllowedPreserve}
use topovgm.Controller.Safety.Syncers.{sync_tags-Preserves, sync_pvs-Preserves}
use topovgm.Controller.Safety.Termination.{Ended, NeverRaises, reconcile_terminates}
use topovgm.Tests.Node.{platform, types, volume, group_named, missing_volumes}
use topovgm.Tests.Inputs.{config, request, resource, loop_devices}

-- The state is the number of lost devices. While there are any, every command is refused but their
-- removal.
abbrev refuse : M ℕ ⊤
refuse zero = (ok tt, zero)
refuse (suc n) = (fail missing_volumes, suc n)

abbrev lower : M ℕ ⊤
lower zero = (fail (message "no missing volumes"), zero)
lower (suc n) = (ok tt, n)

abbrev act : Command types → M ℕ ⊤
act (vg_create _) = refuse
act (vg_remove _ _) = refuse
act (vg_change _ _) = refuse
act (vg_extend _ _) = refuse
act (vg_reduce _ _ true _) = lower
act (vg_reduce _ _ false _) = refuse
act (vg_rename _ _) = refuse
act (pv_move _ _) = refuse

abbrev lossy_resource : Resource platform
lossy_resource = resource remove_missing [] none

abbrev counting : Host platform ℕ
counting = record {
  client = record {
    vg = λ name n. ((some (group_named name []), none), n);
    pvs = λ name n. (ok (volume "/dev/loop9" ∷ []), n);
    run = act;
  };
  run_lsblk = λ columns n. (ok loop_devices, n);
  get = λ request n. (ok lossy_resource, n);
  is_not_found = λ e. false;
  update = λ vg n. (ok tt, n);
  update_status = λ vg n. (ok tt, n);
  now = λ n. (pos 9, n);
}

refuse_le : (n m : ℕ) → m ≤ n → (refuse m).1 ≤ n
refuse_le n zero i = i
refuse_le n (suc m) i = i

lower_le : (n m : ℕ) → m ≤ n → (lower m).1 ≤ n
lower_le n zero i = i
lower_le n (suc m) i = omega arith

act_le : (n : ℕ) (c : Command types) (m : ℕ) → m ≤ n → (act c m).1 ≤ n
act_le n (vg_create _) m i = refuse_le n m i
act_le n (vg_remove _ _) m i = refuse_le n m i
act_le n (vg_change _ _) m i = refuse_le n m i
act_le n (vg_extend _ _) m i = refuse_le n m i
act_le n (vg_reduce _ _ true _) m i = lower_le n m i
act_le n (vg_reduce _ _ false _) m i = refuse_le n m i
act_le n (vg_rename _ _) m i = refuse_le n m i
act_le n (pv_move _ _) m i = refuse_le n m i

counting-IsQuiet : (n : ℕ) → IsQuiet platform counting (λ m. m ≤ n)
counting-IsQuiet n = record {
  vg = λ name m i. i;
  pvs = λ name. record { keeps = λ m i. i };
  run_lsblk = λ columns. record { keeps = λ m i. i };
  get = λ request. record { keeps = λ m i. i };
  update_status = λ vg. record { keeps = λ m i. i };
  now = λ m i. i;
}

counting-NeverRaises : (vg : Resource platform) → NeverRaises platform counting (λ n. n) vg
counting-NeverRaises vg = record {
  quiet = counting-IsQuiet;
  allowed = λ n c may. record { keeps = act_le n c };
}

lower_lt : (m n : ℕ) → lower m ≡ (ok tt, n) → n < m
lower_lt zero n e = cc
lower_lt (suc m) n e = ground arith

-- On this node every command keeps a bound, so that the six functions do, for any volume group.
module _ (n : ℕ) where
  abbrev Keeps : {A : Type 0} → M ℕ A → Type 0
  Keeps = Preserves (λ m. m ≤ n)

  runs : (c : Command types) → Keeps (run platform counting c)
  runs c = record { keeps = act_le n c }

  changes :
      (name : String) (o : VgChangeOption types) → Keeps (run platform counting (vg_change name o))
  changes name o = runs (vg_change name o)

  module _ (vg : Resource platform) where
    quietly : AllowedPreserve platform counting (λ m. m ≤ n) (MaySync platform vg)
    quietly c may = runs c

    done : Keeps (pure tt)
    done = pure-Preserves _ tt

    sync_maximum-Keeps :
        (wanted : Option ℤ) (current : ℤ) (option : ℤ → VgChangeOption types) (name what : String)
        → Keeps (sync_maximum platform counting wanted current option name what)
    unfolding sync_maximum
    sync_maximum-Keeps none current option name what = done
    sync_maximum-Keeps (some wanted) current option name what =
        when-Preserves _ _ (wrapping-Preserves _ (wrapped what) (changes name (option wanted)))

    sync_maximum_volumes-Keeps :
        (lvm : LvmVolumeGroup types) → Keeps (sync_maximum_volumes platform counting vg lvm)
    unfolding sync_maximum_volumes
    sync_maximum_volumes-Keeps lvm =
        >>-Preserves _ (sync_maximum-Keeps _ lvm.max_pv _ _ _)
          (sync_maximum-Keeps _ lvm.max_lv _ _ _)

    sync_allocation_policy-Keeps :
        (lvm : LvmVolumeGroup types) → Keeps (sync_allocation_policy platform counting vg lvm)
    unfolding sync_allocation_policy
    sync_allocation_policy-Keeps lvm = elim (Option-cases vg.spec.allocation_policy) [
      | inl e ↦ rw (e, sync_allocation_policy) done
      | inr (policy, e) ↦
          rw (e, sync_allocation_policy)
            (if-Preserves _ _ done (changes lvm.name (allocation_policy (to_snake_case policy))))
    ]

    sync_auto_activation-Keeps :
        (lvm : LvmVolumeGroup types) → Keeps (sync_auto_activation platform counting vg lvm)
    unfolding sync_auto_activation
    sync_auto_activation-Keeps lvm = elim (Option-cases vg.spec.auto_activation) [
      | inl e ↦ rw (e, sync_auto_activation) done
      | inr (b, e) ↦
          rw (e, sync_auto_activation)
            (if-Preserves _ _ done (
              if-Preserves _ _ done (
                changes lvm.name (auto_activation (convert_to_auto_activation platform (some b))))))
    ]

    sync_name-Keeps : (lvm : LvmVolumeGroup types) → Keeps (sync_name platform counting vg lvm)
    unfolding sync_name
    sync_name-Keeps lvm =
        if-Preserves _ _ done (runs (vg_rename lvm.name (get_name_on_node platform vg)))

    each :
        {m : M ℕ ⊤} {errs : M ℕ (List (Option Error))}
        → Keeps m
        → Keeps errs
        → Keeps (as_value m >>= λ err. errs >>= λ errs. pure (err ∷ errs))
    each p q =
        >>=-Preserves _ (as_value-Preserves _ p) λ err. >>=-Preserves _ q λ errs. pure-Preserves _ _

    run_syncers-Keeps : (lvm : LvmVolumeGroup types) → Keeps (run_syncers platform counting vg lvm)
    unfolding run_syncers
    run_syncers-Keeps lvm =
        each (sync_tags-Preserves platform counting _ (counting-IsQuiet n) vg quietly lvm) (
          each (sync_pvs-Preserves platform counting _ (counting-IsQuiet n) vg quietly lvm) (
            each (sync_maximum_volumes-Keeps lvm) (
              each (sync_allocation_policy-Keeps lvm) (
                each (sync_auto_activation-Keeps lvm)
                  (each (sync_name-Keeps lvm) (pure-Preserves _ []))))))

counting-LossDrops : LossDrops platform counting (λ n. n)
counting-LossDrops vg lvm w w' w'' err force (errs, ran, joined, missing) reduced =
    let kept = (run_syncers-Keeps w vg lvm).keeps w (omega arith) in
    let same = ap (λ (o : Outcome (List (Option Error)) × ℕ). o.1) ran in
    let dropped = lower_lt w' w'' reduced in omega arith

reconcile_terminates_example : Ended (reconcile platform counting 4 config request 3)
reconcile_terminates_example =
    reconcile_terminates platform counting (λ n. n) counting-LossDrops config lossy_resource
      (counting-NeverRaises lossy_resource) request 4 3 refl (omega arith)
