-- ===== src/Controller/Safety/Syncers.antt =====
-- The six functions run allowed commands only.
use topovgm.Prelude.{
  String, ◌≡◌, refl, true, ◌==◌, string_eq, Option, none, some, List, [], ◌∷◌, inl, inr,
  Option-cases, arith,
}
use topovgm.Prelude.Int.{ℤ}
use topovgm.Go.{⊤, Error, M, pure, as_value, ◌>>=◌}
use topovgm.Go.Preserves.{
  Preserves, pure-Preserves, lift-Preserves, >>=-Preserves, as_value-Preserves, wrapping-Preserves,
  if-Preserves, when-Preserves, >>-Preserves,
}
use topovgm.Utils.{sequential_two_way_sync}
use topovgm.Api.Spec.{
  DeviceRemovalVolumePolicy, move_and_reduce, reduce, force_reduce, other_removal_policy,
}
use topovgm.Api.Selector.{PhysicalVolumeSelector}
use topovgm.Selector.Devices.{devices_matching_selector}
use topovgm.Lvm.{LvmVolumeGroup, VgChangeOption, vg_change, pv_move}
use topovgm.Controller.Platform.{Platform, Resource, Host}
use topovgm.Controller.Convert.{get_name_on_node, get_physical_volume_names}
use topovgm.Controller.Syncers.{
  run, sync_tags, move_all, remove_pvs, sync_pvs, sync_name, sync_maximum, sync_maximum_volumes,
  sync_allocation_policy, sync_auto_activation,
}
use topovgm.Controller.Sync.{run_syncers}
use topovgm.Controller.Safety.{MaySync, IsQuiet, AllowedPreserve}

same_name : {s t : String} → s ≡ t → (s == t) ≡ true
same_name h = ground arith

pub sequential_two_way_sync-Preserves :
    {W : Type 0} (Inv : W → Type 0) (desired current : List String) {new old : List String → M W ⊤}
    → ((xs : List String) → Preserves Inv (new xs))
    → ((xs : List String) → Preserves Inv (old xs))
    → Preserves Inv (sequential_two_way_sync desired current new old)
unfolding sequential_two_way_sync
sequential_two_way_sync-Preserves Inv desired current n o =
    >>-Preserves Inv (when-Preserves Inv _ (n _)) (when-Preserves Inv _ (o _))

module _ (P : Platform) {W : Type 0} (h : Host P W) (Inv : W → Type 0)
    (quiet : IsQuiet P h Inv) where
  devices_matching_selector-Preserves :
      (selector : PhysicalVolumeSelector)
      → Preserves Inv (devices_matching_selector P.quantities h.run_lsblk selector)
  unfolding devices_matching_selector
  devices_matching_selector-Preserves [] = pure-Preserves Inv []
  devices_matching_selector-Preserves (term ∷ selector) =
      >>=-Preserves Inv (wrapping-Preserves Inv _ (quiet.run_lsblk _))
        (λ found. lift-Preserves Inv _)

  pub get_physical_volume_names-Preserves :
      (vg : Resource P) → Preserves Inv (get_physical_volume_names P h vg)
  unfolding get_physical_volume_names
  get_physical_volume_names-Preserves vg =
      wrapping-Preserves Inv _ (devices_matching_selector-Preserves _)

  module _ (vg : Resource P) (allowed : AllowedPreserve P h Inv (MaySync P vg)) where
    pub sync_tags-Preserves : (lvm : LvmVolumeGroup P.lvm) → Preserves Inv (sync_tags P h vg lvm)
    unfolding sync_tags
    sync_tags-Preserves lvm =
        sequential_two_way_sync-Preserves Inv _ _ (λ xs. allowed _ refl) (λ xs. allowed _ refl)

    move_all-Preserves :
        (desired names : List String)
        → vg.spec.device_removal_volume_policy ≡ move_and_reduce
        → Preserves Inv (move_all P h desired names)
    unfolding move_all
    move_all-Preserves desired [] e = pure-Preserves Inv tt
    move_all-Preserves desired (pv ∷ names) e =
        >>-Preserves Inv (allowed (pv_move pv desired) e) (move_all-Preserves desired names e)

    remove_pvs-Preserves :
        (policy : DeviceRemovalVolumePolicy) (desired names : List String)
        → vg.spec.device_removal_volume_policy ≡ policy
        → Preserves Inv (remove_pvs P h policy (get_name_on_node P vg) desired names)
    unfolding remove_pvs
    remove_pvs-Preserves move_and_reduce desired names e =
        >>-Preserves Inv (move_all-Preserves desired names e) (allowed _ (refl, rw e))
    remove_pvs-Preserves force_reduce desired names e = allowed _ (refl, rw e)
    remove_pvs-Preserves reduce desired names e = allowed _ (refl, rw e)
    remove_pvs-Preserves (other_removal_policy _) desired names e = allowed _ (refl, rw e)

    pub sync_pvs-Preserves : (lvm : LvmVolumeGroup P.lvm) → Preserves Inv (sync_pvs P h vg lvm)
    unfolding sync_pvs
    sync_pvs-Preserves lvm =
        >>=-Preserves Inv (wrapping-Preserves Inv _ (get_physical_volume_names-Preserves vg))
          λ desired. >>=-Preserves Inv (wrapping-Preserves Inv _ (quiet.pvs lvm.name)) λ pvs.
            sequential_two_way_sync-Preserves Inv _ _ (λ xs. allowed _ refl)
              (λ xs. remove_pvs-Preserves _ desired xs refl)

    module _ (lvm : LvmVolumeGroup P.lvm) (named : lvm.name ≡ get_name_on_node P vg) where
      sync_maximum-Preserves :
          (wanted : Option ℤ) (current : ℤ) (option : ℤ → VgChangeOption P.lvm) (what : String)
          → Preserves Inv (sync_maximum P h wanted current option lvm.name what)
      unfolding sync_maximum
      sync_maximum-Preserves none current option what = pure-Preserves Inv tt
      sync_maximum-Preserves (some n) current option what =
          when-Preserves Inv _ (wrapping-Preserves Inv _ (allowed _ named))

      sync_maximum_volumes-Preserves : Preserves Inv (sync_maximum_volumes P h vg lvm)
      unfolding sync_maximum_volumes
      sync_maximum_volumes-Preserves =
          >>-Preserves Inv (sync_maximum-Preserves _ lvm.max_pv _ _)
            (sync_maximum-Preserves _ lvm.max_lv _ _)

      change-Preserves : (o : VgChangeOption P.lvm) → Preserves Inv (run P h (vg_change lvm.name o))
      change-Preserves o = allowed (vg_change lvm.name o) named

      sync_allocation_policy-Preserves : Preserves Inv (sync_allocation_policy P h vg lvm)
      unfolding sync_allocation_policy
      sync_allocation_policy-Preserves = elim (Option-cases vg.spec.allocation_policy) [
        | inl e ↦ rw (e, sync_allocation_policy) (pure-Preserves Inv tt)
        | inr (policy, e) ↦
            rw (e, sync_allocation_policy)
              (if-Preserves Inv _ (pure-Preserves Inv tt) (change-Preserves _))
      ]

      sync_auto_activation-Preserves : Preserves Inv (sync_auto_activation P h vg lvm)
      unfolding sync_auto_activation
      sync_auto_activation-Preserves = elim (Option-cases vg.spec.auto_activation) [
        | inl e ↦ rw (e, sync_auto_activation) (pure-Preserves Inv tt)
        | inr (policy, e) ↦
            rw (e, sync_auto_activation)
              (if-Preserves Inv _ (pure-Preserves Inv tt)
                (if-Preserves Inv _ (pure-Preserves Inv tt) (change-Preserves _)))
      ]

      sync_name-Preserves : Preserves Inv (sync_name P h vg lvm)
      unfolding sync_name
      sync_name-Preserves = rw (same_name named) (pure-Preserves Inv tt)

      pub run_syncers-Preserves : Preserves Inv (run_syncers P h vg lvm)
      unfolding run_syncers
      run_syncers-Preserves = each (sync_tags-Preserves lvm) (
          each (sync_pvs-Preserves lvm) (
            each sync_maximum_volumes-Preserves (
              each sync_allocation_policy-Preserves (
                each sync_auto_activation-Preserves
                  (each sync_name-Preserves (pure-Preserves Inv []))))))
        where
          each :
              {m : M W ⊤} {errs : M W (List (Option Error))}
              → Preserves Inv m
              → Preserves Inv errs
              → Preserves Inv (as_value m >>= λ err. errs >>= λ errs. pure (err ∷ errs))
          each p q =
              >>=-Preserves Inv (as_value-Preserves Inv p)
                λ err. >>=-Preserves Inv q λ errs. pure-Preserves Inv _
