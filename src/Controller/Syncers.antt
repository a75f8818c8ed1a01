-- ===== src/Controller/Syncers.antt =====
-- internal/controller/volumegroup_controller_sync.go: the six functions that compare a part of the
-- resource with the volume group on the host and change the host.
use topovgm.Prelude.{
  String, Bool, true, false, not, ◌&&◌, Option, none, some, List, [], ◌∷◌, map, ◌==◌, string_eq,
  if◌then◌else◌,
}
use topovgm.Prelude.Int.{ℤ, int_eq}
use topovgm.Go.{⊤, wrapped, M, pure, wrapping, when, ◌>>=◌, ◌>>◌}
use topovgm.Utils.{sequential_two_way_sync}
use topovgm.Utils.Snake.{to_snake_case}
use topovgm.Api.Spec.{
  DeviceRemovalVolumePolicy, move_and_reduce, reduce, force_reduce, other_removal_policy,
}
use topovgm.Lvm.{
  LvmTypes, LvmVolumeGroup, LvmPhysicalVolume, Command, VgChangeOption, LvmClient, vg_change,
  vg_extend, vg_reduce, vg_rename, pv_move, tags, del_tags, maximum_physical_volumes,
  maximum_logical_volumes, allocation_policy, auto_activation,
}
use topovgm.Controller.Platform.{Platform, Resource, Host}
use topovgm.Controller.Convert.{
  get_name_on_node, get_physical_volume_names, convert_to_auto_activation,
}

module _ (P : Platform) {W : Type 0} (h : Host P W) where
  abbrev pub run : Command P.lvm → M W ⊤
  run = LvmClient.run h.client

  unfoldable pub sync_tags : Resource P → LvmVolumeGroup P.lvm → M W ⊤
  sync_tags vg lvm =
      let name = get_name_on_node P vg in
      sequential_two_way_sync vg.spec.tags lvm.tags (λ added. run (vg_change name (tags added)))
        (λ removed. run (vg_change name (del_tags removed)))

  -- `for _, pv := range names { ... PVMove ... }`
  unfoldable pub move_all : List String → List String → M W ⊤
  move_all desired [] = pure tt
  move_all desired (pv ∷ names) = do run (pv_move pv desired); move_all desired names

  -- What removes the physical volumes that are no longer desired, by the removal policy.
  unfoldable pub remove_pvs : DeviceRemovalVolumePolicy → String → List String → List String → M W ⊤
  unfolding move_all
  remove_pvs move_and_reduce name desired names = do
    move_all desired names
    run (vg_reduce name names false false)
  remove_pvs force_reduce name desired names = run (vg_reduce name names false true)
  remove_pvs reduce name desired names = run (vg_reduce name names false false)
  remove_pvs (other_removal_policy _) name desired names = run (vg_reduce name names false false)

  unfoldable pub sync_pvs : Resource P → LvmVolumeGroup P.lvm → M W ⊤
  unfolding remove_pvs
  sync_pvs vg lvm = do
    let name = get_name_on_node P vg
    desired ←
        wrapping (wrapped "could not get physical volume names to sync spec")
          (get_physical_volume_names P h vg)
    pvs ←
        wrapping (wrapped "could not get pvs for calculation of state diff")
          (LvmClient.pvs h.client lvm.name)
    sequential_two_way_sync desired (map (λ pv. LvmPhysicalVolume.name pv) pvs)
        (λ names. run (vg_extend name names))
        (remove_pvs vg.spec.device_removal_volume_policy name desired)

  unfoldable pub sync_name : Resource P → LvmVolumeGroup P.lvm → M W ⊤
  sync_name vg lvm =
      let desired = get_name_on_node P vg in
      if lvm.name == desired then pure tt else run (vg_rename lvm.name desired)

  -- One of the two limits: nil in the resource, or its value beside the host's.
  unfoldable pub sync_maximum : Option ℤ → ℤ → (ℤ → VgChangeOption P.lvm) → String → String → M W ⊤
  sync_maximum none current option name what = pure tt
  sync_maximum (some wanted) current option name what =
      when (not (current == wanted))
        (wrapping (wrapped what) (run (vg_change name (option wanted))))

  unfoldable pub sync_maximum_volumes : Resource P → LvmVolumeGroup P.lvm → M W ⊤
  unfolding sync_maximum
  sync_maximum_volumes vg lvm = do
    sync_maximum vg.spec.maximum_physical_volumes lvm.max_pv maximum_physical_volumes lvm.name
        "could not set maximum physical volumes"
    sync_maximum vg.spec.maximum_logical_volumes lvm.max_lv maximum_logical_volumes lvm.name
        "could not set maximum logical volumes"

  unfoldable pub sync_allocation_policy : Resource P → LvmVolumeGroup P.lvm → M W ⊤
  sync_allocation_policy vg lvm = elim vg.spec.allocation_policy [
    | none ↦ pure tt
    | some policy ↦
        let desired = to_snake_case policy in
        if lvm.allocation_policy == desired
        then pure tt
        else run (vg_change lvm.name (allocation_policy desired))
  ]

  -- `desired == lvm2go.SetAutoActivate`
  abbrev is_setting : LvmTypes.AutoActivation P.lvm → LvmTypes.AutoActivation P.lvm → Bool
  is_setting desired setting = ◌==◌ ⦃e = LvmTypes.auto_activation_eq P.lvm⦄ desired setting

  unfoldable pub sync_auto_activation : Resource P → LvmVolumeGroup P.lvm → M W ⊤
  sync_auto_activation vg lvm = elim vg.spec.auto_activation [
    | none ↦ pure tt
    | some b ↦
        let desired = convert_to_auto_activation P (some b) in
        let active = LvmTypes.is_true P.lvm lvm.auto_activation in
        if active && is_setting desired (LvmTypes.set_auto_activate P.lvm)
        then pure tt
        else if not active && is_setting desired (LvmTypes.set_no_auto_activate P.lvm)
        then pure tt
        else run (vg_change lvm.name (auto_activation desired))
  ]
