-- ===== src/Controller/Plan/Volumes.antt =====
-- `syncPVs` runs its plan.
use mathlib.Core.Path.{fun_ext}
use topovgm.Prelude.{String, ◌≡◌, refl, ◌∙◌, sym, ap, List, [], ◌∷◌, map, false, string_eq}
use topovgm.Go.{ok, wrapped, wrapping, ◌>>=◌, >>=-ok, wrapping-ok}
use topovgm.Utils.{sequential_two_way_sync}
use topovgm.Api.Spec.{
  DeviceRemovalVolumePolicy, move_and_reduce, reduce, force_reduce, other_removal_policy,
}
use topovgm.Lvm.{LvmVolumeGroup, LvmPhysicalVolume, LvmClient, vg_extend, vg_reduce, pv_move}
use topovgm.Controller.Platform.{Platform, Resource, Host}
use topovgm.Controller.Convert.{get_name_on_node, get_physical_volume_names}
use topovgm.Controller.Syncers.{run, move_all, remove_pvs, sync_pvs}
use topovgm.Controller.Plan.{extend, moves, removal, pv_plan, execute}
use topovgm.Controller.Plan.Execute.{
  resume, execute_one, execute-append, sequential_two_way_sync-execute,
}

module _ (P : Platform) {W : Type 0} (h : Host P W) where
  move_all-execute :
      (desired names : List String) (w : W)
      → move_all P h desired names w ≡ execute P h (moves P.lvm desired names) w
  unfolding move_all execute
  move_all-execute desired [] w = refl
  move_all-execute desired (pv ∷ names) w =
      ap (λ k. resume (λ _. k) (run P h (pv_move pv desired) w))
        (fun_ext (move_all-execute desired names))

  remove_pvs-execute :
      (policy : DeviceRemovalVolumePolicy) (name : String) (desired names : List String) (w : W)
      → remove_pvs P h policy name desired names w
        ≡ execute P h (removal P.lvm policy name desired names) w
  unfolding remove_pvs
  remove_pvs-execute move_and_reduce name desired names w =
      ap (resume (λ _. run P h (vg_reduce name names false false)))
        (move_all-execute desired names w)
      ∙ ap (λ k. resume (λ _. k) (execute P h (moves P.lvm desired names) w))
          (fun_ext (λ v. sym (execute_one P h (vg_reduce name names false false) v)))
      ∙ sym (execute-append P h (moves P.lvm desired names) _ w)
  remove_pvs-execute force_reduce name desired names w = sym (execute_one P h _ w)
  remove_pvs-execute reduce name desired names w = sym (execute_one P h _ w)
  remove_pvs-execute (other_removal_policy _) name desired names w = sym (execute_one P h _ w)

  -- If the selector and the host's physical volumes can be read, `syncPVs` runs its plan: it extends
  -- the volume group by the selected devices that it lacks, and then removes those that are not
  -- selected; the policy MoveAndReduce moves each one's extents to the selected devices before that,
  -- and ForceReduce, no other, forces the removal. Empty differences run nothing, and the first error
  -- ends it.
  pub sync_pvs-execute :
      (vg : Resource P) (lvm : LvmVolumeGroup P.lvm) (w : W) {desired : List String}
      {pvs : List (LvmPhysicalVolume P.lvm)} {w1 w2 : W}
      → get_physical_volume_names P h vg w ≡ (ok desired, w1)
      → LvmClient.pvs h.client lvm.name w1 ≡ (ok pvs, w2)
      → sync_pvs P h vg lvm w
        ≡ execute P h
            (pv_plan P.lvm vg.spec.device_removal_volume_policy
              (get_name_on_node P vg)
              desired
              (map (λ pv. LvmPhysicalVolume.name pv) pvs))
            w2
  unfolding sync_pvs
  sync_pvs-execute vg lvm w {desired} {pvs} {w1} {w2} selected listed =
      let name = get_name_on_node P vg in
      let policy = vg.spec.device_removal_volume_policy in
      let sync = λ (desired current : List String).
        sequential_two_way_sync desired current (λ names. run P h (vg_extend name names))
          (remove_pvs P h policy name desired) in
      let list =
        wrapping (wrapped "could not get pvs for calculation of state diff")
          (LvmClient.pvs h.client lvm.name) in
      let with_names =
        λ (pvs : List (LvmPhysicalVolume P.lvm)). map (λ pv. LvmPhysicalVolume.name pv) pvs in
      let select =
        wrapping (wrapped "could not get physical volume names to sync spec")
          (get_physical_volume_names P h vg) in
      >>=-ok select (λ desired. list >>= λ pvs. sync desired (with_names pvs)) w
        (wrapping-ok _ (get_physical_volume_names P h vg) w selected)
      ∙ >>=-ok list (λ pvs. sync desired (with_names pvs)) w1
          (wrapping-ok _ (LvmClient.pvs h.client lvm.name) w1 listed)
      ∙ sequential_two_way_sync-execute P h desired (with_names pvs) _ _ (extend P.lvm name)
          (removal P.lvm policy name desired) (λ xs w. sym (execute_one P h _ w))
          (remove_pvs-execute policy name desired) w2
