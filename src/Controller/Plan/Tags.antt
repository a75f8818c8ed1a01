-- ===== src/Controller/Plan/Tags.antt =====
-- `syncTags` runs its plan.
use topovgm.Prelude.{◌≡◌, sym, string_eq}
use topovgm.Lvm.{LvmVolumeGroup}
use topovgm.Controller.Platform.{Platform, Resource, Host}
use topovgm.Controller.Convert.{get_name_on_node}
use topovgm.Controller.Syncers.{sync_tags}
use topovgm.Controller.Plan.{add_tags, remove_tags, tag_plan, execute}
use topovgm.Controller.Plan.Execute.{execute_one, sequential_two_way_sync-execute}

module _ (P : Platform) {W : Type 0} (h : Host P W) where
  -- `syncTags` runs at most two commands, in this order, the second only if the first succeeds: it
  -- adds the tags that the host lacks, and deletes those that the resource lacks. An empty difference
  -- runs none, and the error of the first that fails is returned.
  pub sync_tags-execute :
      (vg : Resource P) (lvm : LvmVolumeGroup P.lvm) (w : W)
      → sync_tags P h vg lvm w
        ≡ execute P h (tag_plan P.lvm (get_name_on_node P vg) vg.spec.tags lvm.tags) w
  unfolding sync_tags
  sync_tags-execute vg lvm w =
      let name = get_name_on_node P vg in
      sequential_two_way_sync-execute P h vg.spec.tags lvm.tags _ _ (add_tags P.lvm name)
        (remove_tags P.lvm name) (λ xs w. sym (execute_one P h _ w))
        (λ xs w. sym (execute_one P h _ w)) w
