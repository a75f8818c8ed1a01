-- ===== src/Controller/Convergence/Syncers.antt =====
-- What each of the six functions makes of the volume group.
use topovgm.Prelude.{String, ◌≡◌, ap, ◌∙◌, List, string_eq}
use topovgm.Prelude.Int.{int_eq}
use topovgm.Go.{⊤, ok, M}
use topovgm.Utils.{in_left_but_not_in_right}
use topovgm.Utils.Diff.{without-in_left_but_not_in_right}
use topovgm.Lvm.{LvmVolumeGroup, Command}
use topovgm.Controller.Platform.{Platform, Resource, Host}
use topovgm.Controller.Convert.{get_name_on_node}
use topovgm.Controller.Syncers.{sync_tags, sync_pvs}
use topovgm.Controller.Plan.{
  unless_empty, add_tags, remove_tags, tag_plan, extend, removal, pv_plan, execute,
}
use topovgm.Controller.Plan.Tags.{sync_tags-execute}
use topovgm.Controller.Plan.Volumes.{sync_pvs-execute}
use topovgm.Controller.Convergence.Plans.{tag_plan-MayChange, pv_plan-MayChange}
use topovgm.Controller.Convergence.{Group, adjusted, Documents, Shows}
use topovgm.Controller.Convergence.Commands.{
  apply_all, apply_all-append, apply_all-add_tags, apply_all-remove_tags, apply_all-extend,
  apply_all-removal, execute-apply_all,
}

module _ (P : Platform) {W : Type 0} (h : Host P W) (view : W → Group) (vg : Resource P)
    (lvm : LvmVolumeGroup P.lvm) where
  -- If the commands `cs` succeed, so does the call, which runs just these, and the volume group is
  -- changed by `f`.
  abbrev pub Makes : M W ⊤ → List (Command P.lvm) → (Group → Group) → W → Type 0
  Makes m cs f w =
      (w' : W) → execute P h cs w ≡ (ok tt, w') → (m w ≡ (ok tt, w')) × (view w' ≡ f (view w))

  module _ (documents : Documents P h view vg) where
    pub sync_tags-Makes :
        (w : W)
        → lvm.tags ≡ (view w).tags
        → Makes
            (sync_tags P h vg lvm)
            (tag_plan P.lvm (get_name_on_node P vg) vg.spec.tags (view w).tags)
            (λ g. record g { tags = adjusted vg.spec.tags g.tags })
            w
    sync_tags-Makes w e w' ran =
        let name = get_name_on_node P vg in
        let added = in_left_but_not_in_right vg.spec.tags (view w).tags in
        let removed = in_left_but_not_in_right (view w).tags vg.spec.tags in
        (
          sync_tags-execute P h vg lvm w
              ∙ ap (λ l. execute P h (tag_plan P.lvm name vg.spec.tags l) w) e
              ∙ ran,
          execute-apply_all P h vg documents (tag_plan P.lvm name vg.spec.tags (view w).tags) w w'
                (tag_plan-MayChange P vg vg.spec.tags (view w).tags) ran
              ∙ apply_all-append P.lvm (unless_empty (add_tags P.lvm name) added) _ (view w)
              ∙ ap (apply_all P.lvm (unless_empty (remove_tags P.lvm name) removed)) (
                  apply_all-add_tags P.lvm name added (view w)
                    (without-in_left_but_not_in_right vg.spec.tags (view w).tags))
              ∙ apply_all-remove_tags P.lvm name removed _,
        )

    pub sync_pvs-Makes :
        {desired : List String} (w : W)
        → Shows P h view vg desired
        → lvm.name ≡ get_name_on_node P vg
        → Makes
            (sync_pvs P h vg lvm)
            (pv_plan P.lvm vg.spec.device_removal_volume_policy
              (get_name_on_node P vg)
              desired
              (view w).volumes)
            (λ g. record g { volumes = adjusted desired g.volumes })
            w
    sync_pvs-Makes {desired} w reads named w' ran =
        let name = get_name_on_node P vg in
        let policy = vg.spec.device_removal_volume_policy in
        let (pvs, listed, shows) = reads.lists w in
        let added = in_left_but_not_in_right desired (view w).volumes in
        let removed = in_left_but_not_in_right (view w).volumes desired in
        (
          sync_pvs-execute P h vg lvm w (reads.selects w) (rw named listed)
              ∙ ap (λ l. execute P h (pv_plan P.lvm policy name desired l) w) shows
              ∙ ran,
          execute-apply_all P h vg documents (pv_plan P.lvm policy name desired (view w).volumes) w
                w' (pv_plan-MayChange P vg desired (view w).volumes) ran
              ∙ apply_all-append P.lvm (unless_empty (extend P.lvm name) added) _ (view w)
              ∙ ap (apply_all P.lvm (unless_empty (removal P.lvm policy name desired) removed))
                  (apply_all-extend P.lvm name added (view w))
              ∙ apply_all-removal P.lvm policy name desired removed _,
        )
