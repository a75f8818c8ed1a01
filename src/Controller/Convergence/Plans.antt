-- ===== src/Controller/Convergence/Plans.antt =====
-- The plans of `syncTags` and `syncPVs` hold commands that the resource allows.
use topovgm.Prelude.{String, ◌≡◌, refl, List, [], ◌∷◌, string_eq}
use topovgm.Utils.{in_left_but_not_in_right}
use topovgm.Api.Spec.{DeviceRemovalVolumePolicy, move_and_reduce, reduce}
use topovgm.Controller.Platform.{Platform, Resource}
use topovgm.Controller.Convert.{get_name_on_node}
use topovgm.Controller.Plan.{
  unless_empty, add_tags, remove_tags, tag_plan, extend, moves, moves_first, removal, pv_plan,
}
use topovgm.Controller.Convergence.{MayChange}
use topovgm.Controller.Convergence.Commands.{AllOf, AllOf-append}

module _ (P : Platform) (vg : Resource P) where
  add_tags-MayChange :
      (xs : List String)
      → AllOf (MayChange P vg) (unless_empty (add_tags P.lvm (get_name_on_node P vg)) xs)
  add_tags-MayChange [] = tt
  add_tags-MayChange (x ∷ xs) = (refl, tt)

  remove_tags-MayChange :
      (xs : List String)
      → AllOf (MayChange P vg) (unless_empty (remove_tags P.lvm (get_name_on_node P vg)) xs)
  remove_tags-MayChange [] = tt
  remove_tags-MayChange (x ∷ xs) = (refl, tt)

  pub tag_plan-MayChange :
      (desired current : List String)
      → AllOf (MayChange P vg) (tag_plan P.lvm (get_name_on_node P vg) desired current)
  tag_plan-MayChange desired current =
      AllOf-append (MayChange P vg)
        (unless_empty (add_tags P.lvm _) (in_left_but_not_in_right desired current)) _
        (add_tags-MayChange _) (remove_tags-MayChange _)

  moves-MayChange :
      (desired names : List String)
      → vg.spec.device_removal_volume_policy ≡ move_and_reduce
      → AllOf (MayChange P vg) (moves P.lvm desired names)
  moves-MayChange desired [] e = tt
  moves-MayChange desired (pv ∷ names) e = (e, moves-MayChange desired names e)

  moves_first-MayChange :
      (policy : DeviceRemovalVolumePolicy) (desired names : List String)
      → vg.spec.device_removal_volume_policy ≡ policy
      → AllOf (MayChange P vg) (moves_first P.lvm policy desired names)
  moves_first-MayChange move_and_reduce desired names e = moves-MayChange desired names e
  moves_first-MayChange reduce desired names e = tt
  moves_first-MayChange _ desired names e = tt

  removal-MayChange :
      (desired xs : List String)
      → AllOf (MayChange P vg) (
          unless_empty
            (removal P.lvm vg.spec.device_removal_volume_policy (get_name_on_node P vg) desired)
            xs)
  removal-MayChange desired [] = tt
  removal-MayChange desired (x ∷ xs) =
      AllOf-append (MayChange P vg) (moves_first P.lvm _ desired (x ∷ xs)) _
        (moves_first-MayChange _ desired (x ∷ xs) refl) ((refl, refl), tt)

  extend-MayChange :
      (xs : List String)
      → AllOf (MayChange P vg) (unless_empty (extend P.lvm (get_name_on_node P vg)) xs)
  extend-MayChange [] = tt
  extend-MayChange (x ∷ xs) = (refl, tt)

  pub pv_plan-MayChange :
      (desired current : List String)
      → AllOf (MayChange P vg) (
          pv_plan P.lvm vg.spec.device_removal_volume_policy
            (get_name_on_node P vg)
            desired
            current)
  pv_plan-MayChange desired current =
      AllOf-append (MayChange P vg)
        (unless_empty (extend P.lvm _) (in_left_but_not_in_right desired current)) _
        (extend-MayChange _) (removal-MayChange desired _)
