-- ===== src/Controller/Plan.antt =====
-- The commands that `syncTags` and `syncPVs` mean to run, as lists, and what it is to run a list: the
-- first error ends it. The functions are compared with their plans in the modules below.
pub mod Execute
pub mod Tags
pub mod Volumes
use topovgm.Prelude.{String, Bool, List, [], ◌∷◌, ◌++◌, true, false, string_eq}
use topovgm.Go.{⊤, M, pure, ◌>>=◌, ◌>>◌}
use topovgm.Utils.{in_left_but_not_in_right}
use topovgm.Api.Spec.{
  DeviceRemovalVolumePolicy, move_and_reduce, reduce, force_reduce, other_removal_policy,
}
use topovgm.Lvm.{LvmTypes, Command, vg_change, vg_extend, vg_reduce, pv_move, tags, del_tags}
use topovgm.Controller.Platform.{Platform, Host}
use topovgm.Controller.Syncers.{run}

-- A part of a plan that an empty difference leaves out.
abbrev pub unless_empty : {C : Type 0} → (List String → List C) → List String → List C
unless_empty plan [] = []
unless_empty plan (x ∷ xs) = plan (x ∷ xs)

module _ (T : LvmTypes) where
  abbrev pub add_tags : String → List String → List (Command T)
  add_tags name added = vg_change name (tags added) ∷ []

  abbrev pub remove_tags : String → List String → List (Command T)
  remove_tags name removed = vg_change name (del_tags removed) ∷ []

  abbrev pub tag_plan : String → List String → List String → List (Command T)
  tag_plan name desired current =
      unless_empty (add_tags name) (in_left_but_not_in_right desired current)
      ++ unless_empty (remove_tags name) (in_left_but_not_in_right current desired)

  abbrev pub extend : String → List String → List (Command T)
  extend name names = vg_extend name names ∷ []

  abbrev pub moves : List String → List String → List (Command T)
  moves desired [] = []
  moves desired (pv ∷ names) = pv_move pv desired ∷ moves desired names

  -- Whether a removed volume's extents are moved first, and whether the removal is forced.
  abbrev pub moves_first : DeviceRemovalVolumePolicy → List String → List String → List (Command T)
  moves_first move_and_reduce desired names = moves desired names
  moves_first _ desired names = []

  abbrev pub is_forced : DeviceRemovalVolumePolicy → Bool
  is_forced force_reduce = true
  is_forced _ = false

  abbrev pub removal :
      DeviceRemovalVolumePolicy → String → List String → List String → List (Command T)
  removal policy name desired names =
      moves_first policy desired names ++ (vg_reduce name names false (is_forced policy) ∷ [])

  abbrev pub pv_plan :
      DeviceRemovalVolumePolicy → String → List String → List String → List (Command T)
  pv_plan policy name desired current =
      unless_empty (extend name) (in_left_but_not_in_right desired current)
      ++ unless_empty (removal policy name desired) (in_left_but_not_in_right current desired)

module _ (P : Platform) {W : Type 0} (h : Host P W) where
  unfoldable pub execute : List (Command P.lvm) → M W ⊤
  execute [] = pure tt
  execute (c ∷ commands) = do run P h c; execute commands
