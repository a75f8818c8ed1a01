-- ===== src/Controller/Convergence.antt =====
-- What lvm2's commands are documented to do with a volume group, as functions on its state, and the
-- state that a resource asks for.
pub mod Commands
pub mod Plans
pub mod Syncers
pub mod Settings
pub mod Sync
pub mod Rounds
use topovgm.Prelude.{
  String, ◌≡◌, ◌≢◌, Bool, true, false, Option, none, some, List, [], ◌∷◌, ◌++◌, map, ◌==◌,
  string_eq, if◌then◌else◌,
}
use topovgm.Prelude.Int.{ℤ, int_eq}
use topovgm.Go.{⊤, ok}
use topovgm.Utils.{in_left_but_not_in_right}
use topovgm.Utils.Diff.{without}
use topovgm.Utils.Snake.{to_snake_case}
use topovgm.Lvm.{
  LvmTypes, LvmVolumeGroup, LvmPhysicalVolume, LvmClient, Command, VgChangeOption, vg_create,
  vg_remove, vg_change, vg_extend, vg_reduce, vg_rename, pv_move, tags, del_tags,
  maximum_physical_volumes, maximum_logical_volumes, allocation_policy, auto_activation,
}
use topovgm.Controller.Platform.{Platform, Resource, Host}
use topovgm.Controller.Convert.{get_name_on_node, get_physical_volume_names}
use topovgm.Controller.Syncers.{run}
use topovgm.Controller.Plan.{tag_plan, pv_plan}
use topovgm.Controller.Safety.{MaySync}

-- The settings of a volume group that can be changed after its creation.
pub record Group : Type 0 where
  pub tags : List String
  pub volumes : List String
  pub max_pv : ℤ
  pub max_lv : ℤ
  pub policy : String
  pub active : Bool

module _ (T : LvmTypes) where
  abbrev pub change : VgChangeOption T → Group → Group
  change (tags added) g = record g { tags = g.tags ++ without g.tags added }
  change (del_tags removed) g = record g { tags = without removed g.tags }
  change (maximum_physical_volumes n) g = record g { max_pv = n }
  change (maximum_logical_volumes n) g = record g { max_lv = n }
  change (allocation_policy policy) g = record g { policy = policy }
  change (auto_activation a) g = record g { active = T.is_true a }

  -- The commands on an existing volume group; a move of extents leaves its settings.
  abbrev pub apply : Command T → Group → Group
  apply (vg_change _ option) g = change option g
  apply (vg_extend _ names) g = record g { volumes = g.volumes ++ names }
  apply (vg_reduce _ names _ _) g = record g { volumes = without names g.volumes }
  apply (vg_create _) g = g
  apply (vg_remove _ _) g = g
  apply (vg_rename _ _) g = g
  apply (pv_move _ _) g = g

-- What was there, with what is lacking added and what is not wanted taken away.
abbrev pub adjusted : List String → List String → List String
adjusted desired current =
    without (in_left_but_not_in_right current desired)
      (current ++ in_left_but_not_in_right desired current)

-- A setting that the resource leaves out stays.
abbrev pub or_current : {A : Type 0} → Option A → A → A
or_current none current = current
or_current (some wanted) current = wanted

abbrev pub policy_or_current : Option String → String → String
policy_or_current none current = current
policy_or_current (some policy) current = to_snake_case policy

module _ (P : Platform) where
  -- The state that the resource asks for, for the selected devices `desired`: each setting that it
  -- makes has its value, and what it leaves out stays.
  abbrev pub wanted_group : Resource P → List String → Group → Group
  wanted_group vg desired g = record {
    tags = adjusted vg.spec.tags g.tags;
    volumes = adjusted desired g.volumes;
    max_pv = or_current vg.spec.maximum_physical_volumes g.max_pv;
    max_lv = or_current vg.spec.maximum_logical_volumes g.max_lv;
    policy = policy_or_current vg.spec.allocation_policy g.policy;
    active = or_current vg.spec.auto_activation g.active;
  }

  -- The commands that `sync` may run on a volume group that exists and has lost no device.
  abbrev pub MayChange : Resource P → Command P.lvm → Type 0
  MayChange vg (vg_create _) = ⊥
  MayChange vg (vg_reduce _ _ true _) = ⊥
  MayChange vg c = MaySync P vg c

  -- The snapshot that lvm2 returned shows the volume group.
  pub record Reflects (vg : Resource P) (lvm : LvmVolumeGroup P.lvm) (g : Group) : Type 0 where
    pub name : lvm.name ≡ get_name_on_node P vg
    pub tags : lvm.tags ≡ g.tags
    pub max_pv : lvm.max_pv ≡ g.max_pv
    pub max_lv : lvm.max_lv ≡ g.max_lv
    pub policy : lvm.allocation_policy ≡ g.policy
    pub active : LvmTypes.is_true P.lvm lvm.auto_activation ≡ g.active

  -- The two settings of automatic activation differ, and the second turns it off.
  pub record TurnsOff : Type 0 where
    pub differ : LvmTypes.set_no_auto_activate P.lvm ≢ LvmTypes.set_auto_activate P.lvm
    pub off : LvmTypes.is_true P.lvm (LvmTypes.set_no_auto_activate P.lvm) ≡ false

  -- The commands that a volume group needs to become what the resource asks for, in the order of the
  -- six functions; a setting that is as it should be needs none, and neither does automatic
  -- activation where the resource declines it and it is off. Those of a group that is to be activated
  -- are not stated.
  abbrev pub limit_plan : Option ℤ → ℤ → (ℤ → Command P.lvm) → List (Command P.lvm)
  limit_plan none current set = []
  limit_plan (some n) current set = if current == n then [] else (set n ∷ [])

  abbrev pub max_pv_plan : Resource P → ℤ → List (Command P.lvm)
  max_pv_plan vg current =
      limit_plan vg.spec.maximum_physical_volumes current
        λ n. vg_change (get_name_on_node P vg) (maximum_physical_volumes n)

  abbrev pub max_lv_plan : Resource P → ℤ → List (Command P.lvm)
  max_lv_plan vg current =
      limit_plan vg.spec.maximum_logical_volumes current
        λ n. vg_change (get_name_on_node P vg) (maximum_logical_volumes n)

  abbrev pub policy_plan : Option String → String → String → List (Command P.lvm)
  policy_plan none name current = []
  policy_plan (some policy) name current =
      if current == to_snake_case policy
      then []
      else (vg_change name (allocation_policy (to_snake_case policy)) ∷ [])

  abbrev pub activation_plan : Option Bool → String → Bool → List (Command P.lvm)
  activation_plan (some false) name true =
      vg_change name (auto_activation (LvmTypes.set_no_auto_activate P.lvm)) ∷ []
  activation_plan _ name _ = []

  abbrev pub needed_commands : Resource P → List String → Group → List (Command P.lvm)
  needed_commands vg desired g =
      let name = get_name_on_node P vg in
      tag_plan P.lvm name vg.spec.tags g.tags
      ++ (pv_plan P.lvm vg.spec.device_removal_volume_policy name desired g.volumes
          ++ (max_pv_plan vg g.max_pv
              ++ (max_lv_plan vg g.max_lv
                  ++ (policy_plan vg.spec.allocation_policy name g.policy
                      ++ activation_plan vg.spec.auto_activation name g.active))))

module _ (P : Platform) {W : Type 0} (h : Host P W) where
  -- The selector picks `desired`, and lvm2 lists the physical volumes of the volume group.
  pub record Shows (view : W → Group) (vg : Resource P) (desired : List String) : Type 0 where
    pub selects : (w : W) → get_physical_volume_names P h vg w ≡ (ok desired, w)
    pub lists :
        (w : W)
        → (pvs : List (LvmPhysicalVolume P.lvm)) × (LvmClient.pvs h.client (get_name_on_node P vg) w
            ≡ (ok pvs, w))
          × (map (λ pv. LvmPhysicalVolume.name pv) pvs ≡ (view w).volumes)

  -- A command that returns no error has done what it documents; whether it does, or returns an error,
  -- is left open.
  abbrev pub Documents : (W → Group) → Resource P → Type 0
  Documents view vg =
      (c : Command P.lvm) (w w' : W)
      → MayChange P vg c
      → run P h c w ≡ (ok tt, w')
      → view w' ≡ apply P.lvm c (view w)
