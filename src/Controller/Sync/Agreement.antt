-- ===== src/Controller/Sync/Agreement.antt =====
-- A host that agrees with the resource: `sync` runs no command.
use topovgm.Prelude.{
  String, ◌≡◌, refl, sym, ◌∙◌, false, Option, none, some, List, [], ◌∷◌, map, contains, string_eq,
  arith,
}
use topovgm.Prelude.Int.{ℤ}
use topovgm.Go.{⊤, Error, ok, M, as_value, pure, ◌>>=◌, >>=-ok, as_value-ok}
use topovgm.Utils.Diff.{in_left_but_not_in_right-eq-nil}
use topovgm.Utils.Snake.{to_snake_case}
use topovgm.Lvm.{
  LvmTypes, LvmVolumeGroup, LvmPhysicalVolume, LvmClient, VgChangeOption, maximum_physical_volumes,
  maximum_logical_volumes,
}
use topovgm.Controller.Platform.{Platform, Resource, Host}
use topovgm.Api.Spec.{DeviceRemovalVolumePolicy}
use topovgm.Controller.Convert.{
  convert_to_auto_activation, get_name_on_node, get_physical_volume_names,
}
use topovgm.Controller.Syncers.{
  sync_tags, sync_pvs, sync_maximum, sync_maximum_volumes, sync_allocation_policy,
  sync_auto_activation, sync_name,
}
use topovgm.Controller.Plan.{execute, tag_plan, pv_plan}
use topovgm.Controller.Plan.Tags.{sync_tags-execute}
use topovgm.Controller.Plan.Volumes.{sync_pvs-execute}
use topovgm.Controller.Sync.{run_all, run_syncers}

-- A setting that the resource leaves out, or that the host has.
abbrev pub Settles : {A : Type 0} → (A → Type 0) → Option A → Type 0
Settles has none = ⊤
Settles has (some a) = has a

module _ (P : Platform) where
  -- The host's volume group leaves `sync` nothing to do, where `desired` are the selected devices and
  -- `pvs` the host's physical volumes. Automatic activation is off wherever the resource sets it: the
  -- code runs a command on an active group for either value.
  pub record Agrees (vg : Resource P) (lvm : LvmVolumeGroup P.lvm) (desired : List String)
      (pvs : List (LvmPhysicalVolume P.lvm)) : Type 0 where
    pub tags : (a : String) → contains vg.spec.tags a ≡ contains lvm.tags a
    pub volumes :
        (a : String) → contains desired a ≡ contains (map (λ pv. LvmPhysicalVolume.name pv) pvs) a
    pub max_pv : Settles (λ n. lvm.max_pv ≡ n) vg.spec.maximum_physical_volumes
    pub max_lv : Settles (λ n. lvm.max_lv ≡ n) vg.spec.maximum_logical_volumes
    pub policy : Settles (λ p. lvm.allocation_policy ≡ to_snake_case p) vg.spec.allocation_policy
    pub activation :
        Settles (λ _. LvmTypes.is_true P.lvm lvm.auto_activation ≡ false) vg.spec.auto_activation
    pub name : lvm.name ≡ get_name_on_node P vg

module _ (P : Platform) {W : Type 0} (h : Host P W) where
  tag_plan-nil :
      (name : String) (desired current : List String)
      → ((a : String) → contains desired a ≡ contains current a)
      → tag_plan P.lvm name desired current ≡ []
  tag_plan-nil name desired current same = rw (
    in_left_but_not_in_right-eq-nil desired current (λ a c. sym (same a) ∙ c),
    in_left_but_not_in_right-eq-nil current desired (λ a c. same a ∙ c),
  )

  pv_plan-nil :
      (policy : DeviceRemovalVolumePolicy) (name : String) (desired current : List String)
      → ((a : String) → contains desired a ≡ contains current a)
      → pv_plan P.lvm policy name desired current ≡ []
  pv_plan-nil policy name desired current same = rw (
    in_left_but_not_in_right-eq-nil desired current (λ a c. sym (same a) ∙ c),
    in_left_but_not_in_right-eq-nil current desired (λ a c. same a ∙ c),
  )

  execute-nil : (w : W) → execute P h [] w ≡ (ok tt, w)
  unfolding execute
  execute-nil w = refl

  sync_maximum_settled :
      (wanted : Option ℤ) (current : ℤ) (option : ℤ → VgChangeOption P.lvm) (name what : String)
      (w : W)
      → Settles (λ n. current ≡ n) wanted
      → sync_maximum P h wanted current option name what w ≡ (ok tt, w)
  unfolding sync_maximum
  sync_maximum_settled none current option name what w e = refl
  sync_maximum_settled (some n) current option name what w e = ground arith

  module _ (vg : Resource P) (lvm : LvmVolumeGroup P.lvm) where
    sync_maximum_volumes_settled :
        (w : W)
        → Settles (λ n. lvm.max_pv ≡ n) vg.spec.maximum_physical_volumes
        → Settles (λ n. lvm.max_lv ≡ n) vg.spec.maximum_logical_volumes
        → sync_maximum_volumes P h vg lvm w ≡ (ok tt, w)
    unfolding sync_maximum_volumes
    sync_maximum_volumes_settled w p l =
        let volumes =
          λ (wanted : Option ℤ) (current : ℤ) (option : ℤ → VgChangeOption P.lvm) (what : String).
            sync_maximum P h wanted current option lvm.name what in
        let pv_text : String = "could not set maximum physical volumes" in
        let lv_text : String = "could not set maximum logical volumes" in
        >>=-ok
          (volumes vg.spec.maximum_physical_volumes lvm.max_pv maximum_physical_volumes pv_text)
          (λ _. volumes vg.spec.maximum_logical_volumes lvm.max_lv maximum_logical_volumes lv_text)
          w (sync_maximum_settled _ lvm.max_pv maximum_physical_volumes lvm.name pv_text w p)
        ∙ sync_maximum_settled _ lvm.max_lv maximum_logical_volumes lvm.name lv_text w l

    sync_allocation_policy_settled :
        (w : W)
        → Settles (λ p. lvm.allocation_policy ≡ to_snake_case p) vg.spec.allocation_policy
        → sync_allocation_policy P h vg lvm w ≡ (ok tt, w)
    unfolding sync_allocation_policy
    sync_allocation_policy_settled w s = ground arith

    sync_auto_activation_settled :
        (w : W)
        → Settles (λ _. LvmTypes.is_true P.lvm lvm.auto_activation ≡ false) vg.spec.auto_activation
        → sync_auto_activation P h vg lvm w ≡ (ok tt, w)
    unfolding sync_auto_activation convert_to_auto_activation
    sync_auto_activation_settled w s = ground arith

    sync_name_settled :
        (w : W) → lvm.name ≡ get_name_on_node P vg → sync_name P h vg lvm w ≡ (ok tt, w)
    unfolding sync_name
    sync_name_settled w e = ground arith

  pub run_all-nil : (w : W) → run_all P h [] w ≡ (ok [], w)
  unfolding run_all
  run_all-nil w = refl

  pub run_all_ok :
      (m : M W ⊤) (ms : List (M W ⊤)) (w v : W) {errs : List (Option Error)} {w' : W}
      → m w ≡ (ok tt, v)
      → run_all P h ms v ≡ (ok errs, w')
      → run_all P h (m ∷ ms) w ≡ (ok (none ∷ errs), w')
  unfolding run_all
  run_all_ok m ms w v ran rest =
      >>=-ok (as_value m) (λ err. run_all P h ms >>= λ errs. pure (err ∷ errs)) w
        (as_value-ok m w ran)
      ∙ >>=-ok (run_all P h ms) (λ errs. pure (none ∷ errs)) v rest

  -- On a host that agrees with the resource, the six functions read the selected devices and the
  -- host's physical volumes, run no command, and return no error.
  pub run_syncers-Agrees :
      (vg : Resource P) (lvm : LvmVolumeGroup P.lvm) (w : W) {desired : List String}
      {pvs : List (LvmPhysicalVolume P.lvm)} {w1 w2 : W}
      → get_physical_volume_names P h vg w ≡ (ok desired, w1)
      → LvmClient.pvs h.client lvm.name w1 ≡ (ok pvs, w2)
      → Agrees P vg lvm desired pvs
      → run_syncers P h vg lvm w ≡ (ok (none ∷ none ∷ none ∷ none ∷ none ∷ none ∷ []), w2)
  unfolding run_syncers
  run_syncers-Agrees vg lvm w {desired} {pvs} {w1} {w2} selected listed a =
      let name = get_name_on_node P vg in
      let current = map (λ pv. LvmPhysicalVolume.name pv) pvs in
      let tags_done : sync_tags P h vg lvm w ≡ (ok tt, w) =
        sync_tags-execute P h vg lvm w
        ∙ rw (tag_plan-nil name vg.spec.tags lvm.tags a.tags) (execute-nil w) in
      let pvs_done : sync_pvs P h vg lvm w ≡ (ok tt, w2) =
        sync_pvs-execute P h vg lvm w selected listed
        ∙ rw (pv_plan-nil vg.spec.device_removal_volume_policy name desired current a.volumes)
            (execute-nil w2) in
      let m2 = sync_pvs P h vg lvm in
      let m3 = sync_maximum_volumes P h vg lvm in
      let m4 = sync_allocation_policy P h vg lvm in
      let m5 = sync_auto_activation P h vg lvm in
      let m6 = sync_name P h vg lvm in
      run_all_ok (sync_tags P h vg lvm) (m2 ∷ m3 ∷ m4 ∷ m5 ∷ m6 ∷ []) w w tags_done (
        run_all_ok m2 (m3 ∷ m4 ∷ m5 ∷ m6 ∷ []) w w2 pvs_done (
          run_all_ok m3 (m4 ∷ m5 ∷ m6 ∷ []) w2 w2
            (sync_maximum_volumes_settled vg lvm w2 a.max_pv a.max_lv)
            (run_all_ok m4 (m5 ∷ m6 ∷ []) w2 w2 (sync_allocation_policy_settled vg lvm w2 a.policy)
              (run_all_ok m5 (m6 ∷ []) w2 w2 (sync_auto_activation_settled vg lvm w2 a.activation)
                (run_all_ok m6 [] w2 w2 (sync_name_settled vg lvm w2 a.name) (run_all-nil w2))))))
