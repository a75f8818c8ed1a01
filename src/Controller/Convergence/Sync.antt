-- ===== src/Controller/Convergence/Sync.antt =====
-- One call of `sync` makes of the volume group what the resource asks for, and the next changes
-- nothing.
use topovgm.Prelude.{
  ℕ, suc, String, ◌≡◌, refl, ap, sym, ◌∙◌, ◌≢◌, Bool, true, false, Option, none, some, List, [],
  ◌∷◌, ◌++◌, map, string_eq, contains, arith,
}
use topovgm.Go.{ok}
use topovgm.Utils.Snake.{to_snake_case}
use topovgm.Lvm.{LvmTypes, LvmVolumeGroup, LvmPhysicalVolume}
use topovgm.Controller.Platform.{Platform, Resource, Host}
use topovgm.Controller.Syncers.{
  sync_tags, sync_pvs, sync_name, sync_maximum_volumes, sync_allocation_policy,
  sync_auto_activation,
}
use topovgm.Controller.Sync.{State, set_default, set_ok, run_syncers, sync}
use topovgm.Controller.Sync.Agreement.{Settles, Agrees, run_all_ok, run_all-nil}
use topovgm.Controller.Plan.{execute, tag_plan, pv_plan}
use topovgm.Controller.Convert.{get_name_on_node}
use topovgm.Controller.Convergence.Commands.{execute-append, append-execute}
use topovgm.Controller.Reconcile.Rounds.{sync-Agrees}
use topovgm.Controller.Convergence.{
  Group, adjusted, or_current, policy_or_current, wanted_group, Reflects, TurnsOff, Documents,
  Shows, max_pv_plan, max_lv_plan, policy_plan, activation_plan, needed_commands,
}
use topovgm.Controller.Convergence.Syncers.{sync_tags-Makes, sync_pvs-Makes}
use topovgm.Controller.Convergence.Settings.{
  sync_maximum_volumes-Makes, sync_allocation_policy-Makes, sync_auto_activation-Makes,
  sync_name-ok,
}

module _ (P : Platform) where
  -- The volume group is what the resource asks for: it has the resource's tags, the selected
  -- devices, and each setting that the resource makes.
  pub record Meets (vg : Resource P) (desired : List String) (g : Group) : Type 0 where
    pub tags : (a : String) → contains vg.spec.tags a ≡ contains g.tags a
    pub volumes : (a : String) → contains desired a ≡ contains g.volumes a
    pub max_pv : Settles (λ n. g.max_pv ≡ n) vg.spec.maximum_physical_volumes
    pub max_lv : Settles (λ n. g.max_lv ≡ n) vg.spec.maximum_logical_volumes
    pub policy : Settles (λ p. g.policy ≡ to_snake_case p) vg.spec.allocation_policy
    pub activation : Settles (λ b. g.active ≡ b) vg.spec.auto_activation

module _ (P : Platform) {W : Type 0} (h : Host P W) (view : W → Group) (vg : Resource P)
    (desired : List String) (lvm : LvmVolumeGroup P.lvm) where
  -- If the commands that the volume group needs succeed one after another, then the six functions,
  -- from a snapshot that shows the group, run just these, return no error and make of the group
  -- exactly what is asked for: what was there and is still wanted stays, what is lacking comes behind
  -- it, and all else goes.
  pub run_syncers_refines :
      (w w' : W)
      → Documents P h view vg
      → Shows P h view vg desired
      → TurnsOff P
      → vg.spec.auto_activation ≢ some true
      → Reflects P vg lvm (view w)
      → execute P h (needed_commands P vg desired (view w)) w ≡ (ok tt, w')
      → (run_syncers P h vg lvm w ≡ (ok (none ∷ none ∷ none ∷ none ∷ none ∷ none ∷ []), w'))
        × (view w' ≡ wanted_group P vg desired (view w))
  unfolding run_syncers
  run_syncers_refines w w' documents reads turns declines r ran =
      let g = view w in
      let name = get_name_on_node P vg in
      let (w1, go1, rest1) =
        execute-append P h (tag_plan P.lvm name vg.spec.tags g.tags) _ w w' ran in
      let (w2, go2, rest2) =
        execute-append P h
          (pv_plan P.lvm vg.spec.device_removal_volume_policy name desired g.volumes) _ w1 w'
          rest1 in
      let (w3', go3, rest3) = execute-append P h (max_pv_plan P vg g.max_pv) _ w2 w' rest2 in
      let (w3, go3', rest4) = execute-append P h (max_lv_plan P vg g.max_lv) _ w3' w' rest3 in
      let (w4, go4, go5) =
        execute-append P h (policy_plan P vg.spec.allocation_policy name g.policy) _ w3 w' rest4 in
      let (ran1, is1) = sync_tags-Makes P h view vg lvm documents w r.tags w1 go1 in
      let volumes1 = ap (λ (k : Group). k.volumes) is1 in
      let (ran2, is2) =
        sync_pvs-Makes P h view vg lvm documents {desired = desired} w1 reads r.name w2 (
          ap
            (λ l.
              execute P h (pv_plan P.lvm vg.spec.device_removal_volume_policy name desired l) w1)
            volumes1
          ∙ go2) in
      let at2 = is2 ∙ ap (λ (k : Group). record k { volumes = adjusted desired k.volumes }) is1 in
      let max_pv2 = ap (λ (k : Group). k.max_pv) at2 in
      let max_lv2 = ap (λ (k : Group). k.max_lv) at2 in
      let (ran3, is3) =
        sync_maximum_volumes-Makes P h view vg lvm documents r.name w2 (r.max_pv ∙ sym max_pv2)
          (r.max_lv ∙ sym max_lv2) w3
          (ap
              (λ (k : Group).
                execute P h (max_pv_plan P vg k.max_pv ++ max_lv_plan P vg k.max_lv) w2)
              at2
            ∙ append-execute P h (max_pv_plan P vg g.max_pv) (max_lv_plan P vg g.max_lv) w2 w3' w3
                go3 go3') in
      let limits = λ (k : Group). record k {
        max_pv = or_current vg.spec.maximum_physical_volumes k.max_pv;
        max_lv = or_current vg.spec.maximum_logical_volumes k.max_lv;
      } in
      let at3 = is3 ∙ ap limits at2 in
      let policy3 = ap (λ (k : Group). k.policy) at3 in
      let (ran4, is4) =
        sync_allocation_policy-Makes P h view vg lvm documents r.name w3 (r.policy ∙ sym policy3) w4
          (ap (λ p. execute P h (policy_plan P vg.spec.allocation_policy name p) w3) policy3
            ∙ go4) in
      let policy =
        λ (k : Group). record k { policy = policy_or_current vg.spec.allocation_policy k.policy } in
      let at4 = is4 ∙ ap policy at3 in
      let active4 = ap (λ (k : Group). k.active) at4 in
      let (ran5, is5) =
        sync_auto_activation-Makes P h view vg lvm documents r.name w4 turns declines
          (r.active ∙ sym active4) w'
          (ap (λ a. execute P h (activation_plan P vg.spec.auto_activation name a) w4) active4
            ∙ go5) in
      let activation =
        λ (k : Group). record k { active = or_current vg.spec.auto_activation k.active } in
      let m2 = sync_pvs P h vg lvm in
      let m3 = sync_maximum_volumes P h vg lvm in
      let m4 = sync_allocation_policy P h vg lvm in
      let m5 = sync_auto_activation P h vg lvm in
      let m6 = sync_name P h vg lvm in
      let ran6 = sync_name-ok P h view vg lvm documents r.name w' in
      (
        run_all_ok P h (sync_tags P h vg lvm) (m2 ∷ m3 ∷ m4 ∷ m5 ∷ m6 ∷ []) w w1 ran1 (
            run_all_ok P h m2 (m3 ∷ m4 ∷ m5 ∷ m6 ∷ []) w1 w2 ran2 (
              run_all_ok P h m3 (m4 ∷ m5 ∷ m6 ∷ []) w2 w3 ran3 (
                run_all_ok P h m4 (m5 ∷ m6 ∷ []) w3 w4 ran4 (
                  run_all_ok P h m5 (m6 ∷ []) w4 w' ran5
                    (run_all_ok P h m6 [] w' w' ran6 (run_all-nil P h w')))))),
        is5 ∙ ap activation at4,
      )

module _ (P : Platform) {W : Type 0} (h : Host P W) (view : W → Group) (desired : List String)
    (fuel : ℕ) (lvm : LvmVolumeGroup P.lvm) (s : State P W)
    (reads : Shows P h view (set_default P s.vg) desired)
    (nil : LvmTypes.is_missing_pvs P.lvm none ≡ false)
    (declines : s.vg.spec.auto_activation ≢ some true) where
  Meets-Agrees :
      (pvs : List (LvmPhysicalVolume P.lvm)) (vg : Resource P) (g : Group)
      → vg.spec.auto_activation ≢ some true
      → map (λ pv. LvmPhysicalVolume.name pv) pvs ≡ g.volumes
      → Meets P vg desired g
      → Reflects P vg lvm g
      → Agrees P vg lvm desired pvs
  Meets-Agrees pvs vg g n e m r = record {
    tags = λ a. m.tags a ∙ ap (λ l. contains l a) (sym r.tags);
    volumes = λ a. m.volumes a ∙ ap (λ l. contains l a) (sym e);
    max_pv = ground arith;
    max_lv = ground arith;
    policy = ground arith;
    activation = off vg.spec.auto_activation n m.activation;
    name = r.name;
  }
    where
      off :
          (o : Option Bool)
          → o ≢ some true
          → Settles (λ b. g.active ≡ b) o
          → Settles (λ _. LvmTypes.is_true P.lvm lvm.auto_activation ≡ false) o
      off none n m = tt
      off (some true) n m = absurd (n refl)
      off (some false) n m = r.active ∙ m

  -- If the volume group already is what the resource asks for, and that does not ask for automatic
  -- activation, `sync` runs no command at all: from a snapshot that shows the group it leaves the
  -- world as it is, returns no error, and sets the condition to synced. The selector and the list of
  -- physical volumes are to succeed, and nil is to be no error of lost devices.
  pub sync_settled :
      Reflects P (set_default P s.vg) lvm (view s.world)
      → Meets P (set_default P s.vg) desired (view s.world)
      → sync P h (suc fuel) (some lvm) s
        ≡ some (ok tt, record { vg = set_ok P (set_default P s.vg); world = s.world })
  sync_settled r m =
      let (pvs, listed, shows) = reads.lists s.world in
      sync-Agrees P h fuel lvm s (reads.selects s.world) (rw (r.name) listed)
        (Meets-Agrees pvs (set_default P s.vg) (view s.world) declines shows m r) nil
