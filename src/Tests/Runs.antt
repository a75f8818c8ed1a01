-- ===== src/Tests/Runs.antt =====
-- Rounds of the controller, from the creation of a volume group to its removal.
use topovgm.Prelude.{String, ◌≡◌, refl, false, Option, none, some, List, [], ◌∷◌, map, string_eq}
use topovgm.Prelude.Int.{pos, int_eq}
use native.Mathlib.Decide.{ℕ_discrete}
use topovgm.Go.{Outcome, ok, is_error, to_lower, sort, compact, join}
use topovgm.Lvm.{LvmPhysicalVolume}
use topovgm.Lsblk.{get, get_string, recursive_block_devices}
use topovgm.Selector.Requirement.{matches_lsblk_requirement}
use topovgm.Selector.Devices.{select, devices_matching_selector}
use topovgm.Utils.{sequential_two_way_sync, in_left_but_not_in_right}
use topovgm.Utils.Snake.{to_snake_case}
use topovgm.Controller.Conditions.{
  set_synced_on_host_default, set_synced_on_host_creation_ok, set_synced_on_host_creation_failed,
}
use topovgm.Controller.Convert.{
  convert_to_auto_activation, convert_to_zero, convert_size_to_quantity,
  convert_to_vg_create_options,
}
use topovgm.Controller.Syncers.{
  sync_tags, sync_pvs, sync_maximum_volumes, sync_allocation_policy, sync_auto_activation,
  sync_name,
}
use topovgm.Controller.Sync.{sync}
use topovgm.Controller.Status.{fill_pv, fill_pvs, fill_status, sync_status}
use topovgm.Controller.Reconcile.{Answer, no_result, requeued, reconcile}
use topovgm.Tests.Node.{platform, host, NodeState}
use topovgm.Tests.Inputs.{
  config, request, new_resource, kept_resource, deleted_resource, bare_node, node,
}

unfoldable pub round : NodeState → Option (Outcome Answer × NodeState)
unfolding reconcile convert_to_vg_create_options devices_matching_selector select
    matches_lsblk_requirement recursive_block_devices get_string get to_lower sort compact is_error
    join string_eq int_eq ℕ_discrete sync sync_tags sync_pvs sync_maximum_volumes
    sync_allocation_policy sync_auto_activation sync_name sequential_two_way_sync
    in_left_but_not_in_right to_snake_case convert_to_auto_activation sync_status fill_status
    fill_pvs fill_pv set_synced_on_host_default set_synced_on_host_creation_ok
    set_synced_on_host_creation_failed convert_size_to_quantity convert_to_zero
round w = reconcile platform host 3 config request w

abbrev answered : Option (Outcome Answer × NodeState) → Option (Outcome Answer)
answered none = none
answered (some (r, w)) = some r

-- The physical volumes that a round leaves.
abbrev left : Option (Outcome Answer × NodeState) → List String
left none = []
left (some (r, w)) = map (λ pv. LvmPhysicalVolume.name pv) w.volumes

first_round : answered (round (bare_node new_resource)) ≡ some (ok (requeued, none))
unfolding round
first_round = refl

first_volumes : left (round (bare_node new_resource)) ≡ "/dev/loop0" ∷ "/dev/loop1" ∷ []
unfolding round
first_volumes = refl

second_round :
    answered (round (node kept_resource))
    ≡ some (ok (record { requeue = false; requeue_after = pos 10 }, none))
unfolding round
second_round = refl

second_volumes : left (round (node kept_resource)) ≡ "/dev/loop0" ∷ "/dev/loop1" ∷ []
unfolding round
second_volumes = refl

last_round : answered (round (node deleted_resource)) ≡ some (ok (no_result, none))
unfolding round
last_round = refl
