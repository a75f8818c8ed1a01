-- ===== src/Tests/Steps.antt =====
-- The theorems on the steps of a round, on the toy node.
use topovgm.Prelude.{
  true, ◌≡◌, ◌≢◌, refl, false, Option, none, some, List, [], ◌∷◌, string_eq, arith,
}
use topovgm.Prelude.Int.{pos}
use topovgm.Go.{Error, ok, fail}
use topovgm.Api.Spec.{
  DeviceLossSynchronizationPolicy, fail_sync, force_remove_missing, policy_text, cling_by_tags,
}
use topovgm.Lvm.{LvmVolumeGroup, VgCreateOptions}
use topovgm.Utils.Snake.{to_snake_case}
use topovgm.Controller.Convert.{get_physical_volume_names, get_name_on_node}
use topovgm.Controller.Convert.Options.{Carries, options_of, convert_to_vg_create_options-Carries}
use topovgm.Controller.Convert.Policies.{lvm_policy, named_policies}
use topovgm.Controller.Plan.{pv_plan, execute}
use topovgm.Controller.Plan.Volumes.{sync_pvs-execute}
use topovgm.Controller.Syncers.{sync_pvs}
use topovgm.Controller.Status.Mirror.{Mirrors, sync_status-Mirrors}
use topovgm.Controller.Sync.{State, set_default, set_failed, set_ok, syncers, sync}
use topovgm.Controller.Sync.Errors.{Calls, SixCalls, Concludes, run_syncers-Calls, sync_ok_iff}
use topovgm.Controller.Sync.Loss.{sync_fails_on_loss, sync_removes_lost}
use topovgm.Controller.Sync.Reports.{SetsConditions, Reports, Keeps, sync-Reports}
use topovgm.Tests.Node.{platform, host, NodeState, volume, group_named}
use topovgm.Tests.Inputs.{resource, kept_resource, bare_node, node, lossy_node}
use topovgm.Tests.Runs.{round}

abbrev group : LvmVolumeGroup platform.lvm
group = group_named "vg1" ("old" ∷ [])

abbrev start : State platform NodeState
start = record { vg = kept_resource; world = node kept_resource }

sync_pvs-execute_example :
    sync_pvs platform host kept_resource group (node kept_resource)
    ≡ execute platform host
        (pv_plan platform.lvm kept_resource.spec.device_removal_volume_policy
          (get_name_on_node platform kept_resource)
          ("/dev/loop0" ∷ "/dev/loop1" ∷ [])
          ("/dev/loop0" ∷ "/dev/loop9" ∷ []))
        (node kept_resource)
unfolding round
sync_pvs-execute_example =
    sync_pvs-execute platform host kept_resource group (node kept_resource) refl refl

abbrev options : VgCreateOptions platform.lvm
options =
    options_of platform host kept_resource ("/dev/loop0" ∷ "/dev/loop1" ∷ []) (some (pos 4194304))
      none none none

convert_to_vg_create_options-Carries_example :
    (get_physical_volume_names platform host kept_resource (bare_node kept_resource)
      ≡ (ok options.physical_volume_names, bare_node kept_resource))
    × Carries platform kept_resource options
unfolding round
convert_to_vg_create_options-Carries_example =
    convert_to_vg_create_options-Carries platform host kept_resource (bare_node kept_resource)
      {opts = options} refl

named_policies_example :
    (to_snake_case (policy_text cling_by_tags) ≡ lvm_policy cling_by_tags)
    × (options.allocation_policy ≡ some (policy_text cling_by_tags))
    × (policy_text cling_by_tags ≢ lvm_policy cling_by_tags)
unfolding round
named_policies_example =
    named_policies platform host kept_resource cling_by_tags (bare_node kept_resource)
      {opts = options} refl refl

sync_status-Mirrors_example : (s : State platform NodeState) × Mirrors platform host group start s
unfolding round
sync_status-Mirrors_example = (_, sync_status-Mirrors platform host group start refl)

abbrev no_errors : List (Option Error)
no_errors = none ∷ none ∷ none ∷ none ∷ none ∷ none ∷ []

-- The node behind the six functions.
abbrev changed : NodeState
changed = record (node kept_resource) {
  group = some (record (group_named "vg1" ("topovgm" ∷ [])) {
    max_pv = pos 16;
    allocation_policy = "cling_by_tags";
    auto_activation = false;
  });
  volumes = volume "/dev/loop0" ∷ (volume "/dev/loop1" ∷ []);
}

run_syncers-Calls_example :
    Calls platform host
      (syncers platform host kept_resource group)
      (node kept_resource)
      no_errors
      changed
unfolding round
run_syncers-Calls_example =
    run_syncers-Calls platform host kept_resource group (node kept_resource) refl

six_called : SixCalls platform host kept_resource group (node kept_resource) no_errors changed
unfolding round
six_called = run_syncers-Calls platform host kept_resource group (node kept_resource) refl

sync_ok_iff_example : Concludes platform host 2 group start no_errors changed
unfolding round
sync_ok_iff_example = sync_ok_iff platform host 2 group start no_errors six_called refl

set_condition-SetsConditions : SetsConditions platform
set_condition-SetsConditions [] c = ground arith
set_condition-SetsConditions (d ∷ conditions) c =
    ground (arith, set_condition-SetsConditions conditions c)

sync-Reports_example :
    Reports platform (pos 1) (ok tt) (set_ok platform (set_default platform kept_resource))
    × Keeps platform kept_resource (set_ok platform (set_default platform kept_resource))
unfolding round
sync-Reports_example =
    sync-Reports platform set_condition-SetsConditions host 3 (some group) start
      {s' = record { vg = set_ok platform (set_default platform kept_resource); world = changed }}
      refl

-- Lost devices, by policy.
abbrev lossy : DeviceLossSynchronizationPolicy → State platform NodeState
lossy policy = let vg = resource policy [] none in record { vg = vg; world = lossy_node vg }

sync_fails_on_loss_example :
    (err : Error) × (w : NodeState) × (sync platform host 3 (some group) (lossy fail_sync)
      ≡ some (
        fail err,
        record {
          vg = set_failed platform (set_default platform (resource fail_sync [] none)) err;
          world = w;
        },
      ))
unfolding round
sync_fails_on_loss_example =
    (_, _, sync_fails_on_loss platform host 2 group (lossy fail_sync) refl (_, refl, refl, refl))

sync_removes_lost_example :
    sync platform host 3 (some group) (lossy force_remove_missing)
    ≡ sync platform host 2 (some group) (record {
      vg = set_default platform (resource force_remove_missing [] none);
      world = node (resource force_remove_missing [] none);
    })
unfolding round
sync_removes_lost_example =
    sync_removes_lost platform host 2 group (lossy force_remove_missing) true (ok tt) (λ e. cc)
      (λ _. refl, λ _. refl) (_, refl, refl, refl) refl
