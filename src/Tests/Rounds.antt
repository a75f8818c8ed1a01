-- ===== src/Tests/Rounds.antt =====
-- The theorems on a round, on the toy node.
use topovgm.Prelude.{
  Option, ◌*◌, ◌≤◌, ◌↔◌, true, arith, ◌≡◌, refl, false, none, some, [], ◌∷◌, string_eq, inr,
}
use topovgm.Prelude.Int.{pos, ◌+ℤ◌}
use topovgm.Go.{Error, message, wrapped, ok, fail, panic, as_value, ◌>>=◌}
use topovgm.Controller.Platform.{Resource, Host}
use topovgm.Controller.Reconcile.{
  Answer, no_result, with_finalizers, force_at, after_remove, remove, reconcile,
}
use topovgm.Controller.Reconcile.Creation.{reconcile_panics_after_creation}
use topovgm.Controller.Reconcile.Removal.{remove_keeps_finalizer, remove_drops_finalizer}
use topovgm.Controller.Reconcile.Rounds.{AnswersIf, reconcile_syncs}
use topovgm.Controller.Reconcile.Grace.{force_at-exact_iff, remove_forces_early}
use topovgm.Controller.Convert.{get_name_on_node}
use topovgm.Controller.Syncers.{run}
use topovgm.Lvm.{vg_remove}
use topovgm.Tests.Node.{platform, host, NodeState, missing_group, volume, group_named}
use topovgm.Tests.Inputs.{
  config, request, new_resource, kept_resource, deleted_resource, bare_node, node,
}
use topovgm.Tests.Runs.{round}

abbrev created : Resource platform → NodeState
created vg = record (bare_node vg) {
  group = some (group_named "vg1" ("topovgm" ∷ []));
  volumes = volume "/dev/loop0" ∷ (volume "/dev/loop1" ∷ []);
}

-- A node that has no resource.
abbrev empty_node : NodeState
empty_node = record (bare_node new_resource) { resource = none }

reconcile_panics_after_creation_example :
    reconcile platform host 3 config request (bare_node kept_resource)
    ≡ some (panic "nil pointer dereference", created kept_resource)
unfolding round
reconcile_panics_after_creation_example =
    reconcile_panics_after_creation platform host config request 2
      (record {
        w1 = bare_node kept_resource;
        owned = record { got = refl; node = refl; kept = refl };
        missing = missing_group;
        w2 = bare_node kept_resource;
        looked = refl;
        is_missing = refl;
        opts = _;
        w3 = bare_node kept_resource;
        converted = refl;
        created = refl;
      })
      refl

-- An API server that refuses the status, after everything else went well.
abbrev refusing_status : Host platform NodeState
refusing_status = record host { update_status = λ vg w. (fail (message "conflict"), w) }

abbrev no_error : Option Error
no_error = none

-- The node behind such a round.
abbrev synced : NodeState
synced = record (node kept_resource) {
  group = some (record (group_named "vg1" ("topovgm" ∷ [])) {
    max_pv = pos 16;
    allocation_policy = "cling_by_tags";
    auto_activation = false;
  });
  volumes = volume "/dev/loop0" ∷ (volume "/dev/loop1" ∷ []);
}

reconcile_syncs_example :
    (a : Answer) × (reconcile platform refusing_status 3 config request (node kept_resource)
      ≡ some (ok a, synced))
    × AnswersIf platform refusing_status config request
        ((no_error ≡ none) × (no_error ≡ none) × (some (message "conflict") ≡ none))
        a
unfolding round
reconcile_syncs_example =
    reconcile_syncs platform refusing_status config request 3 {vg = kept_resource}
      {lvm = group_named "vg1" ("old" ∷ [])} {w = node kept_resource} {w1 = node kept_resource}
      {w2 = node kept_resource} none none (some (message "conflict"))
      (record { got = refl; node = refl; kept = refl }) refl refl refl refl refl

-- A node whose volume group cannot be removed.
abbrev busy : Host platform NodeState
busy = record host {
  client = record (host.client) { run = λ command w. (fail (message "in use"), w) };
}

remove_keeps_finalizer_example :
    remove platform busy deleted_resource (pos 5) (node deleted_resource) ≡ (
      ok (no_result, some (wrapped "failed to remove volume group" (message "in use"))),
      node deleted_resource,
    )
unfolding round
remove_keeps_finalizer_example =
    remove_keeps_finalizer platform busy deleted_resource (pos 5) {seconds = pos 0}
      (record { grace = refl; read = node deleted_resource; now = pos 9; clock = refl; ran = refl })
      refl

remove_drops_finalizer_example :
    remove platform host deleted_resource (pos 5) (bare_node deleted_resource)
    ≡ (ok (no_result, none), bare_node (with_finalizers platform deleted_resource []))
unfolding round
remove_drops_finalizer_example =
    remove_drops_finalizer platform host deleted_resource (pos 5) {seconds = pos 0}
      (fail missing_group)
      (record {
        grace = refl;
        read = bare_node deleted_resource;
        now = pos 9;
        clock = refl;
        ran = refl;
      })
      (inr (missing_group, refl, refl)) refl refl

-- A grace period one second too long for the nanoseconds of an int64.
abbrev patient_resource : Resource platform
patient_resource = record deleted_resource {
  meta = record (deleted_resource.meta) { deletion_grace_period_seconds = some (pos 9223372037) };
}

force_at-exact_iff_example :
    (force_at platform (pos 5) (some (pos 30)) ≡ ok (pos 5 +ℤ pos (1000000000 * 30)))
    ↔ (30 ≤ 9223372036)
force_at-exact_iff_example = force_at-exact_iff platform (pos 5) 30

remove_forces_early_example :
    remove platform host patient_resource (pos 5) (node patient_resource)
    ≡ (do
      err ←
          as_value (run platform host (vg_remove (get_name_on_node platform patient_resource) true))
      after_remove platform host patient_resource err)
        (node patient_resource)
remove_forces_early_example =
    remove_forces_early platform host patient_resource (pos 5) 9223372037 (node patient_resource)
      {now = pos 9} refl (ground arith) (ground arith) refl refl
