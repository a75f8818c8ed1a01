-- ===== src/Tests/Lifecycle.antt =====
-- The life of a volume group, on that cluster.
use topovgm.Prelude.{inl, ◌≡◌, refl, false, true, none, some, [], ◌∷◌, string_eq}
use topovgm.Prelude.Int.{pos}
use topovgm.Go.{message, ok, fail}
use topovgm.Lvm.{VgCreateOptions}
use topovgm.Controller.Platform.{Host}
use topovgm.Controller.Reconcile.{no_result, requeued, reconcile}
use topovgm.Controller.Reconcile.Creation.{reconcile_leaves_group}
use topovgm.Controller.Convert.Options.{options_of}
use topovgm.Controller.Lifecycle.Invariant.{being_deleted}
use topovgm.Controller.Lifecycle.Removal.{reconcile_dismantles}
use topovgm.Tests.Inputs.{paths}
use topovgm.Tests.Node.{platform, types, missing_group}
use topovgm.Tests.Inputs.{config, request, new_resource, kept_resource, deleted_resource}
use topovgm.Tests.Runs.{round}
use topovgm.Tests.Cluster.{State, created, cluster, cluster-Cluster}

abbrev bare : State
bare = record { stored = some new_resource; on_host = false; group = created [] [] }

abbrev options : VgCreateOptions types
options = options_of platform cluster new_resource paths (some (pos 4194304)) none none none

-- Behind the first round, and behind the commands that the group then needs.
abbrev after_round : State
after_round = record {
  stored = some kept_resource;
  on_host = true;
  group = created ("topovgm" ∷ []) paths;
}

abbrev settled : State
settled = record after_round {
  group = record (created ("topovgm" ∷ []) paths) {
    max_pv = pos 16;
    policy = "cling_by_tags";
    active = false;
  };
}

-- The resource and the group during a deletion, without the group, and without both.
abbrev deleting : State
deleting = record bare { stored = some deleted_resource; on_host = true }

abbrev removed : State
removed = record deleting { on_host = false }

abbrev gone : State
gone = record removed { stored = none }

reconcile_dismantles_example :
    (reconcile platform cluster 1 config request deleting ≡ some (ok (no_result, none), gone))
    × (gone.stored ≡ none)
    × (gone.on_host ≡ false)
unfolding round
reconcile_dismantles_example =
    reconcile_dismantles platform cluster config request (λ s. s.stored) (λ s. s.on_host) 1
      deleted_resource deleting {timestamp = pos 5} {seconds = pos 0} (ok tt) {w1 = removed}
      cluster-Cluster refl refl refl refl
      (record { grace = refl; read = deleting; now = pos 9; clock = refl; ran = refl }) (inl refl)
      refl

-- An API server that refuses every write.
abbrev refusing : Host platform State
refusing = record cluster { update = λ vg s. (fail (message "conflict"), s) }

abbrev left : State
left = record bare { on_host = true; group = created ("topovgm" ∷ []) paths }

reconcile_leaves_group_example :
    reconcile platform refusing 1 config request bare
    ≡ some (ok (requeued, some (message "conflict")), left)
unfolding round
reconcile_leaves_group_example =
    reconcile_leaves_group platform refusing config request 1 {vg = new_resource} {lvm = none}
      {w = bare} {w' = left} {w'' = left}
      (record {
        w1 = bare;
        owned = record { got = refl; node = refl; kept = refl };
        missing = missing_group;
        w2 = bare;
        looked = refl;
        is_missing = refl;
        opts = _;
        w3 = bare;
        converted = refl;
        created = refl;
      })
      refl refl

-- The deletion by a user after the first round.
abbrev after_deletion : State
after_deletion = record left {
  stored = some (being_deleted platform kept_resource (pos 5) (pos 30));
}
