-- ===== src/Tests/Safety.antt =====
-- The theorem on which commands are run, on a node that keeps a log of them.
use mathlib.Core.Option.{some-injective}
use topovgm.Prelude.{refl, sym, ap, false, none, some, List, [], ◌∷◌, string_eq}
use topovgm.Prelude.Int.{pos}
use topovgm.Go.{⊤, ok}
use topovgm.Lvm.{LvmVolumeGroup, Command}
use topovgm.Controller.Platform.{Host}
use topovgm.Controller.Reconcile.{reconcile}
use topovgm.Controller.Safety.{MayRun, LooksUpByName, IsQuiet, AllowedPreserve}
use topovgm.Controller.Safety.Rounds.{WorldInv, reconcile_runs_allowed}
use topovgm.Tests.Node.{platform, types, volume, group_named}
use topovgm.Tests.Inputs.{config, request, kept_resource, loop_devices}

-- The state is the log.
abbrev logging : Host platform (List (Command types))
logging = record {
  client = record {
    vg = λ name log. ((some (group_named name []), none), log);
    pvs = λ name log. (ok (volume "/dev/loop9" ∷ []), log);
    run = λ command log. (ok tt, command ∷ log);
  };
  run_lsblk = λ columns log. (ok loop_devices, log);
  get = λ request log. (ok kept_resource, log);
  is_not_found = λ e. false;
  update = λ vg log. (ok tt, log);
  update_status = λ vg log. (ok tt, log);
  now = λ log. (pos 9, log);
}

abbrev AllMayRun : List (Command types) → Type 0
AllMayRun [] = ⊤
AllMayRun (c ∷ log) = MayRun platform kept_resource c × AllMayRun log

logging-IsQuiet : IsQuiet platform logging AllMayRun
logging-IsQuiet = record {
  vg = λ name log i. i;
  pvs = λ name. record { keeps = λ log i. i };
  run_lsblk = λ columns. record { keeps = λ log i. i };
  get = λ request. record { keeps = λ log i. i };
  update_status = λ vg. record { keeps = λ log i. i };
  now = λ log i. i;
}

logging-LooksUpByName : LooksUpByName platform logging
logging-LooksUpByName name log lvm e = sym (ap (λ g. LvmVolumeGroup.name g) (some-injective _ _ e))

logging-AllowedPreserve : AllowedPreserve platform logging AllMayRun (MayRun platform kept_resource)
logging-AllowedPreserve c may = record { keeps = λ log i. (may, i) }

reconcile_runs_allowed_example :
    WorldInv platform logging AllMayRun (reconcile platform logging 3 config request [])
reconcile_runs_allowed_example =
    reconcile_runs_allowed platform logging AllMayRun config request 3 [] logging-IsQuiet
      logging-LooksUpByName refl logging-AllowedPreserve (λ vg. record { keeps = λ log i. i }) tt
