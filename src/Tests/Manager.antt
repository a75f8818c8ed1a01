-- ===== src/Tests/Manager.antt =====
-- The binary over a runtime that writes down its calls.
use topovgm.Prelude.{String, Bool, true, false, List, [], ◌∷◌, ◌++◌, ◌≡◌, refl, ◌↔◌, if◌then◌else◌}
use topovgm.Go.{⊤, message, ok, fail, M}
use topovgm.Manager.Process.{returned, exited, or_exit, must, ◌>>=◌}
use topovgm.Manager.Runtime.{Flags, FlagSet, ApiType, volume_group, volume_group_list, Runtime}
use topovgm.Manager.Scheme.{init_scheme}
use topovgm.Manager.Main.{default_flags, serve, main, program}
use topovgm.Manager.Serving.{IsServed, program_returns_iff}
use topovgm.Manager.Failing.{no_ready_check, serve_exits}

abbrev Calls : Type 0
Calls = List String

abbrev note : String → Calls → Calls
note call calls = calls ++ (call ∷ [])

abbrev noting : String → M Calls ⊤
noting call calls = (ok tt, note call calls)

-- What is parsed from an empty command line.
abbrev defaults : FlagSet → Flags
defaults flags = record {
  metrics_addr = flags.metrics_addr.default;
  probe_addr = flags.probe_addr.default;
  enable_leader_election = flags.enable_leader_election.default;
  secure_metrics = flags.secure_metrics.default;
  volume_group_sync_interval = flags.volume_group_sync_interval.default;
}

-- `port_taken` makes the ready check fail.
abbrev runtime : Bool → Runtime Calls
runtime port_taken = record {
  RestConfig = ⊤;
  Scheme = List ApiType;
  Builder = List ApiType;
  WebhookServer = ⊤;
  Filter = ⊤;
  Manager = List ApiType;
  Client = ⊤;
  Lvm = ⊤;
  Checker = ⊤;
  new_scheme = [];
  add_client_go_to_scheme = λ scheme calls. (ok scheme, calls);
  new_builder = λ version. [];
  register = λ types builder. builder ++ types;
  build = λ builder scheme calls. (ok (scheme ++ builder), calls);
  parse_flags = λ flags calls. (returned (defaults flags), calls);
  set_up_logging = λ calls. calls;
  log_info = note;
  log_error = λ text e. note text;
  new_webhook_server = tt;
  with_authentication_and_authorization = tt;
  get_config_or_die = λ calls. (returned tt, calls);
  new_manager = λ config options calls. (ok options.scheme, note "manager" calls);
  get_client = λ mgr. tt;
  get_scheme = λ mgr. mgr;
  getenv = λ name calls. "crc";
  new_lvm_client = tt;
  complete = λ mgr kind r. noting r.config.node_name;
  ping = tt;
  add_healthz_check = λ mgr name check. noting name;
  add_readyz_check = λ mgr name check calls.
      if port_taken then (fail (message "taken"), calls) else (ok tt, note name calls);
  start = λ mgr. noting "start";
}

abbrev all_calls : Calls
all_calls = "manager" ∷ "crc" ∷ "healthz" ∷ "readyz" ∷ "starting manager" ∷ "start" ∷ []

runs : program (runtime false) [] ≡ (returned tt, all_calls)
unfolding program main serve init_scheme or_exit must ◌>>=◌
runs = refl

program_returns_iff_example :
    (program (runtime false) [] ≡ (returned tt, all_calls)) ↔ IsServed (runtime false) [] all_calls
program_returns_iff_example = program_returns_iff (runtime false) [] all_calls

abbrev both_types : List ApiType
both_types = volume_group ∷ volume_group_list ∷ []

serve_exits_example :
    serve (runtime true) (defaults default_flags) both_types tt []
    ≡ (exited 1, "manager" ∷ "crc" ∷ "healthz" ∷ "unable to set up ready check" ∷ [])
serve_exits_example =
    serve_exits (runtime true) (defaults default_flags) both_types tt
      (no_ready_check (message "taken") refl refl refl refl)
