-- ===== src/Manager/Main.antt =====
-- cmd/main.go: `main`, and `SetupWithManager` of internal/controller/volumegroup_controller.go.
use topovgm.Prelude.{String, true, false, none, some, if◌then◌else◌}
use topovgm.Prelude.Int.{pos}
use topovgm.Go.{⊤, M}
use topovgm.Manager.Process.{Process, ◌>>=◌, ◌>>◌, acting, asking, or_exit}
use topovgm.Manager.Runtime.{
  Flags, FlagSet, volume_group, MetricsOptions, ManagerOptions, VolumeGroupReconciler, Runtime,
}
use topovgm.Manager.Scheme.{init_scheme}

abbrev pub default_flags : FlagSet
default_flags = record {
  metrics_addr = record { name = "metrics-bind-address"; default = "0" };
  probe_addr = record { name = "health-probe-bind-address"; default = ":8081" };
  enable_leader_election = record { name = "leader-elect"; default = false };
  secure_metrics = record { name = "metrics-secure"; default = true };
  volume_group_sync_interval = record {
    name = "volume-group-sync-interval";
    default = pos 10000000000;
  };
}

module _ {W : Type 0} (rt : Runtime W) where
  abbrev metrics_server_options : Flags → MetricsOptions (Runtime.Filter rt)
  metrics_server_options flags = record {
    bind_address = flags.metrics_addr;
    secure_serving = flags.secure_metrics;
    filter_provider =
        if flags.secure_metrics then some rt.with_authentication_and_authorization else none;
  }

  abbrev pub manager_options :
      Flags
      → Runtime.Scheme rt
      → ManagerOptions (Runtime.Scheme rt) (Runtime.WebhookServer rt) (Runtime.Filter rt)
  manager_options flags scheme = record {
    scheme = scheme;
    metrics = metrics_server_options flags;
    webhook_server = rt.new_webhook_server;
    health_probe_bind_address = flags.probe_addr;
    leader_election = flags.enable_leader_election;
    leader_election_id = "c43d834a.io";
    leader_election_release_on_cancel = true;
  }

  abbrev pub Reconciler : Type 0
  Reconciler = VolumeGroupReconciler (Runtime.Client rt) (Runtime.Scheme rt) (Runtime.Lvm rt)

  abbrev pub reconciler : Flags → Runtime.Manager rt → String → Reconciler
  reconciler flags mgr node = record {
    client = rt.get_client mgr;
    scheme = rt.get_scheme mgr;
    lvm = rt.new_lvm_client;
    config = record { node_name = node; sync_interval = flags.volume_group_sync_interval };
  }

  abbrev pub setup_with_manager : Reconciler → Runtime.Manager rt → M W ⊤
  setup_with_manager r mgr = rt.complete mgr volume_group r

  -- From the call of `NewManager` on.
  unfoldable pub serve : Flags → Runtime.Scheme rt → Runtime.RestConfig rt → Process W ⊤
  serve flags scheme config = do
    mgr ←
        or_exit (rt.log_error "unable to start manager")
          (rt.new_manager config (manager_options flags scheme))
    node ← asking (rt.getenv "NODE_NAME")
    or_exit (rt.log_error "unable to create controller")
        (setup_with_manager (reconciler flags mgr node) mgr)
    or_exit (rt.log_error "unable to set up health check")
        (rt.add_healthz_check mgr "healthz" rt.ping)
    or_exit (rt.log_error "unable to set up ready check") (rt.add_readyz_check mgr "readyz" rt.ping)
    acting (rt.log_info "starting manager")
    or_exit (rt.log_error "problem running manager") (rt.start mgr)

  unfoldable pub main : Runtime.Scheme rt → Process W ⊤
  unfolding serve
  main scheme = do
    flags ← rt.parse_flags default_flags
    acting rt.set_up_logging
    config ← rt.get_config_or_die
    serve flags scheme config

  -- The program: the `init` functions, then `main`.
  unfoldable pub program : Process W ⊤
  unfolding main init_scheme
  program = do scheme ← init_scheme rt; main scheme
