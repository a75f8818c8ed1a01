-- ===== src/Manager/Runtime.antt =====
-- What the binary calls of Go's libraries, apimachinery, controller-runtime and lvm2go, as parameters.
use topovgm.Prelude.{String, Bool, Option, List}
use topovgm.Prelude.Int.{ℤ}
use topovgm.Go.{⊤, Error, M}
use topovgm.Controller.Reconcile.{Config}
use topovgm.Manager.Process.{Process}

-- A flag of the command line: its name and its default.
pub record Flag (A : Type 0) : Type 0 where
  pub name : String
  pub default : A

-- The flags that are defined, by the variable that each is read into.
pub record FlagSet : Type 0 where
  pub metrics_addr : Flag String
  pub probe_addr : Flag String
  pub enable_leader_election : Flag Bool
  pub secure_metrics : Flag Bool
  pub volume_group_sync_interval : Flag ℤ

-- The values of the flags; the interval is in nanoseconds.
pub record Flags : Type 0 where
  pub metrics_addr : String
  pub probe_addr : String
  pub enable_leader_election : Bool
  pub secure_metrics : Bool
  pub volume_group_sync_interval : ℤ

-- `schema.GroupVersion`
pub record GroupVersion : Type 0 where
  pub group : String
  pub version : String

-- The types that the program registers.
pub data ApiType : Type 0 where
  volume_group volume_group_list : ApiType

-- `metricsserver.Options`, over the type of filter providers. The list of TLS options is empty.
pub record MetricsOptions (Filter : Type 0) : Type 0 where
  pub bind_address : String
  pub secure_serving : Bool
  pub filter_provider : Option Filter

-- `ctrl.Options`
pub record ManagerOptions (Scheme WebhookServer Filter : Type 0) : Type 0 where
  pub scheme : Scheme
  pub metrics : MetricsOptions Filter
  pub webhook_server : WebhookServer
  pub health_probe_bind_address : String
  pub leader_election : Bool
  pub leader_election_id : String
  pub leader_election_release_on_cancel : Bool

-- `VolumeGroupReconciler`; `config` holds the node's name and the interval.
pub record VolumeGroupReconciler (Client Scheme Lvm : Type 0) : Type 0 where
  pub client : Client
  pub scheme : Scheme
  pub lvm : Lvm
  pub config : Config

pub record Runtime (W : Type 0) : Type 1 where
  pub RestConfig : Type 0
  pub Scheme : Type 0
  pub Builder : Type 0
  pub WebhookServer : Type 0
  pub Filter : Type 0
  pub Manager : Type 0
  pub Client : Type 0
  pub Lvm : Type 0
  pub Checker : Type 0
  -- `runtime.NewScheme()` and `clientgoscheme.AddToScheme`
  pub new_scheme : Scheme
  pub add_client_go_to_scheme : Scheme → M W Scheme
  -- `&scheme.Builder{GroupVersion: ...}`, its `Register` and its `AddToScheme`
  pub new_builder : GroupVersion → Builder
  pub register : List ApiType → Builder → Builder
  pub build : Builder → Scheme → M W Scheme
  -- The definitions of these flags, and `flag.Parse`, which exits by itself.
  pub parse_flags : FlagSet → Process W Flags
  -- The loggers of zap, controller-runtime and slog.
  pub set_up_logging : W → W
  pub log_info : String → W → W
  pub log_error : String → Error → W → W
  pub new_webhook_server : WebhookServer
  pub with_authentication_and_authorization : Filter
  -- `ctrl.GetConfigOrDie`, which exits by itself.
  pub get_config_or_die : Process W RestConfig
  pub new_manager : RestConfig → ManagerOptions Scheme WebhookServer Filter → M W Manager
  pub get_client : Manager → Client
  pub get_scheme : Manager → Scheme
  pub getenv : String → W → String
  pub new_lvm_client : Lvm
  -- `ctrl.NewControllerManagedBy(mgr).For(...).Complete(r)`
  pub complete : Manager → ApiType → VolumeGroupReconciler Client Scheme Lvm → M W ⊤
  pub ping : Checker
  pub add_healthz_check : Manager → String → Checker → M W ⊤
  pub add_readyz_check : Manager → String → Checker → M W ⊤
  pub start : Manager → M W ⊤
