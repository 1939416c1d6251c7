-- ===== src/Manager.antt =====
-- cmd/main.go: the flags, what main asks of the libraries, and the registrations of the
-- controllers (SetupWithManager).
pub mod Main
pub mod Order
pub mod Stages
pub mod Tls
use losant_device.Prelude.{ℕ, String, Bool, true, false, Option, none, some, List, [], ◌∷◌}
use losant_device.Go.{Fallible}
use losant_device.Go.Slices.{Slice, Arrays}

-- The variables of main that flags set.
pub record Flags : Type 0 where
  pub metrics_addr : String
  pub metrics_cert_path : String
  pub metrics_cert_name : String
  pub metrics_cert_key : String
  pub webhook_cert_path : String
  pub webhook_cert_name : String
  pub webhook_cert_key : String
  pub enable_leader_election : Bool
  pub probe_addr : String
  pub secure_metrics : Bool
  pub enable_http2 : Bool
  pub trigger_addr : String
  pub trigger_namespace : String

abbrev pub default_flags : Flags
default_flags = record {
  metrics_addr = "0";
  metrics_cert_path = "";
  metrics_cert_name = "tls.crt";
  metrics_cert_key = "tls.key";
  webhook_cert_path = "";
  webhook_cert_name = "tls.crt";
  webhook_cert_key = "tls.key";
  enable_leader_election = false;
  probe_addr = ":8081";
  secure_metrics = true;
  enable_http2 = false;
  trigger_addr = ":9090";
  trigger_namespace = "losant-system";
}

-- A certificate watcher, by the two files that it watches.
pub record CertWatcher : Type 0 where
  pub cert_path : String
  pub key_path : String

-- The fields of tls.Config that the options set.
pub record TlsConfig : Type 0 where
  pub next_protos : List String
  pub get_certificate : Option CertWatcher

abbrev pub TlsOption : Type 0
TlsOption = TlsConfig → TlsConfig

abbrev pub TlsOptions : Type 0
TlsOptions = Arrays TlsOption

-- ctrl.Options, with the TLS options of the webhook server.
pub record ManagerOptions : Type 0 where
  pub metrics_bind_address : String
  pub secure_serving : Bool
  pub metrics_tls_opts : Slice
  pub authenticated : Bool
  pub webhook_tls_opts : Slice
  pub health_probe_bind_address : String
  pub leader_election : Bool
  pub leader_election_id : String

-- The kinds of the objects that are watched.
pub data Kind : Type 0 where
  node pod persistent_volume_claim event deployment losant_sync rancher_session : Kind

-- What a controller is registered with: its kind, whether only changes of the generation count,
-- and the kinds whose changes are mapped to all nodes. `health_store` is the store that the
-- reconciler points to.
pub record Registration : Type 0 where
  pub for_kind : Kind
  pub generation_changed : Bool
  pub all_nodes_on : List Kind
  pub name : Option String
  pub health_store : Option ℕ

-- SetupWithManager of LosantSyncReconciler
unfoldable pub losant_sync_controller : ℕ → Registration
losant_sync_controller store = record {
  for_kind = losant_sync;
  generation_changed = true;
  all_nodes_on = [];
  name = none;
  health_store = some store;
}

-- SetupWithManager of HealthWatcherReconciler
unfoldable pub health_watcher_controller : ℕ → Registration
health_watcher_controller store = record {
  for_kind = node;
  generation_changed = false;
  all_nodes_on = pod ∷ persistent_volume_claim ∷ event ∷ deployment ∷ [];
  name = none;
  health_store = some store;
}

-- SetupWithManager of RancherSessionReconciler
unfoldable pub rancher_session_controller : Registration
rancher_session_controller = record {
  for_kind = rancher_session;
  generation_changed = false;
  all_nodes_on = [];
  name = some "ranchersession";
  health_store = none;
}

-- What main asks of the libraries. `new_manager` comes with the arrays of the TLS options.
pub data Request : Type 0 where
  add_kubernetes_types add_losant_types get_config start : Request
  watch_certificate : CertWatcher → Request
  new_manager : TlsOptions → ManagerOptions → Request
  set_up : Registration → Request
  add_trigger_server : String → String → Request
  add_watcher : CertWatcher → Request
  add_healthz_check add_readyz_check : String → Request

-- A request, with its result.
pub data Call : Type 0 where
  made : Request → Fallible (Unit {0}) → Call

-- The command line after flag.Parse, which ends the process itself on a wrong one.
pub data Parsed : Type 0 where
  parsed : Flags → Parsed
  exits : ℕ → Parsed

-- `parse_flags` is flag.Parse from the defaults, `perform` what the libraries do on a request,
-- `join` filepath.Join, `health_store` the address of the HealthStore that is made, and `grow`
-- the capacity of the array that append makes.
pub record Env (W : Type 0) : Type 0 where
  pub parse_flags : Flags → Parsed
  pub perform : Request → W → Fallible (Unit {0}) × W
  pub join : String → String → String
  pub health_store : ℕ
  pub grow : ℕ → ℕ
