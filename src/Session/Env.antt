-- ===== src/Session/Env.antt =====
-- What the RancherSession controller calls, the trace of its calls, and its constants.
use losant_device.Prelude.{String, ◌*◌, ◌^◌, Bool, List, Option}
use losant_device.Prelude.Int.{ℤ, pos}
use losant_device.Go.{GoError, Fallible, Duration}
use losant_device.Exec.{Exec, Outcome}
use losant_device.Kube.{Kube, Meta, Manifest, Secret}
use losant_device.Api.RancherSession.{RancherSession}
use losant_device.Rancher.{RancherClient}

-- What came back for the manifest's URL.
pub data Fetched : Type 0 where
  bad_request no_response : GoError → Fetched
  response : ℤ → Fallible String → Fetched

-- `rancher_client` is the reconciler's injected client. `new_http_client` is
-- rancher.NewHTTPClient; `fetch` is the HTTP client that trusts the given CA; `decode` gives
-- what a decoder's Decode returns over a text, one result a document, up to io.EOF.
pub record Env (W : Type 0) : Type 0 where
  pub kube : Kube W
  pub meta : Meta
  pub rancher_client : Option (RancherClient W)
  pub new_http_client : Secret → Fallible (RancherClient W)
  pub fetch : String → String → W → Fetched × W
  pub decode : String → List (Fallible Manifest)

-- A write to Kubernetes or a call of Rancher, with its result.
pub data Call : Type 0 where
  session_updated : RancherSession → Fallible (Unit {0}) → Call
  status_updated : RancherSession → Fallible (Unit {0}) → Call
  cluster_sought : String → Fallible (String × Bool) → Call
  cluster_created : String → Fallible String → Call
  token_read : String → Fallible String → Call
  cluster_read : String → Fallible (Unit {0}) → Call
  cluster_deleted : String → Fallible (Unit {0}) → Call
  namespace_deleted : String → Fallible (Unit {0}) → Call
  manifest_fetched : String → Fetched → Call
  object_applied : Manifest → Fallible (Unit {0}) → Call

-- A function that returns what `Reconcile` returns.
abbrev pub Handler : Type 0 → Type 0
Handler W = Exec W Call Outcome Outcome

-- A value of the interface type RancherClient: Go tells a nil interface from one that holds a
-- nil pointer, and a method of the latter reads a field through it.
pub data Handle (W : Type 0) : Type 0 where
  nil_interface nil_pointer : Handle W
  client : RancherClient W → Handle W

abbrev pub rancher_finalizer : String
rancher_finalizer = "losant.io/rancher-cleanup"

abbrev pub cattle_system_namespace : String
cattle_system_namespace = "cattle-system"

abbrev pub cattle_agent_deployment : String
cattle_agent_deployment = "cattle-cluster-agent"

abbrev pub second : Duration
second = pos (10 ^ 9)

abbrev pub agent_poll_interval : Duration
agent_poll_interval = pos (5 * 10 ^ 9)

abbrev pub agent_ready_timeout : Duration
agent_ready_timeout = pos (120 * 10 ^ 9)

abbrev pub rancher_error_requeue_wait : Duration
rancher_error_requeue_wait = pos (30 * 10 ^ 9)

abbrev pub api_reachable : String
api_reachable = "RancherAPIReachable"
