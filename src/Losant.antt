-- ===== src/Losant.antt =====
-- The interfaces LosantClient (internal/losant/client.go) and GEAClient (internal/gea/client.go),
-- and the trace of the calls that the LosantSync controller makes. `F` is Go's float64.
pub mod Devices
pub mod Request
pub mod Client
pub mod Registry
pub mod Ensure
pub mod NotFound
pub mod Shared
pub mod Gea
use losant_device.Prelude.{String, Bool, List, Assoc, Option}
use losant_device.Prelude.Int.{ℤ}
use losant_device.Go.{Fallible, Time}
use losant_device.Kube.{Secret, Deployment}
use losant_device.Api.LosantSync.{LosantSync, LosantSyncSpec}

pub record EdgeDeploymentStatus : Type 0 where
  pub flow_id : String
  pub current_version : String
  pub desired_version : String

pub record Tag : Type 0 where
  pub key : String
  pub value : String

pub record Device : Type 0 where
  pub device_id : String
  pub name : String
  pub tags : List Tag

pub record DeviceAttribute : Type 0 where
  pub name : String
  pub data_type : String

pub record LosantClient (W : Type 0) : Type 0 where
  pub ping : W → Fallible (Unit {0}) × W
  pub ensure_cluster_device : LosantSyncSpec → W → Fallible String × W
  -- the node's name and the gateway's device ID
  pub ensure_node_device : LosantSyncSpec → String → String → W → Fallible String × W
  -- application ID, device ID, name; the key's ID, the key and the secret
  pub create_device_access_key :
      String → String → String → W → Fallible (String × String × String) × W
  pub delete_device : String → String → W → Fallible (Unit {0}) × W
  -- application ID, device ID, flow ID, version
  pub release_workflow : String → String → String → String → W → Fallible (Unit {0}) × W
  pub get_edge_deployments : String → String → W → Fallible (List EdgeDeploymentStatus) × W

-- A value of an attribute map.
pub data Value (F : Type 0) : Type 0 where
  number : ℤ → Value F
  text : String → Value F
  boolean : Bool → Value F
  float : F → Value F

pub record StatePayload (F : Type 0) : Type 0 where
  pub device_id : String
  pub attributes : Assoc (Value F)
  pub timestamp : Option Time

pub record GeaClient (W F : Type 0) : Type 0 where
  pub report_state : StatePayload F → W → Fallible (Unit {0}) × W

-- A write to Kubernetes, or a call of Losant or the GEA, with its result.
pub data Call (F : Type 0) : Type 0 where
  sync_updated : LosantSync → Fallible (Unit {0}) → Call F
  status_updated : LosantSync → Fallible (Unit {0}) → Call F
  secret_created : Secret → Fallible (Unit {0}) → Call F
  secret_updated : Secret → Fallible (Unit {0}) → Call F
  deployment_patched : Deployment → Fallible (Unit {0}) → Call F
  pinged : Fallible (Unit {0}) → Call F
  cluster_ensured : Fallible String → Call F
  node_ensured : String → Fallible String → Call F
  key_created : String → Fallible (String × String × String) → Call F
  device_deleted : String → Fallible (Unit {0}) → Call F
  workflow_released : String → String → Fallible (Unit {0}) → Call F
  deployments_read : Fallible (List EdgeDeploymentStatus) → Call F
  state_reported : StatePayload F → Fallible (Unit {0}) → Call F
