-- ===== src/Api/LosantSync.antt =====
-- api/v1alpha1/losantsync_types.go, with the fields of metav1.ObjectMeta that the operator reads
-- or writes.
use losant_device.Prelude.{String, ℕ, Bool, Option, List, Assoc}
use losant_device.Prelude.Int.{ℤ}
use losant_device.Go.{Time}
use losant_device.Api.{SecretRef, Condition}

-- `unset` is the empty string; a string that no constant names is `other`.
pub data LosantSyncPhase : Type 0 where
  unset provisioning active degraded suspended : LosantSyncPhase
  other : String → LosantSyncPhase

pub record WorkflowDeployment : Type 0 where
  pub flow_id : String
  pub version : String

pub record ClusterTags : Type 0 where
  pub manager : String
  pub uid : String
  pub gps : String

pub record GeaSpec : Type 0 where
  pub service_ref : String
  pub port : ℤ
  pub deployment_ref : String

pub record LosantSyncSpec : Type 0 where
  pub application_id : String
  pub provisioning_secret_ref : SecretRef
  pub cluster_name : String
  pub region : String
  pub rancher_url : String
  pub cron_schedule : String
  pub interval : String
  pub gea : GeaSpec
  pub device_recipe_id : String
  pub workflow_deployments : List WorkflowDeployment
  pub tags : ClusterTags
  pub suspend : Bool

-- A nil `node_devices` map is read like an empty one, and the code makes it before it writes.
pub record LosantSyncStatus : Type 0 where
  pub phase : LosantSyncPhase
  pub conditions : List Condition
  pub cluster_device_id : String
  pub node_devices : Assoc String
  pub last_sync_time : Option Time
  pub next_scheduled_time : Option Time

pub record LosantSync : Type 0 where
  pub name : String
  pub generation : ℕ
  pub deletion_timestamp : Option Time
  pub finalizers : List String
  pub spec : LosantSyncSpec
  pub status : LosantSyncStatus
