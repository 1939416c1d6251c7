-- ===== src/Api/RancherSession.antt =====
-- api/v1alpha1/ranchersession_types.go, with the fields of metav1.ObjectMeta that the operator
-- reads or writes.
use losant_device.Prelude.{String, ℕ, Bool, Option, List}
use losant_device.Prelude.Int.{ℤ}
use losant_device.Go.{Time}
use losant_device.Api.{SecretRef, Condition}

-- `unset` is the empty string; a string that no constant names is `other`.
pub data RancherSessionPhase : Type 0 where
  unset connecting connected disconnecting disconnected failed : RancherSessionPhase
  other : String → RancherSessionPhase

pub record RancherSessionSpec : Type 0 where
  pub credentials_secret_ref : SecretRef
  pub cluster_display_name : String
  pub ttl_seconds : ℤ
  pub suspend : Bool

pub record RancherSessionStatus : Type 0 where
  pub phase : RancherSessionPhase
  pub rancher_cluster_id : String
  pub manifest_applied : Bool
  pub connected_at : Option Time
  pub expires_at : Option Time
  pub conditions : List Condition
  pub last_transition_message : String

pub record RancherSession : Type 0 where
  pub name : String
  pub namespace : String
  pub generation : ℕ
  pub deletion_timestamp : Option Time
  pub finalizers : List String
  pub spec : RancherSessionSpec
  pub status : RancherSessionStatus
