-- ===== src/Api.antt =====
-- What the two custom resources share (api/v1alpha1), and the status conditions of
-- apimachinery in the fields that the operator sets.
pub mod LosantSync
pub mod RancherSession
use losant_device.Prelude.{String, ℕ}

-- SecretRef, and types.NamespacedName.
pub record SecretRef : Type 0 where
  pub name : String
  pub namespace : String

pub data ConditionStatus : Type 0 where
  condition_true condition_false : ConditionStatus

-- metav1.Condition. The transition time is the library's.
pub record Condition : Type 0 where
  pub type_name : String
  pub status : ConditionStatus
  pub observed_generation : ℕ
  pub reason : String
  pub message : String
