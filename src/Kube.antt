-- ===== src/Kube.antt =====
-- The Kubernetes API as the operator uses it: the objects' fields that it reads or writes, and
-- the calls of controller-runtime's client.Client. These are parameters; only their types
-- stand here. An update leaves the caller's object as it was sent (the server's metadata,
-- which it refreshes, is never read).
use losant_device.Prelude.{String, Bool, List, Assoc}
use losant_device.Prelude.Int.{ℤ}
use losant_device.Go.{Fallible, Time}
use losant_device.Api.{SecretRef, Condition}
use losant_device.Api.LosantSync.{LosantSync}
use losant_device.Api.RancherSession.{RancherSession}

pub record Secret : Type 0 where
  pub name : String
  pub namespace : String
  pub data_map : Assoc String

-- `annotations` are those of the pod template.
pub record Deployment : Type 0 where
  pub name : String
  pub namespace : String
  pub annotations : Assoc String
  pub available_replicas : ℤ

-- One document of a Rancher import manifest.
pub record Manifest : Type 0 where
  pub kind : String
  pub namespace : String
  pub name : String
  pub body : String

pub record Kube (W : Type 0) : Type 0 where
  pub get_losant_sync : String → W → Fallible LosantSync × W
  pub list_losant_syncs : W → Fallible (List LosantSync) × W
  pub update_losant_sync : LosantSync → W → Fallible (Unit {0}) × W
  pub update_losant_sync_status : LosantSync → W → Fallible (Unit {0}) × W
  pub get_rancher_session : SecretRef → W → Fallible RancherSession × W
  pub create_rancher_session : RancherSession → W → Fallible (Unit {0}) × W
  pub delete_rancher_session : RancherSession → W → Fallible (Unit {0}) × W
  pub update_rancher_session : RancherSession → W → Fallible (Unit {0}) × W
  pub update_rancher_session_status : RancherSession → W → Fallible (Unit {0}) × W
  pub get_secret : SecretRef → W → Fallible Secret × W
  pub create_secret : Secret → W → Fallible (Unit {0}) × W
  pub update_secret : Secret → W → Fallible (Unit {0}) × W
  pub get_deployment : SecretRef → W → Fallible Deployment × W
  pub patch_deployment : Deployment → W → Fallible (Unit {0}) × W
  pub delete_namespace : String → W → Fallible (Unit {0}) × W
  pub apply_object : Manifest → W → Fallible (Unit {0}) × W
  -- time.Now()
  pub now : W → Time × W

-- The helpers of apimeta and controllerutil that work on an object in memory.
pub record Meta : Type 0 where
  -- apimeta.SetStatusCondition and apimeta.IsStatusConditionTrue
  pub set_status_condition : Condition → List Condition → List Condition
  pub is_status_condition_true : List Condition → String → Bool
  -- controllerutil.AddFinalizer: whether it was added, and the finalizers after it
  pub add_finalizer : String → List String → Bool × List String
  pub contains_finalizer : String → List String → Bool
  pub remove_finalizer : String → List String → List String
