-- ===== src/Examples.antt =====
-- Concrete environments, and the theorems at concrete inputs.
mod Session
mod Monitor
mod Sync
mod Trigger
mod Clients
mod Polling
mod LostCluster
mod Watched
mod Manager
mod Lifecycle
mod Locking
use losant_device.Prelude.{ℕ, ◌+◌, String, Bool, true, false, Option, none, some, List, [], ◌∷◌}
use losant_device.Prelude.Int.{ℤ, pos}
use losant_device.Go.{GoError, Fallible, ok, err, new_error, Time}
use losant_device.Api.{SecretRef, Condition}
use losant_device.Api.LosantSync.{LosantSync, GeaSpec, ClusterTags, active}
use losant_device.Api.LosantSync
use losant_device.Api.RancherSession.{RancherSession, RancherSessionPhase}
use losant_device.Kube.{Kube, Meta, Secret, Deployment, Manifest}

-- A world that is a clock: each reading advances it by one nanosecond.
abbrev pub tick : ℕ → Time × ℕ
tick w = (pos w, w + 1)

abbrev pub done : ℕ → Fallible (Unit {0}) × ℕ
done w = (ok tt, w)

abbrev pub refused : GoError
refused = new_error "refused"

abbrev pub secret_ref : SecretRef
secret_ref = record { name = "credentials"; namespace = "losant" }

abbrev pub demo_secret : Secret
demo_secret = record {
  name = "credentials";
  namespace = "losant";
  data_map = ("DEVICE_ID", "device-1") ∷ ("ACCESS_KEY", "key") ∷ ("ACCESS_SECRET", "secret") ∷ [];
}

abbrev pub session_in : RancherSessionPhase → Option Time → RancherSession
session_in p deletion = record {
  name = "session";
  namespace = "losant";
  generation = 1;
  deletion_timestamp = deletion;
  finalizers = "losant.io/rancher-cleanup" ∷ [];
  spec = record {
    credentials_secret_ref = secret_ref;
    cluster_display_name = "edge";
    ttl_seconds = pos 60;
    suspend = false;
  };
  status = record {
    phase = p;
    rancher_cluster_id = "c-1";
    manifest_applied = false;
    connected_at = none;
    expires_at = some (pos 100);
    conditions = [];
    last_transition_message = "";
  };
}

abbrev pub sync_in : LosantSync.LosantSyncPhase → Option Time → LosantSync
sync_in p deletion = record {
  name = "sync";
  generation = 1;
  deletion_timestamp = deletion;
  finalizers = "losant.io/device-cleanup" ∷ [];
  spec = record {
    application_id = "app";
    provisioning_secret_ref = secret_ref;
    cluster_name = "edge";
    region = "";
    rancher_url = "";
    cron_schedule = "";
    interval = "5m";
    gea = record { service_ref = "gea"; port = pos 8080; deployment_ref = "" };
    device_recipe_id = "";
    workflow_deployments = record { flow_id = "flow"; version = "v2" } ∷ [];
    tags = record { manager = ""; uid = ""; gps = "" };
    suspend = false;
  };
  status = record {
    phase = p;
    conditions = [];
    cluster_device_id = "device-1";
    node_devices = ("node-a", "device-2") ∷ [];
    last_sync_time = none;
    next_scheduled_time = some (pos 50);
  };
}

abbrev pub demo_meta : Meta
demo_meta = record {
  set_status_condition = λ c conditions. c ∷ conditions;
  is_status_condition_true = λ conditions t. false;
  add_finalizer =
      λ f finalizers. elim finalizers [ [] ↦ (true, f ∷ []) | g ∷ gs ↦ (false, g ∷ gs) ];
  contains_finalizer = λ f finalizers. elim finalizers [ [] ↦ false | _ ∷ _ ↦ true ];
  remove_finalizer = λ f finalizers. [];
}

-- A cluster that holds one object of each kind and accepts every write.
abbrev pub demo_kube : RancherSession → LosantSync → Kube ℕ
demo_kube rs ls = record {
  get_losant_sync = λ name w. (ok ls, w);
  list_losant_syncs = λ w. (ok (ls ∷ []), w);
  update_losant_sync = λ o. done;
  update_losant_sync_status = λ o. done;
  get_rancher_session = λ r w. (ok rs, w);
  create_rancher_session = λ o. done;
  delete_rancher_session = λ o. done;
  update_rancher_session = λ o. done;
  update_rancher_session_status = λ o. done;
  get_secret = λ r w. (ok demo_secret, w);
  create_secret = λ o. done;
  update_secret = λ o. done;
  get_deployment = λ r w. (err refused, w);
  patch_deployment = λ o. done;
  delete_namespace = λ n. done;
  apply_object = λ m. done;
  now = tick;
}
