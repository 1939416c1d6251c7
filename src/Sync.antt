-- ===== src/Sync.antt =====
-- internal/controller/losantsync_controller.go: the LosantSync controller, its environment and
-- the condition helper. The children hold its handlers.
pub mod Schedule
pub mod Workflows
pub mod Devices
pub mod Report
pub mod Steps
pub mod Reconcile
pub mod Backed
pub mod Ready
pub mod Active
pub mod Deletion
pub mod Deferred
pub mod Settled
pub mod Ended
pub mod Due
pub mod Gone
pub mod Stalled
pub mod Reported
pub mod Typed
pub mod Watched
use losant_device.Prelude.{String, Option, Assoc}
use losant_device.Go.{Fallible, Time, Duration}
use losant_device.Exec.{Exec, Outcome}
use losant_device.Kube.{Kube, Meta, Secret}
use losant_device.Api.{ConditionStatus}
use losant_device.Api.LosantSync.{LosantSync, GeaSpec}
use losant_device.Losant.{LosantClient, GeaClient, Call}
use losant_device.Monitor.{NodeHealth, ClusterHealth}
use losant_device.Provisioner.{Clock}

-- `losant_client`, `gea_client` and `health_store` are the reconciler's fields, `none` where they
-- are nil; the store is given by its Snapshot, whose map stands in the order in which Go's
-- `range` visits it. `parse_cron` is the cron parser's Parse, with the schedule's Next;
-- `parse_duration` is time.ParseDuration; `quote` is fmt's %q.
pub record Env (W F : Type 0) : Type 0 where
  pub kube : Kube W
  pub meta : Meta
  pub clock : Clock
  pub losant_client : Option (LosantClient W)
  pub new_losant_client : Secret → String → Fallible (LosantClient W)
  pub gea_client : Option (GeaClient W F)
  pub new_gea_client : GeaSpec → GeaClient W F
  pub health_store : Option (W → (ClusterHealth × Assoc (NodeHealth F)) × W)
  pub parse_cron : String → Fallible (Time → Time)
  pub parse_duration : String → Fallible Duration
  pub quote : String → String

-- A function that returns what `Reconcile` returns.
abbrev pub Handler : Type 0 → Type 0 → Type 0
Handler W F = Exec W (Call F) Outcome Outcome

-- A part of such a function, which goes on with a value.
abbrev pub Part : Type 0 → Type 0 → Type 0 → Type 0
Part W F A = Exec W (Call F) Outcome A

abbrev pub device_finalizer : String
device_finalizer = "losant.io/device-cleanup"

abbrev pub last_sync_succeeded : String
last_sync_succeeded = "LastSyncSucceeded"

abbrev pub devices_provisioned : String
devices_provisioned = "DevicesProvisioned"

abbrev pub gea_bootstrapped : String
gea_bootstrapped = "GEABootstrapped"

abbrev pub gea_reachable : String
gea_reachable = "GEAReachable"

abbrev pub workflow_deployed : String
workflow_deployed = "WorkflowDeployed"

-- setCondition
unfoldable pub set_condition :
    Meta → LosantSync → String → ConditionStatus → String → String → LosantSync
set_condition meta ls type_name status reason message = record ls {
  status = record ls.status {
    conditions =
        meta.set_status_condition
          (record {
            type_name = type_name;
            status = status;
            observed_generation = ls.generation;
            reason = reason;
            message = message;
          })
          ls.status.conditions;
  };
}
