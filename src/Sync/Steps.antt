-- ===== src/Sync/Steps.antt =====
-- The nine steps of a sync, in Reconcile of the LosantSync controller.
use losant_device.Prelude.{String, none, some, [], Assoc, if◌then◌else◌}
use losant_device.Prelude.Int.{◌-ℤ◌}
use losant_device.Go.{Time, is_empty}
use losant_device.Exec.{
  ◌>>=◌, ◌>>◌, call, read, value, pure, return_of, scope, finished, failed, requeue_in,
}
use losant_device.Api.{condition_true}
use losant_device.Api.LosantSync.{LosantSync, active}
use losant_device.Losant.{
  LosantClient, GeaClient, status_updated, pinged, cluster_ensured, state_reported,
}
use losant_device.Monitor.{NodeHealth, ClusterHealth}
use losant_device.Monitor.Store.{empty_cluster}
use losant_device.Provisioner.{bootstrap}
use losant_device.Sync.{
  Env, Handler, Part, set_condition, last_sync_succeeded, devices_provisioned, gea_bootstrapped,
  gea_reachable, workflow_deployed,
}
use losant_device.Sync.Schedule.{next_schedule_and_duration, set_degraded}
use losant_device.Sync.Workflows.{WorkflowResult, ensure_workflow_deployments}
use losant_device.Sync.Devices.{ensure_node_devices, losant_client_of}
use losant_device.Sync.Report.{cluster_payload, report_nodes}

module _ {W F : Type 0} (env : Env W F) where
  -- r.Status().Update(ctx, &ls), whose error ends the reconcile
  unfoldable pub update_status_then : LosantSync → Handler W F → Handler W F
  update_status_then ls rest = do
    written ← call (status_updated ls) (env.kube.update_losant_sync_status ls)
    value written (λ e. pure (failed e))
    rest

  -- healthSnapshot
  unfoldable pub health_snapshot : Part W F (ClusterHealth × Assoc (NodeHealth F))
  health_snapshot = elim env.health_store [
    | none ↦ pure (empty_cluster, [])
    | some snapshot ↦ read snapshot
  ]

  -- Step 9, and the wait, for which the clock is read again
  unfoldable pub mark_active : LosantSync → Time → Handler W F
  unfolding update_status_then set_condition
  mark_active ls next = do
    now ← read env.kube.now
    let ls = record ls {
      status = record ls.status {
        last_sync_time = some now;
        next_scheduled_time = some next;
        phase = active;
      };
    }
    let ls =
        set_condition env.meta ls last_sync_succeeded condition_true "SyncComplete"
          "sync completed successfully"
    update_status_then ls
        (do later ← read env.kube.now; pure (finished (requeue_in (next -ℤ later))))

  -- Steps 7 to 9
  unfoldable pub finish_sync : GeaClient W F → LosantSync → Assoc (NodeHealth F) → Handler W F
  unfolding mark_active set_degraded
  finish_sync gc ls nodes = do
    report_nodes gc ls nodes
    scheduled ← next_schedule_and_duration env ls.spec
    (next, _) ←
        value scheduled (λ e. set_degraded env ls last_sync_succeeded "ScheduleError" e.text)
    mark_active ls next

  -- Step 6
  unfoldable pub report_cluster :
      GeaClient W F → LosantSync → String → ClusterHealth → Assoc (NodeHealth F) → Handler W F
  unfolding finish_sync set_degraded set_condition
  report_cluster gc ls cluster_id cluster nodes = do
    reported ←
        call (state_reported (cluster_payload cluster_id cluster))
          (gc.report_state (cluster_payload cluster_id cluster))
    value reported (λ e. set_degraded env ls gea_reachable "GEAUnreachable" e.text)
    finish_sync gc
        (set_condition env.meta ls gea_reachable condition_true "Reachable"
          "GEA accepted cluster state")
        nodes

  -- what the workflows' result does to the object, or to the reconcile
  unfoldable pub after_workflows : LosantSync → WorkflowResult → Part W F LosantSync
  unfolding set_degraded set_condition
  after_workflows ls wf = elim wf.error [
    | some _ ↦ return_of (set_degraded env ls workflow_deployed wf.reason wf.message)
    | none ↦ pure (
        if is_empty wf.reason
        then ls
        else set_condition env.meta ls workflow_deployed condition_true wf.reason wf.message)
  ]

  -- Steps 5 and 5b, and the rest
  unfoldable pub sync_devices :
      LosantClient W
      → GeaClient W F
      → LosantSync
      → String
      → ClusterHealth × Assoc (NodeHealth F)
      → Handler W F
  unfolding set_condition after_workflows report_cluster
  sync_devices lc gc ls cluster_id (cluster, nodes) = do
    ls ← ensure_node_devices env lc cluster_id nodes ls
    let ls =
        set_condition env.meta ls devices_provisioned condition_true "Provisioned"
          "all devices confirmed in Losant"
    wf ← scope (ensure_workflow_deployments lc ls)
    ls ← after_workflows ls wf
    report_cluster gc ls cluster_id cluster nodes

  -- Step 4.5
  unfoldable pub ensure_bootstrapped : LosantClient W → LosantSync → String → Part W F LosantSync
  unfolding set_degraded set_condition
  ensure_bootstrapped lc ls cluster_id =
      if env.meta.is_status_condition_true ls.status.conditions gea_bootstrapped
      then pure ls
      else (do
        done ← scope (bootstrap env.kube env.clock lc ls cluster_id)
        value done (λ e. set_degraded env ls gea_bootstrapped "BootstrapFailed" e.text)
        pure (
            set_condition env.meta ls gea_bootstrapped condition_true "BootstrapComplete"
              "GEA credentials provisioned"))

  -- Steps 3 and 4, and the rest
  unfoldable pub sync_cluster : LosantClient W → GeaClient W F → LosantSync → Handler W F
  unfolding set_degraded ensure_bootstrapped sync_devices health_snapshot
  sync_cluster lc gc ls = do
    answered ← call pinged lc.ping
    value answered (λ e. set_degraded env ls last_sync_succeeded "LosantUnreachable" e.text)
    ensured ← call cluster_ensured (lc.ensure_cluster_device ls.spec)
    cluster_id ←
        value ensured (λ e. set_degraded env ls devices_provisioned "ClusterDeviceError" e.text)
    ls ←
        ensure_bootstrapped lc
          (record ls { status = record ls.status { cluster_device_id = cluster_id } }) cluster_id
    snapshot ← health_snapshot
    sync_devices lc gc ls cluster_id snapshot

  -- the injected client, or one for the spec
  abbrev pub gea_client_of : LosantSync → GeaClient W F
  gea_client_of ls = elim env.gea_client [ some gc ↦ gc | none ↦ env.new_gea_client ls.spec.gea ]

  -- Steps 1 and 2, and the rest
  unfoldable pub sync : LosantSync → Handler W F
  unfolding set_degraded sync_cluster
  sync ls = do
    found ← read (env.kube.get_secret ls.spec.provisioning_secret_ref)
    secret ← value found (λ e. set_degraded env ls last_sync_succeeded "SecretNotFound" e.text)
    lc ←
        value (losant_client_of env secret ls)
          (λ e. set_degraded env ls last_sync_succeeded "InvalidSecret" e.text)
    sync_cluster lc (gea_client_of ls) ls
