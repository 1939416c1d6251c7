-- ===== src/Sync/Ended.antt =====
-- Each part of a sync goes on or ends it, and so a sync always ends.
use losant_device.Prelude.{
  String, ◌≡◌, refl, Bool, true, List, [], ◌∷◌, Assoc, lookup, get_or, arith, Bool-cases,
  Option-cases, inl, inr,
}
use losant_device.Go.{Fallible, ok, err, is_empty}
use losant_device.Exec.{Sys, returned}
use losant_device.Api.LosantSync.{LosantSync, WorkflowDeployment}
use losant_device.Losant.{
  Call, LosantClient, GeaClient, EdgeDeploymentStatus, state_reported, node_ensured,
}
use losant_device.Monitor.{NodeHealth, ClusterHealth}
use losant_device.Provisioner.{bootstrap}
use losant_device.Sync.{
  Env, set_condition, devices_provisioned, gea_reachable, gea_bootstrapped, workflow_deployed,
}
use losant_device.Sync.Schedule.{next_schedule_and_duration, set_degraded}
use losant_device.Sync.Workflows.{
  WorkflowResult, release_workflows, after_deployments, ensure_workflow_deployments, by_flow_id,
}
use losant_device.Sync.Devices.{ensure_node_devices, with_node_device}
use losant_device.Sync.Report.{report_nodes, cluster_payload}
use losant_device.Sync.Steps.{finish_sync, report_cluster, after_workflows, ensure_bootstrapped}
use losant_device.Sync.Settled.{
  Settled, Settles, runs, Settles-stopped, Settles-returned, continue-Settles, continue-Settled,
  value-Settles, value-Settled, set_degraded-Settled, mark_active-Settled, bootstrap-runs,
}

module _ {W F : Type 0} (env : Env W F) (gc : GeaClient W F) where
  report_nodes-Settles :
      (ls : LosantSync) (nodes : Assoc (NodeHealth F)) (s : Sys W (Call F))
      → Settles (report_nodes gc ls nodes s).0 (report_nodes gc ls nodes s).1.trace
  unfolding report_nodes
  report_nodes-Settles ls [] s = tt
  report_nodes-Settles ls ((node, h) ∷ nodes) s =
      let id = get_or "" (lookup node ls.status.node_devices) in
      elim (Bool-cases (is_empty id)) [
        | inl e ↦ rw (e, report_nodes) (report_nodes-Settles ls nodes s)
        | inr n ↦ rw (n, report_nodes) (report_nodes-Settles ls nodes _)
      ]

  finish_sync-Settled :
      (ls : LosantSync) (nodes : Assoc (NodeHealth F)) (s : Sys W (Call F))
      → Settled (finish_sync env gc ls nodes s).0 (finish_sync env gc ls nodes s).1.trace
  unfolding finish_sync next_schedule_and_duration
  finish_sync-Settled ls nodes s =
      let m = report_nodes gc ls nodes s in
      continue-Settled m.0 _ m.1 (report_nodes-Settles ls nodes s)
        (λ _. grind (arith, set_degraded-Settled env ls, mark_active-Settled env ls))

  pub report_cluster-Settled :
      (ls : LosantSync) (id : String) (cluster : ClusterHealth) (nodes : Assoc (NodeHealth F))
      (s : Sys W (Call F))
      → Settled
          (report_cluster env gc ls id cluster nodes s).0
          (report_cluster env gc ls id cluster nodes s).1.trace
  unfolding report_cluster set_condition
  report_cluster-Settled ls id cluster nodes s =
      let r = gc.report_state (cluster_payload id cluster) s.world in
      let s1 : Sys W (Call F) = record {
        world = r.1;
        trace = state_reported (cluster_payload id cluster) r.0 ∷ s.trace;
      } in
      value-Settled r.0 _ _ s1 (λ e. set_degraded-Settled env ls gea_reachable _ _ s1)
        (λ _. finish_sync-Settled _ nodes s1)

module _ {W F : Type 0} (env : Env W F) (lc : LosantClient W) where
  release_workflows-runs :
      (ls : LosantSync) (m : Assoc EdgeDeploymentStatus) (wds : List WorkflowDeployment) (b : Bool)
      (s : Sys W (Call F))
      → runs (release_workflows lc ls m wds b s).0 ≡ true
  unfolding release_workflows
  release_workflows-runs ls m [] b s = refl
  release_workflows-runs ls m (wd ∷ rest) b s = grind (arith, release_workflows-runs ls m rest)

  after_deployments-runs :
      (ls : LosantSync) (r : Fallible (List EdgeDeploymentStatus)) (s : Sys W (Call F))
      → runs (after_deployments lc ls r s).0 ≡ true
  unfolding after_deployments
  after_deployments-runs ls (ok ds) s =
      release_workflows-runs ls (by_flow_id ds []) ls.spec.workflow_deployments true s
  after_deployments-runs ls (err e) s = refl

  pub workflows-runs :
      (ls : LosantSync) (s : Sys W (Call F)) → runs (ensure_workflow_deployments lc ls s).0 ≡ true
  unfolding ensure_workflow_deployments
  workflows-runs ls s = grind (arith, after_deployments-runs ls)

  pub after_workflows-Settles :
      (ls : LosantSync) (wf : WorkflowResult) (s : Sys W (Call F))
      → Settles (after_workflows env ls wf s).0 (after_workflows env ls wf s).1.trace
  unfolding after_workflows set_condition
  after_workflows-Settles ls wf s = elim (Option-cases wf.error) [
    | inl e ↦ rw (e, after_workflows) tt
    | inr (_, e) ↦
        let m = set_degraded env ls workflow_deployed wf.reason wf.message s in
        rw (e, after_workflows)
          (Settles-stopped LosantSync m.0 m.1.trace
            (set_degraded-Settled env ls workflow_deployed wf.reason wf.message s))
  ]

  pub ensure_node_devices-Settles :
      (id : String) (nodes : Assoc (NodeHealth F)) (ls : LosantSync) (s : Sys W (Call F))
      → Settles
          (ensure_node_devices env lc id nodes ls s).0
          (ensure_node_devices env lc id nodes ls s).1.trace
  unfolding ensure_node_devices
  ensure_node_devices-Settles id [] ls s = tt
  ensure_node_devices-Settles id ((node, nh) ∷ nodes) ls s =
      let r = lc.ensure_node_device ls.spec node id s.world in
      let s1 : Sys W (Call F) = record { world = r.1; trace = node_ensured node r.0 ∷ s.trace } in
      value-Settles r.0 _ _ s1 (λ e. set_degraded-Settled env ls devices_provisioned _ _ s1)
        (λ device. ensure_node_devices-Settles id nodes (with_node_device ls node device) s1)

  pub ensure_bootstrapped-Settles :
      (id : String) (ls : LosantSync) (s : Sys W (Call F))
      → Settles (ensure_bootstrapped env lc ls id s).0 (ensure_bootstrapped env lc ls id s).1.trace
  unfolding ensure_bootstrapped set_condition
  ensure_bootstrapped-Settles id ls s =
      let m = bootstrap env.kube env.clock lc ls id s in
      elim (Bool-cases (env.meta.is_status_condition_true ls.status.conditions gea_bootstrapped)) [
        | inl e ↦ rw (e, ensure_bootstrapped) tt
        | inr n ↦
            rw (n, ensure_bootstrapped)
              (continue-Settles (returned m.0) _ m.1
                (Settles-returned m.0 m.1.trace (bootstrap-runs env.kube env.clock lc ls id s))
                λ done.
                  value-Settles done _ _ m.1
                    (λ e. set_degraded-Settled env ls gea_bootstrapped _ _ m.1) (λ _. tt))
      ]
