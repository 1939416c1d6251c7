-- ===== src/Sync/Reported.antt =====
-- What holds of each report that a reconcile sends, from what holds of the snapshot.
use losant_device.Go.{Time}
use losant_device.Prelude.{
  refl, ◌≡◌, String, Bool-cases, inl, inr, List, [], ◌∷◌, Assoc, arith, none, some, Bool, Option,
  Option-cases,
}
use losant_device.Exec.{Sys, value_keeps, next, returned, continue_keeps}
use losant_device.Api.LosantSync.{LosantSync, LosantSyncPhase, WorkflowDeployment}
use losant_device.Losant.{
  StatePayload, GeaClient, Call, LosantClient, EdgeDeploymentStatus, pinged, cluster_ensured,
  node_ensured,
}
use losant_device.Monitor.{NodeHealth, ClusterHealth}
use losant_device.Sync.{Env, gea_bootstrapped}
use losant_device.Sync.Steps.{
  update_status_then, after_workflows, ensure_bootstrapped, sync_devices, sync_cluster,
  health_snapshot, sync, gea_client_of,
}
use losant_device.Monitor.Store.{empty_cluster}
use losant_device.Sync.Report.Sent.{
  AllReports, IsReportable, set_degraded-AllReports, report_cluster-AllReports,
}
use losant_device.Provisioner.{
  Clock, bootstrap, write_credentials, restart_deployment, ensure_credential_placeholder,
}
use losant_device.Kube.{Kube}
use losant_device.Sync.Workflows.{
  WorkflowResult, release_workflows, after_deployments, ensure_workflow_deployments,
}
use losant_device.Sync.Devices.{
  with_node_device, ensure_node_devices, delete_devices, delete_cluster_device, release_finalizer,
  delete_all, handle_deletion, losant_client_of,
}
use losant_device.Sync.Reconcile.{sync_if_due, reconcile_sync, reconcile, first_reconcile, suspend}

-- What healthSnapshot gives in this world.
abbrev pub monitored : {W F : Type 0} → Env W F → W → ClusterHealth × Assoc (NodeHealth F)
monitored env w = elim env.health_store [
  | none ↦ (empty_cluster, [])
  | some snapshot ↦ (snapshot w).0
]

module _ {W F : Type 0} (P : StatePayload F → Type 0) (env : Env W F) (lc : LosantClient W) where
  ensure_node_devices-AllReports :
      (id : String) (nodes : Assoc (NodeHealth F)) (ls : LosantSync) (s : Sys W (Call F))
      → AllReports P s.trace
      → AllReports P (ensure_node_devices env lc id nodes ls s).1.trace
  unfolding ensure_node_devices
  ensure_node_devices-AllReports id [] ls s h = h
  ensure_node_devices-AllReports id ((node, nh) ∷ nodes) ls s h =
      let (r, w) = lc.ensure_node_device ls.spec node id s.world in
      let s1 : Sys W (Call F) = record { world = w; trace = node_ensured node r ∷ s.trace } in
      value_keeps (AllReports P) r _ _ s1 (λ e. set_degraded-AllReports P env ls _ _ _ s1 h)
        (λ device _. ensure_node_devices-AllReports id nodes (with_node_device ls node device) s1 h)

  release_workflows-AllReports :
      (ls : LosantSync) (m : Assoc EdgeDeploymentStatus) (wds : List WorkflowDeployment) (b : Bool)
      (s : Sys W (Call F))
      → AllReports P s.trace
      → AllReports P (release_workflows lc ls m wds b s).1.trace
  unfolding release_workflows
  release_workflows-AllReports ls m [] b s h = h
  release_workflows-AllReports ls m (wd ∷ rest) b s h =
      grind (arith, release_workflows-AllReports ls m rest)

  workflows-AllReports :
      (ls : LosantSync) (s : Sys W (Call F))
      → AllReports P s.trace
      → AllReports P (ensure_workflow_deployments lc ls s).1.trace
  unfolding ensure_workflow_deployments after_deployments
  workflows-AllReports ls s h = grind (arith, release_workflows-AllReports ls)

  after_workflows-AllReports :
      (ls : LosantSync) (wf : WorkflowResult) (s : Sys W (Call F))
      → AllReports P s.trace
      → AllReports P (after_workflows env ls wf s).1.trace
  unfolding after_workflows
  after_workflows-AllReports ls wf s h = elim (Option-cases wf.error) [
    | inl e ↦ rw (e, after_workflows) h
    | inr (_, e) ↦ rw (e, after_workflows) (set_degraded-AllReports P env ls _ _ _ s h)
  ]

  bootstrap-AllReports :
      (kube : Kube W) (clock : Clock) (id : String) (ls : LosantSync) (s : Sys W (Call F))
      → AllReports P s.trace
      → AllReports P (bootstrap kube clock lc ls id s).1.trace
  unfolding bootstrap write_credentials restart_deployment
  bootstrap-AllReports kube clock id ls s h = grind arith

  ensure_bootstrapped-AllReports :
      (id : String) (ls : LosantSync) (s : Sys W (Call F))
      → AllReports P s.trace
      → AllReports P (ensure_bootstrapped env lc ls id s).1.trace
  unfolding ensure_bootstrapped
  ensure_bootstrapped-AllReports id ls s h =
      let m = bootstrap env.kube env.clock lc ls id s in
      let k = bootstrap-AllReports env.kube env.clock id ls s h in
      elim (Bool-cases (env.meta.is_status_condition_true ls.status.conditions gea_bootstrapped)) [
        | inl e ↦ rw (e, ensure_bootstrapped) h
        | inr n ↦
            rw (n, ensure_bootstrapped)
              (continue_keeps (AllReports P) (returned m.0) _ m.1 k λ done.
                value_keeps (AllReports P) done _ _ m.1
                  (λ e. set_degraded-AllReports P env ls _ _ _ m.1 k) (λ _ _. k))
      ]

module _ {W F : Type 0} (P : StatePayload F → Type 0) (env : Env W F) (lc : LosantClient W)
    (gc : GeaClient W F) where
  sync_devices-AllReports :
      (id : String) (snapshot : ClusterHealth × Assoc (NodeHealth F)) (ls : LosantSync)
      (s : Sys W (Call F))
      → IsReportable P snapshot
      → AllReports P s.trace
      → AllReports P (sync_devices env lc gc ls id snapshot s).1.trace
  unfolding sync_devices
  sync_devices-AllReports id (cluster, nodes) ls s good h =
      let m = ensure_node_devices env lc id nodes ls s in
      let k = ensure_node_devices-AllReports P env lc id nodes ls s h in
      continue_keeps (AllReports P) m.0 _ m.1 k λ ls1.
        let w = ensure_workflow_deployments lc _ m.1 in
        let k1 = workflows-AllReports P env lc _ m.1 k in
        continue_keeps (AllReports P) (returned w.0) _ w.1 k1 λ wf.
          let a = after_workflows env _ wf w.1 in
          continue_keeps (AllReports P) a.0 _ a.1 (after_workflows-AllReports P env lc _ wf w.1 k1)
            λ ls3.
              report_cluster-AllReports P env gc ls3 id cluster nodes a.1 good.0 good.1
                (after_workflows-AllReports P env lc _ wf w.1 k1)

module _ {W F : Type 0} (P : StatePayload F → Type 0) (env : Env W F)
    (good : (w : W) → IsReportable P (monitored env w)) where
  health_snapshot-trace : (s : Sys W (Call F)) → (health_snapshot env s).1.trace ≡ s.trace
  unfolding health_snapshot
  health_snapshot-trace s = grind arith

  health_snapshot_lem :
      (s : Sys W (Call F)) → (health_snapshot env s).0 ≡ next (monitored env s.world)
  unfolding health_snapshot
  health_snapshot_lem s = elim (Option-cases env.health_store) [
    | inl e ↦ rw e refl
    | inr (_, e) ↦ rw e refl
  ]

  sync_cluster-AllReports :
      (lc : LosantClient W) (gc : GeaClient W F) (ls : LosantSync) (s : Sys W (Call F))
      → AllReports P s.trace
      → AllReports P (sync_cluster env lc gc ls s).1.trace
  unfolding sync_cluster
  sync_cluster-AllReports lc gc ls s h =
      let (p, w) = lc.ping s.world in
      let s1 : Sys W (Call F) = record { world = w; trace = pinged p ∷ s.trace } in
      let (c, v) = lc.ensure_cluster_device ls.spec w in
      let s2 : Sys W (Call F) = record { world = v; trace = cluster_ensured c ∷ s1.trace } in
      value_keeps (AllReports P) p _ _ s1 (λ e. set_degraded-AllReports P env ls _ _ _ s1 h)
        λ _ _.
          value_keeps (AllReports P) c _ _ s2 (λ e. set_degraded-AllReports P env ls _ _ _ s2 h)
            λ id _.
              let b = ensure_bootstrapped env lc _ id s2 in
              let k = ensure_bootstrapped-AllReports P env lc id _ s2 h in
              continue_keeps (AllReports P) b.0 _ b.1 k λ ls2.
                let q = health_snapshot env b.1 in
                let k1 : AllReports P q.1.trace = rw (health_snapshot-trace b.1) k in
                rw (health_snapshot_lem b.1) (
                  sync_devices-AllReports P env lc gc id (monitored env b.1.world) ls2 q.1
                    (good b.1.world) k1)

  sync-AllReports :
      (ls : LosantSync) (s : Sys W (Call F))
      → AllReports P s.trace
      → AllReports P (sync env ls s).1.trace
  unfolding sync
  sync-AllReports ls s h =
      let g = env.kube.get_secret ls.spec.provisioning_secret_ref s.world in
      let s1 : Sys W (Call F) = record s { world = g.1 } in
      value_keeps (AllReports P) g.0 _ _ s1 (λ e. set_degraded-AllReports P env ls _ _ _ s1 h)
        λ secret _.
          value_keeps (AllReports P) (losant_client_of env secret ls) _ _ s1
            (λ e. set_degraded-AllReports P env ls _ _ _ s1 h)
            (λ lc _. sync_cluster-AllReports lc (gea_client_of env ls) ls s1 h)

  sync_if_due-AllReports :
      (ls : LosantSync) (p : LosantSyncPhase) (t : Option Time) (s : Sys W (Call F))
      → AllReports P s.trace
      → AllReports P (sync_if_due env ls p t s).1.trace
  unfolding sync_if_due
  sync_if_due-AllReports ls p t s h = grind (arith, sync-AllReports ls)

  delete_devices-AllReports :
      (lc : LosantClient W) (ls : LosantSync) (devices : Assoc String) (s : Sys W (Call F))
      → AllReports P s.trace
      → AllReports P (delete_devices env lc ls devices s).1.trace
  unfolding delete_devices
  delete_devices-AllReports lc ls [] s h = h
  delete_devices-AllReports lc ls ((_, id) ∷ devices) s h =
      grind (arith, delete_devices-AllReports lc ls devices)

  handle_deletion-AllReports :
      (ls : LosantSync) (s : Sys W (Call F))
      → AllReports P s.trace
      → AllReports P (handle_deletion env ls s).1.trace
  unfolding handle_deletion delete_all delete_cluster_device release_finalizer
  handle_deletion-AllReports ls s h = grind (arith, delete_devices-AllReports)

  reconcile_sync-AllReports :
      (ls : LosantSync) (s : Sys W (Call F))
      → AllReports P s.trace
      → AllReports P (reconcile_sync env ls s).1.trace
  unfolding reconcile_sync suspend first_reconcile update_status_then ensure_credential_placeholder
  reconcile_sync-AllReports ls s h = grind (
    arith,
    handle_deletion-AllReports ls s h,
    sync_if_due-AllReports ls ls.status.phase ls.status.next_scheduled_time s h,
  )

  pub reconcile-AllReports :
      (name : String) (w : W)
      → AllReports P (reconcile env name (record { world = w; trace = [] })).1.trace
  unfolding reconcile
  reconcile-AllReports name w = grind (arith, reconcile_sync-AllReports)
