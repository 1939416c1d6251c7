-- ===== src/Sync/Active.antt =====
-- Reconcile writes an object as Active only with what stands behind it.
use losant_device.Prelude.{String, ◌≡◌, refl, Option, [], ◌∷◌, Assoc, eq_refl, arith}
use mathlib.Core.Path.{subst}
use losant_device.Go.{Time}
use losant_device.Exec.{Sys, returned}
use losant_device.Api.{condition_true}
use losant_device.Api.LosantSync.{LosantSync, LosantSyncPhase}
use losant_device.Losant.{Call, LosantClient, GeaClient, pinged, cluster_ensured}
use losant_device.Monitor.{NodeHealth, ClusterHealth}
use losant_device.Provisioner.{ensure_credential_placeholder}
use losant_device.Sync.{Env, set_condition, devices_provisioned, last_sync_succeeded}
use losant_device.Sync.Workflows.{ensure_workflow_deployments}
use losant_device.Sync.Devices.{
  ensure_node_devices, delete_devices, delete_cluster_device, release_finalizer, delete_all,
  handle_deletion, losant_client_of,
}
use losant_device.Sync.Steps.{
  report_cluster, after_workflows, sync_devices, ensure_bootstrapped, health_snapshot, sync_cluster,
  sync, update_status_then, gea_client_of,
}
use losant_device.Sync.Reconcile.{sync_if_due, reconcile_sync, reconcile, first_reconcile, suspend}
use losant_device.Sync.Backed.{
  AllBacked, continue-AllBacked, value-AllBacked, set_degraded-AllBacked, report_cluster-AllBacked,
}
use losant_device.Sync.Ready.{
  Ready, continue-Readies, ensure_node_devices-Readies, workflows-Keeps, after_workflows-Readies,
  ensure_bootstrapped-Readies,
}

module _ {W F : Type 0} (env : Env W F) (lc : LosantClient W) (gc : GeaClient W F) where
  sync_devices-AllBacked :
      (id : String) (snapshot : ClusterHealth × Assoc (NodeHealth F)) (ls : LosantSync)
      (s : Sys W (Call F))
      → Ready id ls s.trace
      → AllBacked (sync_devices env lc gc ls id snapshot s).1.trace
  unfolding sync_devices set_condition
  sync_devices-AllBacked id (cluster, nodes) ls s h =
      let m = ensure_node_devices env lc id nodes ls s in
      continue-Readies id m.0 _ m.1 (ensure_node_devices-Readies env lc id nodes ls s h) λ ls1 h1.
        let ls2 =
          set_condition env.meta ls1 devices_provisioned condition_true "Provisioned"
            "all devices confirmed in Losant" in
        let w = ensure_workflow_deployments lc ls2 m.1 in
        let k = workflows-Keeps env lc id ls2 m.1 in
        let h2 : Ready id ls2 w.1.trace = (k.1 h1.0, k.2 h1.1, h1.2, k.0 h1.3) in
        continue-AllBacked (returned w.0) _ w.1 h2.3 λ wf.
          let a = after_workflows env ls2 wf w.1 in
          continue-Readies id a.0 _ a.1 (after_workflows-Readies env lc id ls2 wf w.1 h2) λ ls3 h3.
            subst (λ j. AllBacked (report_cluster env gc ls3 j cluster nodes a.1).1.trace) h3.2
              (report_cluster-AllBacked env gc ls3 cluster nodes a.1 h3.0 (rw h3.2 h3.1) h3.3)

  health_snapshot-trace : (s : Sys W (Call F)) → (health_snapshot env s).1.trace ≡ s.trace
  unfolding health_snapshot
  health_snapshot-trace s = grind arith

  sync_cluster-AllBacked :
      (ls : LosantSync) (s : Sys W (Call F))
      → AllBacked s.trace
      → AllBacked (sync_cluster env lc gc ls s).1.trace
  unfolding sync_cluster
  sync_cluster-AllBacked ls s h =
      let p = lc.ping s.world in
      let s1 : Sys W (Call F) = record { world = p.1; trace = pinged p.0 ∷ s.trace } in
      let c = lc.ensure_cluster_device ls.spec p.1 in
      let s2 : Sys W (Call F) = record { world = c.1; trace = cluster_ensured c.0 ∷ s1.trace } in
      value-AllBacked p.0 _ _ s1 (λ e. set_degraded-AllBacked env ls last_sync_succeeded _ _ s1 h)
        λ _ pinged_ok.
          value-AllBacked c.0 _ _ s2
            (λ e. set_degraded-AllBacked env ls devices_provisioned _ _ s2 h)
            λ id cluster_ok.
              let ls1 = record ls { status = record ls.status { cluster_device_id = id } } in
              let h2 : Ready id ls1 s2.trace =
                (rw pinged_ok refl, rw (cluster_ok, eq_refl id) refl, refl, h) in
              let b = ensure_bootstrapped env lc ls1 id s2 in
              continue-Readies id b.0 _ b.1 (ensure_bootstrapped-Readies env lc id ls1 s2 h2)
                λ ls2 h3.
                  let q = health_snapshot env b.1 in
                  let same = health_snapshot-trace b.1 in
                  let h4 : Ready id ls2 q.1.trace = rw same h3 in
                  continue-AllBacked q.0 _ q.1 h4.3
                    λ snapshot. sync_devices-AllBacked id snapshot ls2 q.1 h4

module _ {W F : Type 0} (env : Env W F) where
  sync-AllBacked :
      (ls : LosantSync) (s : Sys W (Call F)) → AllBacked s.trace → AllBacked (sync env ls s).1.trace
  unfolding sync
  sync-AllBacked ls s h =
      let g = env.kube.get_secret ls.spec.provisioning_secret_ref s.world in
      let s1 : Sys W (Call F) = record s { world = g.1 } in
      value-AllBacked g.0 _ _ s1 (λ e. set_degraded-AllBacked env ls last_sync_succeeded _ _ s1 h)
        λ secret _.
          value-AllBacked (losant_client_of env secret ls) _ _ s1
            (λ e. set_degraded-AllBacked env ls last_sync_succeeded _ _ s1 h)
            (λ lc _. sync_cluster-AllBacked env lc (gea_client_of env ls) ls s1 h)

  sync_if_due-AllBacked :
      (ls : LosantSync) (p : LosantSyncPhase) (t : Option Time) (s : Sys W (Call F))
      → AllBacked s.trace
      → AllBacked (sync_if_due env ls p t s).1.trace
  unfolding sync_if_due
  sync_if_due-AllBacked ls p t s h = grind (arith, sync-AllBacked ls)

  delete_devices-AllBacked :
      (lc : LosantClient W) (ls : LosantSync) (devices : Assoc String) (s : Sys W (Call F))
      → AllBacked s.trace
      → AllBacked (delete_devices env lc ls devices s).1.trace
  unfolding delete_devices
  delete_devices-AllBacked lc ls [] s h = h
  delete_devices-AllBacked lc ls ((_, id) ∷ devices) s h =
      grind (arith, delete_devices-AllBacked lc ls devices)

  delete_all-AllBacked :
      (lc : LosantClient W) (ls : LosantSync) (s : Sys W (Call F))
      → AllBacked s.trace
      → AllBacked (delete_all env lc ls s).1.trace
  unfolding delete_all delete_cluster_device release_finalizer
  delete_all-AllBacked lc ls s h =
      let m = delete_devices env lc ls ls.status.node_devices s in
      continue-AllBacked m.0 _ m.1 (delete_devices-AllBacked lc ls ls.status.node_devices s h)
        (λ _. grind (arith, delete_devices-AllBacked lc ls ls.status.node_devices s h))

  handle_deletion-AllBacked :
      (ls : LosantSync) (s : Sys W (Call F))
      → AllBacked s.trace
      → AllBacked (handle_deletion env ls s).1.trace
  unfolding handle_deletion
  handle_deletion-AllBacked ls s h = grind (arith, delete_all-AllBacked)

  reconcile_sync-AllBacked :
      (ls : LosantSync) (s : Sys W (Call F))
      → AllBacked s.trace
      → AllBacked (reconcile_sync env ls s).1.trace
  unfolding reconcile_sync suspend first_reconcile update_status_then ensure_credential_placeholder
  reconcile_sync-AllBacked ls s h = grind (
    arith,
    handle_deletion-AllBacked ls s h,
    sync_if_due-AllBacked ls ls.status.phase ls.status.next_scheduled_time s h,
  )

  -- Whatever Kubernetes, Losant and the GEA answer, every LosantSync that a reconcile writes with
  -- the phase Active comes after an answered ping of Losant, the confirmation of the cluster
  -- device that its status names, and a state of that device that the GEA accepted.
  pub reconcile-AllBacked :
      (name : String) (w : W)
      → AllBacked (reconcile env name (record { world = w; trace = [] })).1.trace
  unfolding reconcile
  reconcile-AllBacked name w = grind (arith, reconcile_sync-AllBacked)
