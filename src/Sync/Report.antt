-- ===== src/Sync/Report.antt =====
-- The reports to the GEA: clusterAttributes, nodeAttributes, and the loop over the nodes.
pub mod Sent
use losant_device.Prelude.{ℕ, String, true, false, none, [], ◌∷◌, Assoc, lookup, get_or}
use losant_device.Prelude.Int.{pos}
use losant_device.Go.{is_empty}
use losant_device.Exec.{◌>>=◌, call, pure}
use losant_device.Api.LosantSync.{LosantSync}
use losant_device.Losant.{
  Value, number, text, boolean, float, StatePayload, GeaClient, state_reported,
}
use losant_device.Monitor.{NodeHealth, ClusterHealth}
use losant_device.Sync.{Part}

module _ {F : Type 0} where
  abbrev count : ℕ → Value F
  count n = number (pos n)

  -- clusterAttributes
  unfoldable pub cluster_attributes : ClusterHealth → Assoc (Value F)
  cluster_attributes h =
      ("health_score", number h.health_score)
      ∷ ("health_status", text h.health_status)
      ∷ ("total_nodes", count h.total_nodes)
      ∷ ("ready_nodes", count h.ready_nodes)
      ∷ ("unhealthy_nodes", count h.unhealthy_nodes)
      ∷ ("total_pods", count h.total_pods)
      ∷ ("running_pods", count h.running_pods)
      ∷ ("failed_pods", count h.failed_pods)
      ∷ ("pending_pods", count h.pending_pods)
      ∷ ("crashloop_pods", count h.crash_loop_pods)
      ∷ ("degraded_pvcs", count h.degraded_pvcs)
      ∷ ("coredns_healthy", boolean h.core_dns_healthy)
      ∷ ("event_warnings", count h.event_warnings)
      ∷ []

  -- nodeAttributes
  unfoldable pub node_attributes : NodeHealth F → Assoc (Value F)
  node_attributes h =
      ("health_score", number h.health_score)
      ∷ ("health_status", text h.health_status)
      ∷ ("ready", boolean h.ready)
      ∷ ("memory_pressure", boolean h.memory_pressure)
      ∷ ("disk_pressure", boolean h.disk_pressure)
      ∷ ("pid_pressure", boolean h.pid_pressure)
      ∷ ("pod_count", count h.pod_count)
      ∷ ("not_ready_pods", count h.not_ready_pods)
      ∷ ("crashloop_pods", count h.crash_loop_pods)
      ∷ ("cpu_request_pct", float h.cpu_request_pct)
      ∷ ("mem_request_pct", float h.mem_request_pct)
      ∷ []

  abbrev pub cluster_payload : String → ClusterHealth → StatePayload F
  cluster_payload id h = record {
    device_id = id;
    attributes = cluster_attributes h;
    timestamp = none;
  }

  abbrev pub node_payload : String → NodeHealth F → StatePayload F
  node_payload id h = record { device_id = id; attributes = node_attributes h; timestamp = none }

module _ {W F : Type 0} (gc : GeaClient W F) where
  -- Step 7: a node's report, whose failure is only logged
  unfoldable pub report_nodes : LosantSync → Assoc (NodeHealth F) → Part W F (Unit {0})
  report_nodes ls [] s = pure tt s
  report_nodes ls ((node, h) ∷ nodes) s =
      let id = get_or "" (lookup node ls.status.node_devices) in
      elim (is_empty id) [
        | true ↦ report_nodes ls nodes s
        | false ↦
            (do
              _ ← call (state_reported (node_payload id h)) (gc.report_state (node_payload id h))
              report_nodes ls nodes)
              s
      ]
