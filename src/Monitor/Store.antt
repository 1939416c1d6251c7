-- ===== src/Monitor/Store.antt =====
-- store.go: the health that the watcher writes and the LosantSync controller reads, as values. The
-- lock makes each operation one step.
pub mod Shared
use losant_device.Prelude.{false, [], Assoc}
use losant_device.Prelude.Int.{pos}
use losant_device.Monitor.{NodeHealth, ClusterHealth}

pub record HealthStore (F : Type 0) : Type 0 where
  pub cluster : ClusterHealth
  pub nodes : Assoc (NodeHealth F)

unfoldable pub empty_cluster : ClusterHealth
empty_cluster = record {
  total_nodes = 0;
  ready_nodes = 0;
  unhealthy_nodes = 0;
  total_pods = 0;
  running_pods = 0;
  failed_pods = 0;
  pending_pods = 0;
  crash_loop_pods = 0;
  degraded_pvcs = 0;
  core_dns_healthy = false;
  event_warnings = 0;
  health_score = pos 0;
  health_status = "";
}

module _ {F : Type 0} where
  unfoldable pub new_health_store : HealthStore F
  new_health_store = record { cluster = empty_cluster; nodes = [] }

  unfoldable pub update : ClusterHealth → Assoc (NodeHealth F) → HealthStore F → HealthStore F
  update cluster nodes s = record { cluster = cluster; nodes = nodes }

  -- What a reader is promised: the store's content.
  abbrev pub contents : HealthStore F → ClusterHealth × Assoc (NodeHealth F)
  contents s = (s.cluster, s.nodes)
