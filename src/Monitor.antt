-- ===== src/Monitor.antt =====
-- internal/monitor: the health records of store.go, and the children that collect and score.
-- Every count is the number of some objects that a Kubernetes list holds, so it is at least 0
-- and fits Go's int. `F` is the type of the two percentages, Go's float64.
pub mod Score
pub mod Pods
pub mod Nodes
pub mod Counts
pub mod Store
pub mod Locking
use losant_device.Prelude.{ℕ, String, Bool, ◌==◌}
use losant_device.Prelude.Int.{ℤ}

pub record NodeHealth (F : Type 0) : Type 0 where
  pub name : String
  pub ready : Bool
  pub memory_pressure : Bool
  pub disk_pressure : Bool
  pub pid_pressure : Bool
  pub cpu_request_pct : F
  pub mem_request_pct : F
  pub pod_count : ℕ
  pub not_ready_pods : ℕ
  pub crash_loop_pods : ℕ
  pub health_score : ℤ
  pub health_status : String

pub record ClusterHealth : Type 0 where
  pub total_nodes : ℕ
  pub ready_nodes : ℕ
  pub unhealthy_nodes : ℕ
  pub total_pods : ℕ
  pub running_pods : ℕ
  pub failed_pods : ℕ
  pub pending_pods : ℕ
  pub crash_loop_pods : ℕ
  pub degraded_pvcs : ℕ
  pub core_dns_healthy : Bool
  pub event_warnings : ℕ
  pub health_score : ℤ
  pub health_status : String
