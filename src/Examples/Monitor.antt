-- ===== src/Examples/Monitor.antt =====
-- The theorems on the collectors, the scores and the watcher, at two nodes with three pods.
use losant_device.Prelude.{
  ℕ, ◌-◌, String, ◌≡◌, true, false, some, List, [], ◌∷◌, Assoc, lookup, get_or, leb,
}
use losant_device.Prelude.Int.{pos}
use losant_device.Go.{ok, err}
use losant_device.Monitor.{NodeHealth, ClusterHealth}
use losant_device.Monitor.Score.{compute_node_health_score, health_status_from_score}
use losant_device.Monitor.Pods.{
  Pod, no_pods, pod_running, pod_failed, pod_pending, collect_pod_counts,
}
use losant_device.Monitor.Pods.Partition.{
  counts_on, sum_of, collect_pod_counts_at, collect_pod_counts-sum, collect_pod_counts-total,
}
use losant_device.Monitor.Pods.Partition
use losant_device.Monitor.Nodes.{
  Floats, Node, last_is_true, collect_node_health, collect_node_health-flags,
}
use losant_device.Monitor.Counts.{Event}
use losant_device.Monitor.Store.{empty_cluster}
use losant_device.Monitor.Store.Shared.{
  Use, published, taken, written, snapshot, run, at_start, latest,
}
use losant_device.Monitor.Store.Shared.Isolated.{AllApart, run-snapshot}
use losant_device.Watcher.{Env, reconcile}
use losant_device.Watcher.Snapshot.{Replaces, reconcile-Replaces}
use losant_device.Examples.{tick, refused}

-- Quantities and floats as whole numbers.
abbrev pub floats : Floats ℕ ℕ
floats = record {
  zero_quantity = 0;
  as_approximate_float64 = λ q. q;
  zero = 0;
  is_zero = λ x. leb x 0;
  is_negative = λ x. false;
  percentage = λ alloc cap. 100 - alloc;
}

abbrev node_of : String → String → Node ℕ
node_of name memory_pressure = record {
  name = name;
  conditions =
      record { type_name = "MemoryPressure"; status = memory_pressure }
      ∷ record { type_name = "Ready"; status = "True" }
      ∷ [];
  allocatable = ("cpu", 3) ∷ [];
  capacity = ("cpu", 4) ∷ [];
}

abbrev pub nodes : List (Node ℕ)
nodes = node_of "node-a" "True" ∷ node_of "node-b" "False" ∷ []

abbrev pub pods : List Pod
pods =
    record {
      node_name = "node-a";
      phase = pod_running;
      container_statuses = some "CrashLoopBackOff" ∷ [];
      conditions = [];
    }
    ∷ record { node_name = "node-b"; phase = pod_failed; container_statuses = []; conditions = [] }
    ∷ record { node_name = "node-a"; phase = pod_pending; container_statuses = []; conditions = [] }
    ∷ []

abbrev pub health : NodeHealth ℕ
health = record {
  name = "node-a";
  ready = true;
  memory_pressure = true;
  disk_pressure = false;
  pid_pressure = false;
  cpu_request_pct = 0;
  mem_request_pct = 0;
  pod_count = 2;
  not_ready_pods = 2;
  crash_loop_pods = 1;
  health_score = pos 0;
  health_status = "";
}

abbrev health_map : Assoc (NodeHealth ℕ)
health_map = ("node-a", health) ∷ []

abbrev cluster_of : ℕ → ClusterHealth
cluster_of crash_loop = record {
  total_nodes = 1;
  ready_nodes = 1;
  unhealthy_nodes = 0;
  total_pods = 2;
  running_pods = 1;
  failed_pods = 3;
  pending_pods = 1;
  crash_loop_pods = crash_loop;
  degraded_pvcs = 1;
  core_dns_healthy = false;
  event_warnings = 12;
  health_score = pos 0;
  health_status = "";
}

abbrev pub events : List Event
events =
    record { type_name = "Warning"; last_timestamp = pos 0; event_time = pos 10 }
    ∷ record { type_name = "Normal"; last_timestamp = pos 20; event_time = pos 0 }
    ∷ []

abbrev pub env : Env ℕ ℕ ℕ
env = record {
  list_nodes = λ w. (ok nodes, w);
  list_pods = λ w. (ok pods, w);
  list_pvcs = λ w. (ok ("Lost" ∷ []), w);
  list_events = λ w. (ok events, w);
  get_core_dns = λ w. (err refused, w);
  now = tick;
  floats = floats;
}

collect_pod_counts_at_example :
    get_or no_pods (lookup "node-a" (collect_pod_counts pods).0) ≡ counts_on "node-a" pods no_pods
collect_pod_counts_at_example = collect_pod_counts_at "node-a" pods

collect_node_health-flags_example :
    let h = collect_node_health floats (node_of "node-a" "True") in
    (h.ready ≡ last_is_true "Ready" (node_of "node-a" "True").conditions false)
    × (h.memory_pressure ≡ last_is_true "MemoryPressure" (node_of "node-a" "True").conditions false)
    × (h.disk_pressure ≡ last_is_true "DiskPressure" (node_of "node-a" "True").conditions false)
    × (h.pid_pressure ≡ last_is_true "PIDPressure" (node_of "node-a" "True").conditions false)
    × (h.health_score ≡ compute_node_health_score h)
    × (h.health_status ≡ health_status_from_score h.health_score)
collect_node_health-flags_example = collect_node_health-flags floats (node_of "node-a" "True")

collect_pod_counts-sum_example :
    sum_of (λ c. c.crash_loop) (collect_pod_counts pods).0 ≡ (collect_pod_counts pods).1.crash_loop
collect_pod_counts-sum_example = collect_pod_counts-sum Partition.crash_loop pods

-- The reader of a snapshot empties its map.
abbrev emptied : List (Use ℕ)
emptied = published (cluster_of 1) health_map ∷ taken ∷ written 0 (λ nodes. []) ∷ []

run-snapshot_example :
    let s = run emptied at_start in
    let ((cluster, r), after) = snapshot s.store s.maps in
    ((cluster, after.entries r) ≡ latest emptied (empty_cluster, [])) × AllApart r after.made s.held
run-snapshot_example = run-snapshot emptied

reconcile-Replaces_example :
    let (flow, after) = reconcile env (record { world = 0; trace = [] }) in
    Replaces flow after.trace
reconcile-Replaces_example = reconcile-Replaces env 0
