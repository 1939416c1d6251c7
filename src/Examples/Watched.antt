-- ===== src/Examples/Watched.antt =====
-- The theorem on the reports that follow a reconcile of the watcher, at a cluster of two nodes.
use losant_device.Prelude.{none, ℕ, some, [], ◌∷◌, Assoc, length}
use losant_device.Prelude.Int.{pos}
use losant_device.Monitor.{NodeHealth, ClusterHealth}
use losant_device.Monitor.Pods.{collect_pod_counts}
use losant_device.Monitor.Store.{new_health_store, update, contents}
use losant_device.Watcher
use losant_device.Watcher.{node_health_map, build_cluster}
use losant_device.Sync.{Env}
use losant_device.Examples.Monitor
use losant_device.Examples.Sync

abbrev node_healths : Assoc (NodeHealth ℕ)
node_healths = node_health_map Monitor.floats (collect_pod_counts Monitor.pods).0 Monitor.nodes []

abbrev cluster : ClusterHealth
cluster =
    build_cluster (length Monitor.nodes) node_healths (collect_pod_counts Monitor.pods).1
      ("Lost" ∷ []) none Monitor.events (pos 0)

abbrev env : Env ℕ ℕ
env = record Sync.env {
  health_store = some (λ w. (contents (update cluster node_healths new_health_store), w));
}
