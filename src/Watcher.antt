-- ===== src/Watcher.antt =====
-- internal/controller/healthwatcher_controller.go: the health watcher, which recomputes the
-- snapshot and replaces the store's. A replacement is the only call in its trace.
pub mod Snapshot
use losant_device.Prelude.{
  ℕ, ◌+◌, ◌-◌, String, Bool, Option, none, some, List, [], ◌∷◌, Assoc, lookup, insert, length, map,
  if◌then◌else◌,
}
use losant_device.Prelude.Int.{pos}
use losant_device.Go.{Fallible, ok, err, Time}
use losant_device.Exec.{
  Exec, ◌>>=◌, ◌>>◌, call, read, value, pure, Outcome, finished, failed, empty_result,
}
use losant_device.Kube.{Deployment}
use losant_device.Monitor.{NodeHealth, ClusterHealth}
use losant_device.Monitor.Score.{compute_cluster_health_score, health_status_from_score}
use losant_device.Monitor.Pods.{Pod, PodCounts, collect_pod_counts}
use losant_device.Monitor.Nodes.{Floats, Node, collect_node_health, rescore}
use losant_device.Monitor.Counts.{
  Event, count_recent_warnings, count_degraded_pvcs, is_core_dns_healthy,
}

-- The lists of client.Client; a claim is given by its phase. `get_core_dns` gets the Deployment
-- kube-system/coredns.
pub record Env (W Q F : Type 0) : Type 0 where
  pub list_nodes : W → Fallible (List (Node Q)) × W
  pub list_pods : W → Fallible (List Pod) × W
  pub list_pvcs : W → Fallible (List String) × W
  pub list_events : W → Fallible (List Event) × W
  pub get_core_dns : W → Fallible Deployment × W
  pub now : W → Time × W
  pub floats : Floats Q F

-- r.Store.Update(cluster, nodes)
pub data Call (F : Type 0) : Type 0 where
  store_updated : ClusterHealth → Assoc (NodeHealth F) → Call F

abbrev pub to_option : {A : Type 0} → Fallible A → Option A
to_option (ok a) = some a
to_option (err e) = none

module _ {F : Type 0} where
  -- a node's counts, if it has pods
  unfoldable pub with_pods : Option PodCounts → NodeHealth F → NodeHealth F
  unfolding rescore
  with_pods none nh = nh
  with_pods (some pc) nh = rescore (record nh {
    pod_count = pc.total;
    not_ready_pods = pc.not_ready;
    crash_loop_pods = pc.crash_loop;
  })

  -- the loop that counts the ready nodes
  unfoldable pub count_ready : ℕ → Assoc (NodeHealth F) → ℕ
  count_ready ready [] = ready
  count_ready ready ((_, nh) ∷ nodes) = count_ready (if nh.ready then ready + 1 else ready) nodes

module _ {Q F : Type 0} (floats : Floats Q F) where
  -- the loop that builds the map
  unfoldable pub node_health_map :
      Assoc PodCounts → List (Node Q) → Assoc (NodeHealth F) → Assoc (NodeHealth F)
  node_health_map per_node_pods [] m = m
  node_health_map per_node_pods (node ∷ nodes) m = node_health_map per_node_pods nodes (
      insert node.name
        (with_pods (lookup node.name per_node_pods) (collect_node_health floats node)) m)

-- the `ClusterHealth` that Reconcile builds, with its score and status
unfoldable pub build_cluster :
    {F : Type 0}
    → ℕ
    → Assoc (NodeHealth F)
    → PodCounts
    → List String
    → Option Deployment
    → List Event
    → Time
    → ClusterHealth
build_cluster total nodes pods pvcs core_dns events now =
    let ready = count_ready 0 nodes in
    let cluster : ClusterHealth = record {
      total_nodes = total;
      ready_nodes = ready;
      unhealthy_nodes = total - ready;
      total_pods = pods.total;
      running_pods = pods.running;
      failed_pods = pods.failed;
      pending_pods = pods.pending;
      crash_loop_pods = pods.crash_loop;
      degraded_pvcs = count_degraded_pvcs pvcs;
      core_dns_healthy = is_core_dns_healthy core_dns;
      event_warnings = count_recent_warnings now events;
      health_score = pos 0;
      health_status = "";
    } in
    let score = compute_cluster_health_score cluster nodes in
    record cluster { health_score = score; health_status = health_status_from_score score }

module _ {W Q F : Type 0} (env : Env W Q F) where
  -- Reconcile, once everything is collected
  unfoldable pub publish :
      List (Node Q)
      → List Pod
      → List String
      → List Event
      → Option Deployment
      → Time
      → Exec W (Call F) Outcome Outcome
  publish node_list pod_list pvc_list event_list core_dns now = do
    let counts = collect_pod_counts pod_list
    let nodes = node_health_map env.floats counts.0 node_list []
    let cluster = build_cluster (length node_list) nodes counts.1 pvc_list core_dns event_list now
    call (λ (_ : Unit {0}). store_updated cluster nodes) (λ w. (tt, w))
    pure (finished empty_result)

  unfoldable pub reconcile : Exec W (Call F) Outcome Outcome
  reconcile = do
    nodes_found ← read env.list_nodes
    node_list ← value nodes_found (λ e. pure (failed e))
    pods_found ← read env.list_pods
    pod_list ← value pods_found (λ e. pure (failed e))
    pvcs_found ← read env.list_pvcs
    pvc_list ← value pvcs_found (λ e. pure (failed e))
    events_found ← read env.list_events
    event_list ← value events_found (λ e. pure (failed e))
    dns_found ← read env.get_core_dns
    now ← read env.now
    publish node_list pod_list pvc_list event_list (to_option dns_found) now

  -- allNodesMapper: the requests that a change of a watched resource gives, by node name
  unfoldable pub all_nodes_mapper : W → List String × W
  all_nodes_mapper w =
      let (found, w') = env.list_nodes w in
      (elim found [ ok nodes ↦ map (λ n. n.name) nodes | err e ↦ [] ], w')
