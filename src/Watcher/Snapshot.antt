-- ===== src/Watcher/Snapshot.antt =====
-- The snapshot that the watcher stores is consistent.
use losant_device.Prelude.{
  ℕ, suc, ◌+◌, ◌≤◌, String, ◌≡◌, refl, Bool-cases, inl, inr, str_eq, Option, none, some, List, [],
  ◌∷◌, Assoc, lookup, insert, length, arith, if◌then◌else◌,
}
use losant_device.Go.{Time}
use losant_device.Exec.{Sys, Flow, next, stop, Outcome, finished, failed}
use losant_device.Kube.{Deployment}
use losant_device.Monitor.{NodeHealth, ClusterHealth}
use losant_device.Monitor.Score.{
  compute_node_health_score, compute_cluster_health_score, health_status_from_score,
}
use losant_device.Monitor.Pods.{Pod, PodCounts, collect_pod_counts}
use losant_device.Monitor.Nodes.{Floats, Node, collect_node_health, collect_node_health-flags}
use losant_device.Monitor.Counts.{Event}
use losant_device.Watcher.{
  Env, Call, store_updated, with_pods, count_ready, node_health_map, build_cluster, publish,
  reconcile,
}

-- A node's score and status are those of its own fields.
abbrev pub IsScored : {F : Type 0} → NodeHealth F → Type 0
IsScored h =
    (h.health_score ≡ compute_node_health_score h)
    × (h.health_status ≡ health_status_from_score h.health_score)

abbrev pub AllScored : {F : Type 0} → Assoc (NodeHealth F) → Type 0
AllScored [] = Unit
AllScored ((_, h) ∷ nodes) = IsScored h × AllScored nodes

module _ {F : Type 0} where
  insert-AllScored :
      (k : String) (h : NodeHealth F) (m : Assoc (NodeHealth F))
      → IsScored h
      → AllScored m
      → AllScored (insert k h m)
  unfolding insert
  insert-AllScored k h [] s all = (s, tt)
  insert-AllScored k h ((j, g) ∷ m) s all = elim (Bool-cases (str_eq j k)) [
    | inl e ↦ rw e (s, all.1)
    | inr n ↦ rw n (all.0, insert-AllScored k h m s all.1)
  ]

  length-insert_le :
      (k : String) (h : NodeHealth F) (m : Assoc (NodeHealth F))
      → length (insert k h m) ≤ suc (length m)
  unfolding insert
  length-insert_le k h [] = omega arith
  length-insert_le k h ((j, g) ∷ m) = elim (Bool-cases (str_eq j k)) [
    | inl e ↦ rw e (omega arith)
    | inr n ↦ rw n (omega (arith, length-insert_le k h m))
  ]

  count_ready_le : (n : ℕ) (m : Assoc (NodeHealth F)) → count_ready n m ≤ n + length m
  unfolding count_ready
  count_ready_le n [] = omega arith
  count_ready_le n ((j, g) ∷ m) =
      let k : ℕ = if g.ready then n + 1 else n in
      let step : k ≤ n + 1 = ground arith in omega (arith, step, count_ready_le k m)

  with_pods-IsScored :
      (pc : Option PodCounts) (h : NodeHealth F) → IsScored h → IsScored (with_pods pc h)
  unfolding with_pods compute_node_health_score
  with_pods-IsScored none h s = s
  with_pods-IsScored (some pc) h s = (refl, refl)

module _ {Q F : Type 0} (floats : Floats Q F) (per_node : Assoc PodCounts) where
  abbrev health_of : Node Q → NodeHealth F
  health_of node = with_pods (lookup node.name per_node) (collect_node_health floats node)

  health_of-IsScored : (node : Node Q) → IsScored (health_of node)
  health_of-IsScored node =
      let scored = collect_node_health-flags floats node in
      with_pods-IsScored (lookup node.name per_node) (collect_node_health floats node)
        (scored.4, scored.5)

  node_health_map-AllScored :
      (nodes : List (Node Q)) (m : Assoc (NodeHealth F))
      → AllScored m
      → AllScored (node_health_map floats per_node nodes m)
  unfolding node_health_map
  node_health_map-AllScored [] m all = all
  node_health_map-AllScored (node ∷ nodes) m all =
      node_health_map-AllScored nodes (insert node.name (health_of node) m)
        (insert-AllScored node.name (health_of node) m (health_of-IsScored node) all)

  length-node_health_map :
      (nodes : List (Node Q)) (m : Assoc (NodeHealth F))
      → length (node_health_map floats per_node nodes m) ≤ length nodes + length m
  unfolding node_health_map
  length-node_health_map [] m = omega arith
  length-node_health_map (node ∷ nodes) m = omega (
    arith,
    length-insert_le node.name (health_of node) m,
    length-node_health_map nodes (insert node.name (health_of node) m),
  )

-- A cluster's counts of nodes add up, and its score and status are those of the nodes and of
-- its own fields, as is each node's.
pub record IsConsistent {F : Type 0} (c : ClusterHealth) (nodes : Assoc (NodeHealth F))
    : Type 0 where
  pub nodes_add_up : c.ready_nodes + c.unhealthy_nodes ≡ c.total_nodes
  pub scored : c.health_score ≡ compute_cluster_health_score c nodes
  pub status : c.health_status ≡ health_status_from_score c.health_score
  pub nodes_scored : AllScored nodes

build_cluster-IsConsistent :
    {F : Type 0} (total : ℕ) (nodes : Assoc (NodeHealth F)) (pods : PodCounts) (pvcs : List String)
    (dns : Option Deployment) (events : List Event) (now : Time)
    → length nodes ≤ total
    → AllScored nodes
    → IsConsistent (build_cluster total nodes pods pvcs dns events now) nodes
unfolding build_cluster compute_cluster_health_score
build_cluster-IsConsistent total nodes pods pvcs dns events now fits all = record {
  nodes_add_up = omega (arith, count_ready_le 0 nodes);
  scored = refl;
  status = refl;
  nodes_scored = all;
}

-- A reconcile that fails has replaced nothing; one that finishes has replaced the store's
-- content once, by a consistent snapshot.
abbrev pub Replaces : {F : Type 0} → Flow Outcome Outcome → List (Call F) → Type 0
Replaces (stop (failed e)) calls = calls ≡ []
Replaces (next (finished r)) (store_updated c nodes ∷ []) = IsConsistent c nodes
Replaces _ _ = ⊥

module _ {W Q F : Type 0} (env : Env W Q F) where
  publish-Replaces :
      (nodes : List (Node Q)) (pods : List Pod) (pvcs : List String) (events : List Event)
      (dns : Option Deployment) (now : Time) (s : Sys W (Call F))
      → s.trace ≡ []
      → Replaces
          (publish env nodes pods pvcs events dns now s).0
          (publish env nodes pods pvcs events dns now s).1.trace
  unfolding publish
  publish-Replaces nodes pods pvcs events dns now s e =
      let per_node = (collect_pod_counts pods).0 in
      rw e (
        build_cluster-IsConsistent (length nodes) (node_health_map env.floats per_node nodes [])
          (collect_pod_counts pods).1 pvcs dns events now
          (omega (arith, length-node_health_map env.floats per_node nodes []))
          (node_health_map-AllScored env.floats per_node nodes [] tt))

  -- Whatever the lists hold, a reconcile of the watcher that returns an error leaves the store as
  -- it was, and any other replaces it exactly once, by a snapshot whose ready and unhealthy nodes
  -- add up to the nodes listed and whose scores and statuses are those of its fields.
  pub reconcile-Replaces :
      (w : W)
      → let (flow, after) = reconcile env (record { world = w; trace = [] }) in
        Replaces flow after.trace
  unfolding reconcile
  reconcile-Replaces w = grind (arith, publish-Replaces)
