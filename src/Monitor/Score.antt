-- ===== src/Monitor/Score.antt =====
-- health_score.go. Scores are integers: a cluster's deductions can pass 100 before the clamp.
pub mod Bounds
use losant_device.Prelude.{
  ℕ, ◌+◌, ◌*◌, ◌/◌, String, Bool, not, List, [], ◌∷◌, Assoc, ltb, if◌then◌else◌, length,
}
use losant_device.Prelude.Int.{ℤ, pos, ◌-ℤ◌, ltb_ℤ}
use losant_device.Monitor.{NodeHealth, ClusterHealth}

unfoldable pub clamp : ℤ → ℤ → ℤ → ℤ
clamp v min max = if ltb_ℤ v min then min else if ltb_ℤ max v then max else v

unfoldable pub health_status_from_score : ℤ → String
health_status_from_score score =
    if ltb_ℤ score (pos 80)
    then (if ltb_ℤ score (pos 50) then "critical" else "degraded")
    else "healthy"

-- if b { score -= n }
abbrev pub less_if : Bool → ℕ → ℤ → ℤ
less_if b n score = if b then score -ℤ pos n else score

-- if b { d += n }
abbrev pub more_if : Bool → ℕ → ℕ → ℕ
more_if b n d = if b then d + n else d

-- d := n; if d > max { d = max }
abbrev pub capped : ℕ → ℕ → ℕ
capped n max = if ltb max n then max else n

module _ {F : Type 0} where
  unfoldable pub compute_node_health_score : NodeHealth F → ℤ
  unfolding clamp ◌-ℤ◌
  compute_node_health_score n =
      let score = less_if (not n.ready) 20 (pos 100) in
      let score = less_if n.memory_pressure 10 score in
      let score = less_if n.disk_pressure 10 score in
      let score = less_if n.pid_pressure 5 score in clamp score (pos 0) (pos 100)

  -- one round of the loop over the nodes
  unfoldable pub node_deduction : NodeHealth F → ℕ
  node_deduction n =
      let d = more_if (not n.ready) 20 0 in
      let d = more_if n.memory_pressure 10 d in
      let d = more_if n.disk_pressure 10 d in more_if n.pid_pressure 5 d

  -- the loop over the nodes
  unfoldable pub total_node_deductions : ℕ → Assoc (NodeHealth F) → ℕ
  total_node_deductions total [] = total
  total_node_deductions total ((_, n) ∷ nodes) =
      total_node_deductions (total + node_deduction n) nodes

  -- both operands are at least 0, so Go's division is that of ℕ
  unfoldable pub average_deduction : Assoc (NodeHealth F) → ℕ
  average_deduction nodes =
      if ltb 0 (length nodes) then total_node_deductions 0 nodes / length nodes else 0

  unfoldable pub compute_cluster_health_score : ClusterHealth → Assoc (NodeHealth F) → ℤ
  compute_cluster_health_score cluster nodes =
      let score = pos 100 -ℤ pos (average_deduction nodes) in
      let score = score -ℤ pos (capped (cluster.crash_loop_pods * 2) 20) in
      let score = score -ℤ pos (capped cluster.failed_pods 10) in
      let score = score -ℤ pos (capped cluster.event_warnings 10) in
      let score = less_if (not cluster.core_dns_healthy) 15 score in
      let score = score -ℤ pos (capped cluster.degraded_pvcs 10) in clamp score (pos 0) (pos 100)
