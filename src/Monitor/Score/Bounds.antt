-- ===== src/Monitor/Score/Bounds.antt =====
-- The scores against their deduction tables, their range, and the direction in which they move.
use losant_device.Prelude.{
  ℕ, ◌+◌, ◌-◌, ◌*◌, ◌≤◌, ◌≡◌, refl, Bool, true, false, not, [], ◌∷◌, Assoc, arith, length, leb,
  if◌then◌else◌,
}
use Prim.Native.Nat.{min}
use native.Mathlib.Nat.{div-le_of_le-mul}
use losant_device.Prelude.Int.{ℤ, pos, negsuc, pos_part, neg_part, int_laws, ◌≤ℤ◌}
use losant_device.Monitor.{NodeHealth, ClusterHealth}
use losant_device.Monitor.Score.{
  clamp, capped, less_if, health_status_from_score, compute_node_health_score, node_deduction,
  total_node_deductions, average_deduction, compute_cluster_health_score,
}

-- The deductions of docs/calculating-health.md at the level of the cluster.
abbrev pub cluster_deductions : ClusterHealth → ℕ
cluster_deductions c =
    min (2 * c.crash_loop_pods) 20
    + min c.failed_pods 10
    + min c.event_warnings 10
    + (if c.core_dns_healthy then 0 else 15)
    + min c.degraded_pvcs 10

clamp_table :
    (z : ℤ) (d : ℕ) → pos_part z + d ≡ 100 + neg_part z → clamp z (pos 0) (pos 100) ≡ pos (100 - d)
unfolding clamp
clamp_table (pos n) d h = ground arith
clamp_table (negsuc n) d h = ground arith

capped-min : (n m : ℕ) → capped n m ≡ min n m
capped-min n m = ground arith

less_if_parts :
    (b : Bool) (n : ℕ) (z : ℤ)
    → pos_part (less_if b n z) + neg_part z + (if b then n else 0)
      ≡ neg_part (less_if b n z) + pos_part z
less_if_parts true n z = omega int_laws
less_if_parts false n z = omega int_laws

if-not : (b : Bool) (n : ℕ) → (if not b then n else 0) ≡ (if b then 0 else n)
if-not true n = refl
if-not false n = refl

ruleset score_laws = (int_laws, capped-min, less_if_parts, if-not)

min_mono : (a b k : ℕ) → a ≤ b → min a k ≤ min b k
min_mono a b k h = omega arith

sub_mono : (x y : ℕ) → x ≤ y → pos (100 - y) ≤ℤ pos (100 - x)
sub_mono x y h = omega arith

add_mono :
    (n : ℕ) {a b c d e a' b' c' d' e' : ℕ}
    → a ≤ a'
    → b ≤ b'
    → c ≤ c'
    → d ≤ d'
    → e ≤ e'
    → n + (a + b + c + d + e) ≤ n + (a' + b' + c' + d' + e')
add_mono n p q r s t = omega arith

dns_mono : (b b' : Bool) → (b' ≡ true → b ≡ true) → (if b then 0 else 15) ≤ (if b' then 0 else 15)
dns_mono true b' h = omega arith
dns_mono false true h = cc (h refl)
dns_mono false false h = omega arith

module _ {F : Type 0} where
  -- A node's score is 100 less its deductions, and these are at most 45: it is never critical.
  pub node_score_table :
      (n : NodeHealth F)
      → (compute_node_health_score n ≡ pos (100 - node_deduction n)) × (node_deduction n ≤ 45)
  unfolding compute_node_health_score node_deduction
  node_score_table n = ground arith

  pub cluster_score_table :
      (c : ClusterHealth) (nodes : Assoc (NodeHealth F))
      → compute_cluster_health_score c nodes
        ≡ pos (100 - (average_deduction nodes + cluster_deductions c))
  unfolding compute_cluster_health_score
  cluster_score_table c nodes = clamp_table _ _ (omega score_laws)

  -- the loop adds up the nodes' deductions, each at most 45
  total_deductions_le :
      (total : ℕ) (nodes : Assoc (NodeHealth F))
      → total_node_deductions total nodes ≤ total + 45 * length nodes
  unfolding total_node_deductions
  total_deductions_le total [] = omega arith
  total_deductions_le total ((k, n) ∷ nodes) =
      omega (arith, total_deductions_le (total + node_deduction n) nodes, (node_score_table n).1)

  -- The average is at most 45 for every number of nodes.
  average_deduction_le : (nodes : Assoc (NodeHealth F)) → average_deduction nodes ≤ 45
  unfolding average_deduction
  average_deduction_le nodes =
      let bound : total_node_deductions 0 nodes ≤ length nodes * 45 =
        omega (arith, total_deductions_le 0 nodes) in
      ground (arith, div-le_of_le-mul (length nodes) bound)

  -- The cluster is healthy while the deductions are at most 20 in all, degraded up to 50, and
  -- critical beyond.
  pub cluster_status_table :
      (c : ClusterHealth) (nodes : Assoc (NodeHealth F))
      → let d = average_deduction nodes + cluster_deductions c in
        health_status_from_score (compute_cluster_health_score c nodes)
        ≡ (if leb d 20 then "healthy" else if leb d 50 then "degraded" else "critical")
  unfolding health_status_from_score
  cluster_status_table c nodes = rw (cluster_score_table c nodes) (ground arith)

  -- With no fewer crashlooping pods, failed pods, warnings and degraded claims, and CoreDNS
  -- healthy only if it was, the score is no higher over the same nodes.
  pub cluster_score_antitone :
      (c d : ClusterHealth) (nodes : Assoc (NodeHealth F))
      → c.crash_loop_pods ≤ d.crash_loop_pods
      → c.failed_pods ≤ d.failed_pods
      → c.event_warnings ≤ d.event_warnings
      → c.degraded_pvcs ≤ d.degraded_pvcs
      → (d.core_dns_healthy ≡ true → c.core_dns_healthy ≡ true)
      → compute_cluster_health_score d nodes ≤ℤ compute_cluster_health_score c nodes
  cluster_score_antitone c d nodes p q r t u = rw (cluster_score_table c nodes) (
      rw (cluster_score_table d nodes) (
        sub_mono _ _ (
          add_mono (average_deduction nodes) (min_mono _ _ 20 (omega arith)) (min_mono _ _ 10 q)
            (min_mono _ _ 10 r) (dns_mono _ _ u) (min_mono _ _ 10 t))))

  -- The score is at most 100, and at least 0 and 100 less 45 for the nodes and the cluster's own
  -- deductions.
  pub cluster_score_range :
      (c : ClusterHealth) (nodes : Assoc (NodeHealth F))
      → (compute_cluster_health_score c nodes ≤ℤ pos 100)
        × (pos (55 - cluster_deductions c) ≤ℤ compute_cluster_health_score c nodes)
  cluster_score_range c nodes =
      rw (cluster_score_table c nodes) (omega (arith, average_deduction_le nodes))
