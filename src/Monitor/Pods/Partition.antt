-- ===== src/Monitor/Pods/Partition.antt =====
-- The per-node counts are a partition of the cluster's.
use losant_device.Prelude.{
  ℕ, ◌+◌, String, ◌≡◌, refl, List, [], ◌∷◌, Assoc, lookup, insert, get_or, lookup-insert, eq_iff,
  length, str_eq, if◌then◌else◌, arith, ap, sym, ◌∙◌,
}
use losant_device.Monitor.Pods.{
  Pod, PodCounts, no_pods, count_in_cluster, count_on_node, count_pods, collect_pod_counts,
}

-- The counts of the pods that run on one node, in the order of the list.
abbrev pub counts_on : String → List Pod → PodCounts → PodCounts
counts_on k [] c = c
counts_on k (p ∷ pods) c = counts_on k pods (if str_eq p.node_name k then count_on_node p c else c)

counts_of_loop :
    (k : String) (pods : List Pod) (per_node : Assoc PodCounts) (cluster : PodCounts)
    → get_or no_pods (lookup k (count_pods pods per_node cluster).0)
      ≡ counts_on k pods (get_or no_pods (lookup k per_node))
unfolding count_pods
counts_of_loop k [] m c = refl
counts_of_loop k (p ∷ pods) m c =
    counts_of_loop k pods _ _
    ∙ ap (counts_on k pods) (rw lookup-insert (ground (arith, eq_iff p.node_name k)))

-- A node's counts are those of its own pods; a node with no entry has none.
pub collect_pod_counts_at :
    (k : String) (pods : List Pod)
    → get_or no_pods (lookup k (collect_pod_counts pods).0) ≡ counts_on k pods no_pods
unfolding collect_pod_counts lookup
collect_pod_counts_at k pods = counts_of_loop k pods [] no_pods

-- The sum of one count over the map's entries.
abbrev pub sum_of : (PodCounts → ℕ) → Assoc PodCounts → ℕ
sum_of f [] = 0
sum_of f ((k, c) ∷ m) = f c + sum_of f m

sum_of-insert :
    (f : PodCounts → ℕ) (k : String) (c : PodCounts) (m : Assoc PodCounts)
    → f no_pods ≡ 0
    → sum_of f (insert k c m) + f (get_or no_pods (lookup k m)) ≡ sum_of f m + f c
unfolding insert lookup
sum_of-insert f k c [] z = omega arith
sum_of-insert f k c ((j, d) ∷ m) z = ground (arith, sum_of-insert f k c m z)

-- The five counts that the cluster shares, each as a function on PodCounts.
pub data IsShared : (PodCounts → ℕ) → Type 0 where
  total : IsShared (λ c. c.total)
  running : IsShared (λ c. c.running)
  failed : IsShared (λ c. c.failed)
  pending : IsShared (λ c. c.pending)
  crash_loop : IsShared (λ c. c.crash_loop)

shared_zero : {f : PodCounts → ℕ} → IsShared f → f no_pods ≡ 0
shared_zero total = refl
shared_zero running = refl
shared_zero failed = refl
shared_zero pending = refl
shared_zero crash_loop = refl

-- a pod adds as much to its node's count as to the cluster's
shared_step :
    {f : PodCounts → ℕ} (s : IsShared f) (p : Pod) (c d : PodCounts)
    → f (count_on_node p c) + f d ≡ f (count_in_cluster p d) + f c
unfolding count_on_node
shared_step total p c d = ground arith
shared_step running p c d = ground arith
shared_step failed p c d = ground arith
shared_step pending p c d = ground arith
shared_step crash_loop p c d = ground arith

shared_loop :
    {f : PodCounts → ℕ} (s : IsShared f) (pods : List Pod) (m : Assoc PodCounts) (c : PodCounts)
    → sum_of f m ≡ f c
    → sum_of f (count_pods pods m c).0 ≡ f (count_pods pods m c).1
unfolding count_pods
shared_loop s [] m c h = h
shared_loop {f} s (p ∷ pods) m c h =
    let nc = get_or no_pods (lookup p.node_name m) in
    shared_loop s pods _ _ (
      omega (
        arith,
        h,
        sum_of-insert f p.node_name (count_on_node p nc) m (shared_zero s),
        shared_step s p nc c,
      ))

-- For each count but `not_ready`, which the cluster does not keep, the sum over the nodes'
-- entries is the cluster's count.
pub collect_pod_counts-sum :
    {f : PodCounts → ℕ} (s : IsShared f) (pods : List Pod)
    → let (per_node, cluster) = collect_pod_counts pods in sum_of f per_node ≡ f cluster
unfolding collect_pod_counts
collect_pod_counts-sum s pods = shared_loop s pods [] no_pods (sym (shared_zero s))

total_step : (p : Pod) (c : PodCounts) → (count_in_cluster p c).total ≡ c.total + 1
unfolding count_in_cluster
total_step p c = ground arith

total_loop :
    (pods : List Pod) (m : Assoc PodCounts) (c : PodCounts)
    → (count_pods pods m c).1.total ≡ c.total + length pods
unfolding count_pods
total_loop [] m c = omega arith
total_loop (p ∷ pods) m c = total_loop pods _ _ ∙ omega (arith, total_step p c)

-- Each pod is counted once: the totals of the nodes' entries add up to the length of the list.
pub collect_pod_counts-total :
    (pods : List Pod) → sum_of (λ c. c.total) (collect_pod_counts pods).0 ≡ length pods
unfolding collect_pod_counts
collect_pod_counts-total pods =
    collect_pod_counts-sum total pods ∙ total_loop pods [] no_pods ∙ omega arith
