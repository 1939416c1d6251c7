-- ===== src/Monitor/Pods.antt =====
-- pod_collector.go.
pub mod Partition
use losant_device.Prelude.{
  ℕ, ◌+◌, String, Bool, true, false, not, ◌&&◌, ◌||◌, Option, none, some, List, [], ◌∷◌, Assoc,
  lookup, insert, get_or, str_eq, if◌then◌else◌,
}

-- `other` is Succeeded, Unknown or a phase with no name.
pub data PodPhase : Type 0 where
  pod_running pod_failed pod_pending : PodPhase
  other_phase : String → PodPhase

-- A pod's condition: its type and status.
pub record PodCondition : Type 0 where
  pub type_name : String
  pub status : String

-- corev1.Pod in the fields read; a container's status is the reason that it waits for, if it waits.
pub record Pod : Type 0 where
  pub node_name : String
  pub phase : PodPhase
  pub container_statuses : List (Option String)
  pub conditions : List PodCondition

pub record PodCounts : Type 0 where
  pub total : ℕ
  pub running : ℕ
  pub failed : ℕ
  pub pending : ℕ
  pub crash_loop : ℕ
  pub not_ready : ℕ

abbrev pub no_pods : PodCounts
no_pods = record { total = 0; running = 0; failed = 0; pending = 0; crash_loop = 0; not_ready = 0 }

-- cs.State.Waiting != nil && cs.State.Waiting.Reason == "CrashLoopBackOff"
abbrev waits_in_crash_loop : Option String → Bool
waits_in_crash_loop none = false
waits_in_crash_loop (some reason) = str_eq reason "CrashLoopBackOff"

any_crash_loop : List (Option String) → Bool
any_crash_loop [] = false
any_crash_loop (cs ∷ more) = waits_in_crash_loop cs || any_crash_loop more

unfoldable pub is_crash_looping : Pod → Bool
unfolding any_crash_loop
is_crash_looping p = any_crash_loop p.container_statuses

ready_condition : List PodCondition → Bool
ready_condition [] = false
ready_condition (cond ∷ more) =
    if str_eq cond.type_name "Ready" then str_eq cond.status "True" else ready_condition more

unfoldable pub is_pod_ready : Pod → Bool
unfolding ready_condition
is_pod_ready p = ready_condition p.conditions

abbrev is_running : PodPhase → Bool
is_running pod_running = true
is_running _ = false

-- the switch on the phase
abbrev pub count_phase : PodPhase → PodCounts → PodCounts
count_phase pod_running c = record c { running = c.running + 1 }
count_phase pod_failed c = record c { failed = c.failed + 1 }
count_phase pod_pending c = record c { pending = c.pending + 1 }
count_phase (other_phase s) c = c

-- what one round of the loop adds to the cluster's counts
unfoldable pub count_in_cluster : Pod → PodCounts → PodCounts
count_in_cluster p c =
    let c = count_phase p.phase (record c { total = c.total + 1 }) in
    if is_crash_looping p then record c { crash_loop = c.crash_loop + 1 } else c

-- and what it adds to its node's
unfoldable pub count_on_node : Pod → PodCounts → PodCounts
unfolding count_in_cluster
count_on_node p c =
    let c = count_in_cluster p c in
    if not (is_pod_ready p) && is_running p.phase
    then record c { not_ready = c.not_ready + 1 }
    else c

-- the loop over the pods
unfoldable pub count_pods : List Pod → Assoc PodCounts → PodCounts → Assoc PodCounts × PodCounts
count_pods [] per_node cluster = (per_node, cluster)
count_pods (p ∷ pods) per_node cluster =
    let nc = get_or no_pods (lookup p.node_name per_node) in
    count_pods pods (insert p.node_name (count_on_node p nc) per_node) (count_in_cluster p cluster)

unfoldable pub collect_pod_counts : List Pod → Assoc PodCounts × PodCounts
unfolding count_pods
collect_pod_counts pods = count_pods pods [] no_pods
