-- ===== src/Examples/Locking.antt =====
-- A snapshot that is asked for while an update holds the lock.
use losant_device.Prelude.{ℕ, true, false, [], ◌∷◌, Assoc, arith}
use losant_device.Prelude.Int.{pos}
use native.Mathlib.Decide.{ℕ_discrete}
use losant_device.Monitor.{NodeHealth, ClusterHealth}
use losant_device.Monitor.Store.{empty_cluster}
use losant_device.Monitor.Locking.{
  updated, taken, System, call_update, lock, set_cluster, set_nodes, unlock, call_snapshot,
  read_lock, copy_entry, take, step, Reach, start, later,
}
use losant_device.Monitor.Locking.Invariant.{IsAtomic}
use losant_device.Monitor.Locking.Atomic.{Reach-IsAtomic}

abbrev cluster : ClusterHealth
cluster = record empty_cluster { total_nodes = 1; ready_nodes = 1 }

abbrev node : NodeHealth ℕ
node = record {
  name = "a";
  ready = true;
  memory_pressure = false;
  disk_pressure = false;
  pid_pressure = false;
  cpu_request_pct = 0;
  mem_request_pct = 0;
  pod_count = 0;
  not_ready_pods = 0;
  crash_loop_pods = 0;
  health_score = pos 100;
  health_status = "healthy";
}

abbrev nodes : Assoc (NodeHealth ℕ)
nodes = ("a", node) ∷ []

contended : (s : System ℕ) × Reach (taken (cluster, nodes) ∷ updated cluster nodes ∷ []) s
unfolding ℕ_discrete
contended = (
  _,
  later
      (later
        (later
          (later
            (later
              (later
                (later
                  (later (later start (step 0 tt (call_update cluster nodes)))
                    (step 0 (λ j. ground arith) (lock cluster nodes)))
                  (step 1 tt call_snapshot))
                (step 0 tt (set_cluster cluster nodes)))
              (step 0 tt (set_nodes nodes)))
            (step 0 tt unlock))
          (step 1 (λ j. ground arith) read_lock))
        (step 1 tt (copy_entry "a" node [] [])))
      (step 1 tt (take nodes)),
)

Reach-IsAtomic_example : IsAtomic (taken (cluster, nodes) ∷ updated cluster nodes ∷ [])
Reach-IsAtomic_example = Reach-IsAtomic contended.1
