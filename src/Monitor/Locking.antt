-- ===== src/Monitor/Locking.antt =====
-- store.go, step by step: Update and Snapshot of any number of goroutines, interleaved under the
-- store's RWMutex.
pub mod Atomic
pub mod Invariant
use losant_device.Prelude.{
  ℕ, ◌≡◌, Bool, true, false, Option, none, some, List, [], ◌∷◌, ◌++◌, String, Assoc,
}
use mathlib.Core.Logic.{ite}
use native.Mathlib.Decide.{ℕ_discrete}
use losant_device.Monitor.{NodeHealth, ClusterHealth}
use losant_device.Monitor.Store.{HealthStore, new_health_store}

-- A goroutine: outside, or in Update or Snapshot. `locking` waits in mu.Lock and `read_locking` in
-- mu.RLock; from `writing` and `ranging` on the lock is held, up to the deferred unlock.
pub data Goroutine (F : Type 0) : Type 0 where
  outside read_locking wrote : Goroutine F
  locking writing : ClusterHealth → Assoc (NodeHealth F) → Goroutine F
  wrote_cluster : Assoc (NodeHealth F) → Goroutine F
  ranging : Assoc (NodeHealth F) → Assoc (NodeHealth F) → Goroutine F
  copied : ClusterHealth × Assoc (NodeHealth F) → Goroutine F

-- What a call does to the store, or reads in it.
pub data Event (F : Type 0) : Type 0 where
  updated : ClusterHealth → Assoc (NodeHealth F) → Event F
  taken : ClusterHealth × Assoc (NodeHealth F) → Event F

-- The store's fields, and the goroutines.
pub record System (F : Type 0) : Type 0 where
  pub store : HealthStore F
  pub goroutine : ℕ → Goroutine F

module _ {F : Type 0} where
  abbrev pub writes : Goroutine F → Bool
  writes (writing c n) = true
  writes (wrote_cluster n) = true
  writes wrote = true
  writes _ = false

  abbrev pub reads : Goroutine F → Bool
  reads (ranging todo nodes) = true
  reads (copied x) = true
  reads _ = false

  -- When mu.Lock or mu.RLock returns: no goroutine holds the lock, or none holds it for writing.
  abbrev pub Granted : (ℕ → Goroutine F) → Goroutine F → Type 0
  Granted gs (locking c n) = (j : ℕ) → (writes (gs j) ≡ false) × (reads (gs j) ≡ false)
  Granted gs read_locking = (j : ℕ) → writes (gs j) ≡ false
  Granted gs _ = Unit

  -- A step of one goroutine over the store's fields.
  pub data Move (m : HealthStore F)
      : Goroutine F → Option (Event F) → HealthStore F → Goroutine F → Type 0 where
    call_update :
        (c : ClusterHealth) (n : Assoc (NodeHealth F)) → Move m outside none m (locking c n)
    lock :
        (c : ClusterHealth) (n : Assoc (NodeHealth F)) → Move m (locking c n) none m (writing c n)
    -- s.cluster = cluster
    set_cluster :
        (c : ClusterHealth) (n : Assoc (NodeHealth F))
        → Move m (writing c n) (some (updated c n)) (record m { cluster = c }) (wrote_cluster n)
    -- s.nodes = nodes
    set_nodes :
        (n : Assoc (NodeHealth F)) → Move m (wrote_cluster n) none (record m { nodes = n }) wrote
    unlock : Move m wrote none m outside
    call_snapshot : Move m outside none m read_locking
    -- the map that `range` visits is read here
    read_lock : Move m read_locking none m (ranging m.nodes [])
    -- nodes[k] = v
    copy_entry :
        (k : String) (v : NodeHealth F) (todo nodes : Assoc (NodeHealth F))
        → Move m (ranging ((k, v) ∷ todo) nodes) none m (ranging todo (nodes ++ (k, v) ∷ []))
    -- return s.cluster, nodes
    take :
        (nodes : Assoc (NodeHealth F))
        → Move m (ranging [] nodes) (some (taken (m.cluster, nodes))) m (copied (m.cluster, nodes))
    read_unlock : (x : ClusterHealth × Assoc (NodeHealth F)) → Move m (copied x) none m outside

  abbrev pub with_goroutine : (ℕ → Goroutine F) → ℕ → Goroutine F → ℕ → Goroutine F
  with_goroutine gs i g j = ite (ℕ_discrete i j) g (gs j)

  -- A step of any goroutine, if the lock allows it.
  pub data Step (s : System F) : Option (Event F) → System F → Type 0 where
    step :
        (i : ℕ) {e : Option (Event F)} {m : HealthStore F} {g : Goroutine F}
        → Granted s.goroutine (s.goroutine i)
        → Move s.store (s.goroutine i) e m g
        → Step s e (record { store = m; goroutine = with_goroutine s.goroutine i g })

  -- NewHealthStore
  abbrev pub at_start : System F
  at_start = record { store = new_health_store; goroutine = λ i. outside }

  abbrev pub noted : Option (Event F) → List (Event F) → List (Event F)
  noted none es = es
  noted (some e) es = e ∷ es

  -- The states that can be reached, with the events on the way, the newest first.
  pub data Reach : List (Event F) → System F → Type 0 where
    start : Reach [] at_start
    later :
        {es : List (Event F)} {s t : System F} {e : Option (Event F)}
        → Reach es s
        → Step s e t
        → Reach (noted e es) t
