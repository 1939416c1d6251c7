-- ===== src/Monitor/Store/Shared.antt =====
-- store.go over the memory that its maps stand in: Update keeps the map that it is given, and the
-- callers of Snapshot may write to the maps that it returns.
pub mod Isolated
use losant_device.Prelude.{
  ℕ, zero, suc, ◌+◌, ◌==◌, Option, none, some, List, [], ◌∷◌, ◌++◌, String, Assoc, if◌then◌else◌,
}
use losant_device.Monitor.{NodeHealth, ClusterHealth}
use losant_device.Monitor.Store.{empty_cluster}

-- The maps that were made: `entries r` is the content of the r-th one, `made` their number.
pub record Maps (F : Type 0) : Type 0 where
  pub entries : ℕ → Assoc (NodeHealth F)
  pub made : ℕ

-- The struct's fields: `nodes` refers to a map.
pub record SharedStore (F : Type 0) : Type 0 where
  pub cluster : ClusterHealth
  pub nodes : ℕ

module _ {F : Type 0} where
  abbrev pub with_entries : ℕ → Assoc (NodeHealth F) → Maps F → Maps F
  with_entries r m h = record h { entries = λ j. if j == r then m else h.entries j }

  -- make(map[string]NodeHealth)
  abbrev pub make_map : Maps F → ℕ × Maps F
  make_map h = (h.made, record (with_entries h.made [] h) { made = h.made + 1 })

  -- NewHealthStore
  unfoldable pub new_shared : Maps F → SharedStore F × Maps F
  new_shared h = let (r, made) = make_map h in (record { cluster = empty_cluster; nodes = r }, made)

  -- Update
  unfoldable pub update_shared : ClusterHealth → ℕ → SharedStore F → SharedStore F
  update_shared cluster nodes s = record { cluster = cluster; nodes = nodes }

  -- the loop of Snapshot over the entries, each with a key that the new map has not yet
  unfoldable pub copy_entries : ℕ → Assoc (NodeHealth F) → Maps F → Maps F
  copy_entries r [] h = h
  copy_entries r (entry ∷ todo) h =
      copy_entries r todo (with_entries r (h.entries r ++ entry ∷ []) h)

  -- Snapshot
  unfoldable pub snapshot : SharedStore F → Maps F → (ClusterHealth × ℕ) × Maps F
  unfolding copy_entries
  snapshot s h =
      let (r, made) = make_map h in ((s.cluster, r), copy_entries r (made.entries s.nodes) made)

-- The store, the memory, and the maps that Snapshot has returned, the newest first.
pub record Shared (F : Type 0) : Type 0 where
  pub store : SharedStore F
  pub maps : Maps F
  pub held : List ℕ

-- What the store's callers do: the watcher makes a map with some content and gives it to Update, a
-- reader takes a snapshot, and the one who has the n-th of them changes its map in any way.
pub data Use (F : Type 0) : Type 0 where
  published : ClusterHealth → Assoc (NodeHealth F) → Use F
  taken : Use F
  written : ℕ → (Assoc (NodeHealth F) → Assoc (NodeHealth F)) → Use F

abbrev pub nth : ℕ → List ℕ → Option ℕ
nth n [] = none
nth zero (r ∷ held) = some r
nth (suc n) (r ∷ held) = nth n held

module _ {F : Type 0} where
  abbrev pub write_held : Option ℕ → (Assoc (NodeHealth F) → Assoc (NodeHealth F)) → Maps F → Maps F
  write_held none f h = h
  write_held (some r) f h = with_entries r (f (h.entries r)) h

  unfoldable pub use_store : Use F → Shared F → Shared F
  unfolding snapshot update_shared
  use_store (published cluster nodes) s =
      let (r, made) = make_map s.maps in
      record s { store = update_shared cluster r s.store; maps = with_entries r nodes made }
  use_store taken s =
      let ((_, r), maps) = snapshot s.store s.maps in record s { maps = maps; held = r ∷ s.held }
  use_store (written n f) s = record s { maps = write_held (nth n s.held) f s.maps }

  unfoldable pub run : List (Use F) → Shared F → Shared F
  unfolding use_store
  run [] s = s
  run (u ∷ uses) s = run uses (use_store u s)

  -- A new store, in an empty memory.
  unfoldable pub at_start : Shared F
  unfolding new_shared
  at_start =
      let (store, maps) = new_shared (record { entries = λ r. []; made = 0 }) in
      record { store = store; maps = maps; held = [] }

-- What was published last.
abbrev pub latest :
    {F : Type 0}
    → List (Use F)
    → ClusterHealth × Assoc (NodeHealth F)
    → ClusterHealth × Assoc (NodeHealth F)
latest [] v = v
latest (published cluster nodes ∷ uses) v = latest uses (cluster, nodes)
latest (_ ∷ uses) v = latest uses v
