-- ===== src/Monitor/Store/Shared/Isolated.antt =====
-- What the callers of Snapshot do with its maps does not reach the store.
use losant_device.Prelude.{
  ℕ, zero, suc, ◌+◌, ◌<◌, ◌≡◌, ◌≢◌, refl, sym, ap, ◌∙◌, Option, none, some, List, [], ◌∷◌, ◌++◌,
  Assoc, arith,
}
use mathlib.Core.List.{append-nil, append_assoc}
use losant_device.Monitor.{NodeHealth, ClusterHealth}
use losant_device.Monitor.Store.{empty_cluster}
use losant_device.Monitor.Store.Shared.{
  Maps, SharedStore, Shared, Use, published, taken, written, nth, with_entries, write_held,
  make_map, new_shared, update_shared, copy_entries, snapshot, use_store, run, at_start, latest,
}

-- The maps were made, and none of them is the store's.
abbrev pub AllApart : ℕ → ℕ → List ℕ → Type 0
AllApart nodes made [] = Unit
AllApart nodes made (r ∷ held) = (r < made) × (r ≢ nodes) × AllApart nodes made held

nth-apart :
    (nodes made n r : ℕ) (held : List ℕ)
    → AllApart nodes made held
    → nth n held ≡ some r
    → r ≢ nodes
nth-apart nodes made n r [] apart e = absurd (cc)
nth-apart nodes made zero r (q ∷ held) (small, differs, apart) e = grind arith
nth-apart nodes made (suc n) r (q ∷ held) (small, differs, apart) e =
    nth-apart nodes made n r held apart e

-- More maps are made.
AllApart-later :
    (nodes made next : ℕ) (held : List ℕ)
    → next ≡ made + 1
    → AllApart nodes made held
    → AllApart nodes next held
AllApart-later nodes made next [] e apart = tt
AllApart-later nodes made next (r ∷ held) e (small, differs, apart) =
    (omega arith, differs, AllApart-later nodes made next held e apart)

-- The store's map is a new one.
AllApart-new :
    (nodes made : ℕ) (held : List ℕ) → AllApart nodes made held → AllApart made (made + 1) held
AllApart-new nodes made [] apart = tt
AllApart-new nodes made (r ∷ held) (small, differs, apart) =
    (omega arith, (λ same. absurd (omega arith)), AllApart-new nodes made held apart)

module _ {F : Type 0} where
  with_entries-here :
      (r : ℕ) (m : Assoc (NodeHealth F)) (h : Maps F) → (with_entries r m h).entries r ≡ m
  with_entries-here r m h = ground arith

  with_entries-apart :
      (r j : ℕ) (m : Assoc (NodeHealth F)) (h : Maps F)
      → j ≢ r
      → (with_entries r m h).entries j ≡ h.entries j
  with_entries-apart r j m h apart = ground (arith, apart)

  copy_entries-copies :
      (r : ℕ) (todo : Assoc (NodeHealth F)) (h : Maps F)
      → (copy_entries r todo h).entries r ≡ h.entries r ++ todo
  unfolding copy_entries
  copy_entries-copies r [] h = sym (append-nil (h.entries r))
  copy_entries-copies r (entry ∷ todo) h =
      copy_entries-copies r todo (with_entries r (h.entries r ++ entry ∷ []) h)
      ∙ ap (λ m. m ++ todo) (with_entries-here r (h.entries r ++ entry ∷ []) h)
      ∙ append_assoc (h.entries r) (entry ∷ []) todo

  copy_entries-keeps :
      (r j : ℕ) (todo : Assoc (NodeHealth F)) (h : Maps F)
      → j ≢ r
      → (copy_entries r todo h).entries j ≡ h.entries j
  unfolding copy_entries
  copy_entries-keeps r j [] h apart = refl
  copy_entries-keeps r j (entry ∷ todo) h apart =
      copy_entries-keeps r j todo (with_entries r (h.entries r ++ entry ∷ []) h) apart
      ∙ with_entries-apart r j (h.entries r ++ entry ∷ []) h apart

  copy_entries-made :
      (r : ℕ) (todo : Assoc (NodeHealth F)) (h : Maps F) → (copy_entries r todo h).made ≡ h.made
  unfolding copy_entries
  copy_entries-made r [] h = refl
  copy_entries-made r (entry ∷ todo) h = copy_entries-made r todo _

  -- A snapshot copies the store's entries into a new map and changes no other.
  snapshot-copies :
      (s : SharedStore F) (h : Maps F)
      → s.nodes < h.made
      → let ((c, r), after) = snapshot s h in
        (c ≡ s.cluster)
        × (r ≡ h.made)
        × (after.made ≡ h.made + 1)
        × (after.entries r ≡ h.entries s.nodes)
        × ((j : ℕ) → j ≢ r → after.entries j ≡ h.entries j)
  unfolding snapshot
  snapshot-copies s h small =
      let r = h.made in
      let fresh = (make_map h).1 in
      let nodes = fresh.entries s.nodes in
      (
        refl,
        refl,
        copy_entries-made r nodes fresh,
        copy_entries-copies r nodes fresh
            ∙ ap (λ m. m ++ nodes) (with_entries-here r [] h)
            ∙ with_entries-apart r s.nodes [] h (λ same. absurd (omega arith)),
        λ j apart. copy_entries-keeps r j nodes fresh apart ∙ with_entries-apart r j [] h apart,
      )

  -- The store's map is one that was made, no caller has it, and it holds what was published.
  record IsIsolated (s : Shared F) (v : ClusterHealth × Assoc (NodeHealth F)) : Type 0 where
    store_made : s.store.nodes < s.maps.made
    apart : AllApart s.store.nodes s.maps.made s.held
    cluster_shown : s.store.cluster ≡ v.0
    nodes_shown : s.maps.entries s.store.nodes ≡ v.1

  write_held-keeps :
      (nodes made n : ℕ) (held : List ℕ) (f : Assoc (NodeHealth F) → Assoc (NodeHealth F))
      (h : Maps F)
      → AllApart nodes made held
      → ((write_held (nth n held) f h).entries nodes ≡ h.entries nodes)
        × ((write_held (nth n held) f h).made ≡ h.made)
  write_held-keeps nodes made n held f h apart = keeps (nth n held) refl
    where
      keeps :
          (found : Option ℕ)
          → nth n held ≡ found
          → ((write_held found f h).entries nodes ≡ h.entries nodes)
            × ((write_held found f h).made ≡ h.made)
      keeps none e = (refl, refl)
      keeps (some r) e = (
        with_entries-apart r nodes (f (h.entries r)) h
            (λ same. nth-apart nodes made n r held apart e (sym same)),
        refl,
      )

  use_store-IsIsolated :
      (u : Use F) (s : Shared F) (v : ClusterHealth × Assoc (NodeHealth F))
      → IsIsolated s v
      → IsIsolated (use_store u s) (latest (u ∷ []) v)
  unfolding use_store update_shared
  use_store-IsIsolated (published cluster nodes) s v h = record {
    store_made = omega arith;
    apart = AllApart-new s.store.nodes s.maps.made s.held h.apart;
    cluster_shown = refl;
    nodes_shown = with_entries-here s.maps.made nodes (make_map s.maps).1;
  }
  use_store-IsIsolated taken s v h =
      let (cluster, new, made, copied, kept) = snapshot-copies s.store s.maps h.store_made in
      record {
        store_made = rw made (grind (arith, h.store_made));
        apart = (
          rw made (omega arith),
          (λ same. absurd (grind (arith, h.store_made))),
          AllApart-later s.store.nodes s.maps.made (snapshot s.store s.maps).1.made s.held made
              h.apart,
        );
        cluster_shown = h.cluster_shown;
        nodes_shown =
            kept s.store.nodes (λ same. absurd (grind (arith, h.store_made))) ∙ h.nodes_shown;
      }
  use_store-IsIsolated (written n f) s v h =
      let (same, made) = write_held-keeps s.store.nodes s.maps.made n s.held f s.maps h.apart in
      record {
        store_made = rw made h.store_made;
        apart = rw made h.apart;
        cluster_shown = h.cluster_shown;
        nodes_shown = same ∙ h.nodes_shown;
      }

  run-IsIsolated :
      (uses : List (Use F)) (s : Shared F) (v : ClusterHealth × Assoc (NodeHealth F))
      → IsIsolated s v
      → IsIsolated (run uses s) (latest uses v)
  unfolding run
  run-IsIsolated [] s v h = h
  run-IsIsolated (published cluster nodes ∷ uses) s v h =
      run-IsIsolated uses _ _ (use_store-IsIsolated (published cluster nodes) s v h)
  run-IsIsolated (taken ∷ uses) s v h = run-IsIsolated uses _ _ (use_store-IsIsolated taken s v h)
  run-IsIsolated (written n f ∷ uses) s v h =
      run-IsIsolated uses _ _ (use_store-IsIsolated (written n f) s v h)

  at_start-IsIsolated : IsIsolated at_start (empty_cluster, [])
  unfolding at_start new_shared
  at_start-IsIsolated = record {
    store_made = omega arith;
    apart = tt;
    cluster_shown = refl;
    nodes_shown = refl;
  }

  -- However the callers of a new store publish health, take snapshots and write to the maps of the
  -- snapshots, in any order, the next snapshot holds the cluster and the nodes that were published
  -- last, or the empty ones at first, and its map is a new one, which no caller has.
  pub run-snapshot :
      (uses : List (Use F))
      → let s = run uses at_start in
        let ((cluster, r), after) = snapshot s.store s.maps in
        ((cluster, after.entries r) ≡ latest uses (empty_cluster, []))
        × AllApart r after.made s.held
  run-snapshot uses =
      let s = run uses at_start in
      let h = run-IsIsolated uses at_start (empty_cluster, []) at_start-IsIsolated in
      let (cluster, new, made, copied, kept) = snapshot-copies s.store s.maps h.store_made in
      (
        ap (λ c. (c, (snapshot s.store s.maps).1.entries (snapshot s.store s.maps).0.1)) cluster
            ∙ ap (λ m. (s.store.cluster, m)) copied
            ∙ ap (λ c. (c, s.maps.entries s.store.nodes)) h.cluster_shown
            ∙ ap (λ m. ((latest uses (empty_cluster, [])).0, m)) h.nodes_shown,
        rw (new, made) (AllApart-new s.store.nodes s.maps.made s.held h.apart),
      )
