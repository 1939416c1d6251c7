-- ===== src/Monitor/Locking/Atomic.antt =====
-- Under the lock, Update and Snapshot are atomic.
use losant_device.Prelude.{ℕ, ◌≡◌, refl, sym, ◌∙◌, ap, Option, none, some, List, [], ◌∷◌, ◌++◌}
use mathlib.Core.Path.{subst}
use mathlib.Core.List.{append-nil, append_assoc}
use losant_device.Monitor.Store.{HealthStore, new_health_store, update}
use losant_device.Monitor.Locking.{
  Goroutine, outside, locking, read_locking, writing, wrote_cluster, wrote, ranging, copied, Event,
  updated, taken, System, Granted, Move, call_update, lock, set_cluster, set_nodes, unlock,
  call_snapshot, read_lock, copy_entry, take, read_unlock, with_goroutine, Step, step, noted, Reach,
  start, later,
}
use losant_device.Monitor.Locking.Invariant.{
  store_after, IsAtomic, effect, IsRight, Knows, Fits, moved, stays, writes_on,
}

module _ {F : Type 0} where
  module _ (a : HealthStore F) (m : HealthStore F) (gs : ℕ → Goroutine F) (i : ℕ)
      (fits : Fits a m gs) where
    known : (p : Goroutine F) → gs i ≡ p → Knows m a p
    known p at = subst (Knows m a) at (fits.knows i)

    Move-Fits :
        {p g : Goroutine F} {e : Option (Event F)} {m' : HealthStore F}
        → Move m p e m' g
        → gs i ≡ p
        → Granted gs p
        → Fits (effect e a) m' (with_goroutine gs i g)
    unfolding update
    Move-Fits (call_update c n) at free =
        stays a m gs i fits outside (locking c n) at tt (λ w h. absurd (cc)) (λ h. absurd (cc))
          (λ h. h)
    Move-Fits (lock c n) at free =
        moved a m gs i fits a m (writing c n) fits.cluster (fits.settled (λ j. (free j).0))
          (λ j ne. fits.knows j) (λ w _. absurd (cc)) (λ w j ne. free j)
          (λ j ne w. absurd (let here = (free j).0 in cc))
    Move-Fits (set_cluster c n) at free =
        writes_on a m gs i fits (writing c n) (wrote_cluster n) (update c n a)
          (record m { cluster = c }) at refl refl refl refl
    Move-Fits (set_nodes n) at free =
        writes_on a m gs i fits (wrote_cluster n) wrote a (record m { nodes = n }) at refl refl
          fits.cluster (sym (known (wrote_cluster n) at))
    Move-Fits unlock at free =
        stays a m gs i fits wrote outside at tt (λ w h. known wrote at) (λ h. absurd (cc))
          (λ h. (refl, refl))
    Move-Fits call_snapshot at free =
        stays a m gs i fits outside read_locking at tt (λ w h. absurd (cc)) (λ h. absurd (cc))
          (λ h. h)
    Move-Fits read_lock at free =
        moved a m gs i fits a m (ranging m.nodes []) fits.cluster (fits.settled free)
          (λ j ne. fits.knows j) (λ w _. fits.settled free) (λ w. absurd (cc))
          (λ j ne w. absurd (let here = free j in cc))
    Move-Fits (copy_entry k v todo nodes) at free =
        stays a m gs i fits (ranging ((k, v) ∷ todo) nodes) (ranging todo (nodes ++ (k, v) ∷ [])) at
          (append_assoc nodes ((k, v) ∷ []) todo ∙ known (ranging ((k, v) ∷ todo) nodes) at)
          (λ w h. absurd (cc)) (λ h. absurd (cc)) (λ h. absurd (let r = h.1 in cc))
    Move-Fits (take nodes) at free =
        stays a m gs i fits (ranging [] nodes) (copied (m.cluster, nodes)) at tt
          (λ w h. absurd (cc)) (λ h. absurd (cc)) (λ h. absurd (let r = h.1 in cc))
    Move-Fits (read_unlock x) at free =
        stays a m gs i fits (copied x) outside at tt (λ w h. absurd (cc)) (λ h. absurd (cc))
          (λ h. (refl, refl))

    Move-IsAtomic :
        {p g : Goroutine F} {e : Option (Event F)} {m' : HealthStore F}
        → Move m p e m' g
        → gs i ≡ p
        → IsRight e a
    Move-IsAtomic (take nodes) at =
        ap (λ c. (c, nodes)) fits.cluster
        ∙ ap (λ n. (a.cluster, n)) (sym (append-nil nodes) ∙ known (ranging [] nodes) at)
    Move-IsAtomic (call_update c n) at = tt
    Move-IsAtomic (lock c n) at = tt
    Move-IsAtomic (set_cluster c n) at = tt
    Move-IsAtomic (set_nodes n) at = tt
    Move-IsAtomic unlock at = tt
    Move-IsAtomic call_snapshot at = tt
    Move-IsAtomic read_lock at = tt
    Move-IsAtomic (copy_entry k v todo nodes) at = tt
    Move-IsAtomic (read_unlock x) at = tt

  start-Fits : Fits {F = F} new_health_store new_health_store (λ i. outside)
  start-Fits = record {
    cluster = refl;
    settled = λ h. refl;
    knows = λ j. tt;
    alone = λ i j ne w. absurd (cc);
  }

  store_after-noted :
      (e : Option (Event F)) (es : List (Event F))
      → store_after (noted e es) ≡ effect e (store_after es)
  store_after-noted none es = refl
  store_after-noted (some (updated c n)) es = refl
  store_after-noted (some (taken x)) es = refl

  noted-IsAtomic :
      (e : Option (Event F)) (es : List (Event F))
      → IsRight e (store_after es)
      → IsAtomic es
      → IsAtomic (noted e es)
  noted-IsAtomic none es right h = h
  noted-IsAtomic (some (updated c n)) es right h = h
  noted-IsAtomic (some (taken x)) es right h = (right, h)

  Step-keeps :
      (es : List (Event F)) {s t : System F} {e : Option (Event F)}
      → Step s e t
      → Fits (store_after es) s.store s.goroutine × IsAtomic es
      → Fits (store_after (noted e es)) t.store t.goroutine × IsAtomic (noted e es)
  Step-keeps es {s} {e = e} (step i {m = m} {g = g} granted mv) (fits, atomic) = (
    subst (λ b. Fits b m (with_goroutine s.goroutine i g)) (sym (store_after-noted e es))
        (Move-Fits (store_after es) s.store s.goroutine i fits mv refl granted),
    noted-IsAtomic e es (Move-IsAtomic (store_after es) s.store s.goroutine i fits mv refl) atomic,
  )

  Reach-keeps :
      {es : List (Event F)} {s : System F}
      → Reach es s
      → Fits (store_after es) s.store s.goroutine × IsAtomic es
  Reach-keeps start = (start-Fits, tt)
  Reach-keeps (later {es} r st) = Step-keeps es st (Reach-keeps r)

  -- Under its lock the health store is atomic. However the steps of any number of goroutines in
  -- Update and Snapshot are interleaved, each Snapshot gives the cluster and the nodes, entry for
  -- entry, that one and the same Update stored: the last one before it, in the order in which the
  -- calls take effect, or what NewHealthStore stored if there is none. Each call takes effect
  -- between its beginning and its return.
  pub Reach-IsAtomic : {es : List (Event F)} {s : System F} → Reach es s → IsAtomic es
  Reach-IsAtomic r = (Reach-keeps r).1
