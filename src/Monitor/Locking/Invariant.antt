-- ===== src/Monitor/Locking/Invariant.antt =====
-- What holds in every state of the locked store, and how a move of one goroutine keeps it.
use losant_device.Prelude.{
  ℕ, ◌≡◌, ◌≢◌, refl, sym, ◌∙◌, ap, true, false, Bool-cases, inl, inr, Option, some, List, [], ◌∷◌,
  ◌++◌,
}
use mathlib.Core.Path.{subst}
use mathlib.Core.Logic.{if_pos, if_neg}
use native.Mathlib.Decide.{ℕ_discrete}
use losant_device.Monitor.Store.{HealthStore, new_health_store, update, contents}
use losant_device.Monitor.Locking.{
  Goroutine, outside, locking, read_locking, writing, wrote_cluster, wrote, ranging, copied, Event,
  updated, taken, writes, reads, with_goroutine,
}

module _ {F : Type 0} where
  -- The atomic store after these events.
  abbrev pub store_after : List (Event F) → HealthStore F
  store_after [] = new_health_store
  store_after (updated c n ∷ es) = update c n (store_after es)
  store_after (taken x ∷ es) = store_after es

  -- Each snapshot is that of the atomic store at its place among the updates.
  abbrev pub IsAtomic : List (Event F) → Type 0
  IsAtomic [] = Unit
  IsAtomic (updated c n ∷ es) = IsAtomic es
  IsAtomic (taken x ∷ es) = (x ≡ contents (store_after es)) × IsAtomic es

  -- What an event does to the atomic store, and what it says of it.
  abbrev pub effect : Option (Event F) → HealthStore F → HealthStore F
  effect (some (updated c n)) a = update c n a
  effect _ a = a

  abbrev pub IsRight : Option (Event F) → HealthStore F → Type 0
  IsRight (some (taken x)) a = x ≡ contents a
  IsRight _ a = Unit

  -- What a goroutine that holds the lock knows of the store's fields `m` and of the atomic store
  -- `a`.
  abbrev pub Knows : HealthStore F → HealthStore F → Goroutine F → Type 0
  Knows m a (writing c n) = m.nodes ≡ a.nodes
  Knows m a (wrote_cluster n) = a.nodes ≡ n
  Knows m a wrote = m.nodes ≡ a.nodes
  Knows m a (ranging todo nodes) = nodes ++ todo ≡ a.nodes
  Knows m a _ = Unit

  pub record Fits (a : HealthStore F) (m : HealthStore F) (gs : ℕ → Goroutine F) : Type 0 where
    pub cluster : m.cluster ≡ a.cluster
    pub settled : ((j : ℕ) → writes (gs j) ≡ false) → m.nodes ≡ a.nodes
    pub knows : (j : ℕ) → Knows m a (gs j)
    pub alone :
        (i j : ℕ) → i ≢ j → writes (gs i) ≡ true → (writes (gs j) ≡ false) × (reads (gs j) ≡ false)

  -- A goroutine that does not hold the lock knows nothing that could change.
  Knows-idle :
      (m a : HealthStore F) (g : Goroutine F) → writes g ≡ false → reads g ≡ false → Knows m a g
  Knows-idle m a (writing c n) w r = absurd (cc)
  Knows-idle m a (wrote_cluster n) w r = absurd (cc)
  Knows-idle m a wrote w r = absurd (cc)
  Knows-idle m a (ranging todo nodes) w r = absurd (cc)
  Knows-idle m a outside w r = tt
  Knows-idle m a read_locking w r = tt
  Knows-idle m a (locking c n) w r = tt
  Knows-idle m a (copied x) w r = tt

  with_goroutine_self :
      (gs : ℕ → Goroutine F) (i : ℕ) (g : Goroutine F) → with_goroutine gs i g i ≡ g
  with_goroutine_self gs i g = if_pos (ℕ_discrete i i) refl g (gs i)

  with_goroutine_other :
      (gs : ℕ → Goroutine F) (i : ℕ) (g : Goroutine F) (j : ℕ)
      → i ≢ j
      → with_goroutine gs i g j ≡ gs j
  with_goroutine_other gs i g j h = if_neg (ℕ_discrete i j) h g (gs j)

  -- What holds of the goroutine that has moved and of the others holds of all.
  each :
      (P : Goroutine F → Type 0) (gs : ℕ → Goroutine F) (i : ℕ) (g : Goroutine F)
      → P g
      → ((j : ℕ) → i ≢ j → P (gs j))
      → (j : ℕ) → P (with_goroutine gs i g j)
  each P gs i g own others j = elim (ℕ_discrete i j) [
    | yes e ↦
        subst (λ k. P (with_goroutine gs i g k)) e (subst P (sym (with_goroutine_self gs i g)) own)
    | no h ↦ subst P (sym (with_goroutine_other gs i g j h)) (others j h)
  ]

  -- A goroutine that does not hold the lock.
  abbrev pub IsFree : Goroutine F → Type 0
  IsFree g = (writes g ≡ false) × (reads g ≡ false)

  module _ (a : HealthStore F) (m : HealthStore F) (gs : ℕ → Goroutine F) (i : ℕ)
      (fits : Fits a m gs) where
    still_alone :
        (g : Goroutine F)
        → (writes g ≡ true → (j : ℕ) → i ≢ j → IsFree (gs j))
        → ((j : ℕ) → i ≢ j → writes (gs j) ≡ true → IsFree g)
        → (k j : ℕ) → k ≢ j
        → writes (with_goroutine gs i g k) ≡ true
        → IsFree (with_goroutine gs i g j)
    still_alone g here there k j ne w = elim (ℕ_discrete i k) [
      | yes e ↦
          let ne' : i ≢ j = λ q. ne (sym e ∙ q) in
          let w' : writes g ≡ true =
            ap writes (sym (with_goroutine_self gs i g) ∙ ap (with_goroutine gs i g) e) ∙ w in
          subst IsFree (sym (with_goroutine_other gs i g j ne')) (here w' j ne')
      | no h ↦
          let w' : writes (gs k) ≡ true = ap writes (sym (with_goroutine_other gs i g k h)) ∙ w in
          elim (ℕ_discrete i j) [
            | yes e ↦
                subst (λ l. IsFree (with_goroutine gs i g l)) e
                  (subst IsFree (sym (with_goroutine_self gs i g)) (there k h w'))
            | no h' ↦ subst IsFree (sym (with_goroutine_other gs i g j h')) (fits.alone k j ne w')
          ]
    ]

    -- The goroutine i moves to g, and the store's fields and the atomic store to m' and a'.
    pub moved :
        (a' m' : HealthStore F) (g : Goroutine F)
        → m'.cluster ≡ a'.cluster
        → Knows m' a' g
        → ((j : ℕ) → i ≢ j → Knows m' a' (gs j))
        → (writes g ≡ false → ((j : ℕ) → i ≢ j → writes (gs j) ≡ false) → m'.nodes ≡ a'.nodes)
        → (writes g ≡ true → (j : ℕ) → i ≢ j → IsFree (gs j))
        → ((j : ℕ) → i ≢ j → writes (gs j) ≡ true → IsFree g)
        → Fits a' m' (with_goroutine gs i g)
    moved a' m' g same own others calm alone_here alone_there = record {
      cluster = same;
      settled = λ h.
          calm (subst (λ k. writes k ≡ false) (with_goroutine_self gs i g) (h i))
            (λ j ne. subst (λ k. writes k ≡ false) (with_goroutine_other gs i g j ne) (h j));
      knows = each (Knows m' a') gs i g own others;
      alone = still_alone g alone_here alone_there;
    }

    -- A move that leaves the store's fields alone and takes no lock.
    pub stays :
        (p g : Goroutine F)
        → gs i ≡ p
        → Knows m a g
        → (writes g ≡ false → writes p ≡ true → m.nodes ≡ a.nodes)
        → (writes g ≡ true → writes p ≡ true)
        → ((writes p ≡ false) × (reads p ≡ false) → IsFree g)
        → Fits a m (with_goroutine gs i g)
    stays p g at own calm keeps_lock keeps_free =
        moved a m g fits.cluster own (λ j ne. fits.knows j)
          (λ w others. elim (Bool-cases (writes p)) [
            | inl held ↦ calm w held
            | inr free ↦ fits.settled (λ j. elim (ℕ_discrete i j) [
              | yes e ↦ subst (λ k. writes (gs k) ≡ false) e (rw at free)
              | no ne ↦ others j ne
            ])
          ])
          (λ w j ne. fits.alone i j ne (rw at (keeps_lock w)))
          (λ j ne w. keeps_free (subst IsFree at (fits.alone j i (λ q. ne (sym q)) w)))

    -- A writer's move: it alone holds the lock, before and after.
    pub writes_on :
        (p g : Goroutine F) (a' m' : HealthStore F)
        → gs i ≡ p
        → writes p ≡ true
        → writes g ≡ true
        → m'.cluster ≡ a'.cluster
        → Knows m' a' g
        → Fits a' m' (with_goroutine gs i g)
    writes_on p g a' m' at held holding same own =
        let others = λ (j : ℕ) (ne : i ≢ j). fits.alone i j ne (ap writes at ∙ held) in
        moved a' m' g same own (λ j ne. Knows-idle m' a' (gs j) (others j ne).0 (others j ne).1)
          (λ w _. absurd (cc)) (λ w j ne. others j ne)
          (λ j ne w. absurd (let free = (others j ne).0 in cc))
