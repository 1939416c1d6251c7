-- ===== src/Go/Slices.antt =====
-- Go's slices over shared arrays: `append` writes in place where the capacity allows it.
use losant_device.Prelude.{
  ℕ, zero, suc, ◌+◌, ◌&&◌, ltb, ◌==◌, Option, none, some, List, [], ◌∷◌, ◌++◌, if◌then◌else◌,
}

pub record Slice : Type 0 where
  pub array : ℕ
  pub size : ℕ
  pub capacity : ℕ

-- The arrays that were made: `cell a i` is the i-th cell of the a-th one, `used` their number.
pub record Arrays (A : Type 0) : Type 0 where
  pub cell : ℕ → ℕ → Option A
  pub used : ℕ

abbrev pub nil : Slice
nil = record { array = 0; size = 0; capacity = 0 }

abbrev pub no_arrays : {A : Type 0} → Arrays A
no_arrays = record { cell = λ a i. none; used = 0 }

module _ {A : Type 0} where
  -- the cells of an array up to n
  abbrev pub cells : (ℕ → Option A) → ℕ → List A
  cells c zero = []
  cells c (suc n) = cells c n ++ elim (c n) [ none ↦ [] | some v ↦ v ∷ [] ]

  abbrev pub contents : Slice → Arrays A → List A
  contents s h = cells (h.cell s.array) s.size

  -- append(s, v), where `grow n` is the capacity of a new array for n values
  unfoldable pub append : (ℕ → ℕ) → Slice → A → Arrays A → Slice × Arrays A
  append grow s v h =
      if ltb s.size s.capacity
      then (
        record s { size = s.size + 1 },
        record h { cell = λ a i. if a == s.array && i == s.size then some v else h.cell a i },
      )
      else (
        record { array = h.used; size = s.size + 1; capacity = grow (s.size + 1) },
        record {
          cell = λ a i.
              if a == h.used
              then (if i == s.size then some v else if ltb i s.size then h.cell s.array i else none)
              else h.cell a i;
          used = h.used + 1;
        },
      )
