-- ===== src/Go.antt =====
-- Go's errors, results and instants, as every component uses them.
pub mod Slices
use losant_device.Prelude.{
  String, ◌⊕◌, Bool, true, false, Option, none, some, str_eq, ◌≡◌, refl, ◌⊎◌, inl, inr,
}
use losant_device.Prelude.Int.{ℤ, ltb_ℤ}

-- The sentinel that `errors.Is` or the `k8serrors` tests find in an error's chain.
pub data Sentinel : Type 0 where
  not_found already_exists workflow_not_found rancher_not_found : Sentinel

-- An `error`: its text, and the sentinel that it wraps.
pub record GoError : Type 0 where
  pub text : String
  pub wraps : Option Sentinel

-- fmt.Errorf("text")
abbrev pub new_error : String → GoError
new_error text = record { text = text; wraps = none }

-- fmt.Errorf("prefix: %w", err)
abbrev pub wrap : String → GoError → GoError
wrap prefix e = record { text = prefix ⊕ (": " ⊕ e.text); wraps = e.wraps }

abbrev pub is_sentinel : Sentinel → Option Sentinel → Bool
is_sentinel not_found (some not_found) = true
is_sentinel already_exists (some already_exists) = true
is_sentinel workflow_not_found (some workflow_not_found) = true
is_sentinel rancher_not_found (some rancher_not_found) = true
is_sentinel _ _ = false

-- k8serrors.IsNotFound(err), k8serrors.IsAlreadyExists(err)
abbrev pub is_not_found : GoError → Bool
is_not_found e = is_sentinel not_found e.wraps

abbrev pub is_already_exists : GoError → Bool
is_already_exists e = is_sentinel already_exists e.wraps

-- A result of type (T, error).
pub data Fallible (A : Type 0) : Type 0 where
  ok : A → Fallible A
  err : GoError → Fallible A

abbrev pub succeeded : {A : Type 0} → Fallible A → Bool
succeeded (ok a) = true
succeeded (err e) = false

pub Fallible-cases :
    {A : Type 0} (r : Fallible A) → ((a : A) × (r ≡ ok a)) ⊎ ((e : GoError) × (r ≡ err e))
Fallible-cases (ok a) = inl (a, refl)
Fallible-cases (err e) = inr (e, refl)

-- Instants and durations, in nanoseconds. An instant counts from Go's zero time.
abbrev pub Time : Type 0
Time = ℤ

abbrev pub Duration : Type 0
Duration = ℤ

-- t.After(u)
abbrev pub after : Time → Time → Bool
after t u = ltb_ℤ u t

-- s == ""
abbrev pub is_empty : String → Bool
is_empty s = str_eq s ""
