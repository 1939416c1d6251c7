-- ===== src/Exec.antt =====
-- Go functions that call other systems: a state of the outside world with the trace of the calls
-- made, early `return`, and `panic`.
use losant_device.Prelude.{◌≡◌, refl, Bool, true, false, List, ◌∷◌}
use losant_device.Go.{GoError, Fallible, ok, err, Duration}
use losant_device.Prelude.Int.{pos}

-- The world that the calls act on, and the calls made so far, the newest first.
pub record Sys (W C : Type 0) : Type 0 where
  pub world : W
  pub trace : List C

-- `next` goes on with a value, `stop` has returned from the function.
pub data Flow (R A : Type 0) : Type 0 where
  next : A → Flow R A
  stop : R → Flow R A
  panic : Flow R A

abbrev pub Exec : Type 0 → Type 0 → Type 0 → Type 0 → Type 0
Exec W C R A = Sys W C → Flow R A × Sys W C

module _ {W C R A : Type 0} where
  abbrev pub pure : A → Exec W C R A
  pure a s = (next a, s)

  -- return r
  abbrev pub return : R → Exec W C R A
  return r s = (stop r, s)

  abbrev pub crash : Exec W C R A
  crash s = (panic, s)

  -- A call that leaves a record in the trace.
  abbrev pub call : (A → C) → (W → A × W) → Exec W C R A
  call event f s =
      let (a, w) = f s.world in (next a, record { world = w; trace = event a ∷ s.trace })

  -- A read of the world, which leaves none.
  abbrev pub read : (W → A × W) → Exec W C R A
  read f s = let (a, w) = f s.world in (next a, record s { world = w })

module _ {W C R A B : Type 0} where
  abbrev pub continue : Flow R A → (A → Exec W C R B) → Exec W C R B
  continue (next a) f s = f a s
  continue (stop r) f s = (stop r, s)
  continue panic f s = (panic, s)

  infixl 5 ◌>>=◌ ◌>>◌
  abbrev pub ◌>>=◌ : Exec W C R A → (A → Exec W C R B) → Exec W C R B
  ◌>>=◌ m f s = continue (m s).0 f (m s).1

  abbrev pub ◌>>◌ : Exec W C R A → Exec W C R B → Exec W C R B
  m >> n = m >>= λ _. n

-- The value that a function body returns, at its end or early.
abbrev pub returned : {R Q : Type 0} → Flow R R → Flow Q R
returned (next r) = next r
returned (stop r) = next r
returned panic = panic

abbrev pub stopped : {R A : Type 0} → Flow R R → Flow R A
stopped (next r) = stop r
stopped (stop r) = stop r
stopped panic = panic

module _ {W C R : Type 0} where
  -- A call of another function of the program.
  abbrev pub scope : {Q : Type 0} → Exec W C R R → Exec W C Q R
  scope m s = (returned (m s).0, (m s).1)

  -- return m()
  abbrev pub return_of : {A : Type 0} → Exec W C R R → Exec W C R A
  return_of m s = (stopped (m s).0, (m s).1)

  -- if err != nil { return handle(err) }
  abbrev pub value : {A : Type 0} → Fallible A → (GoError → Exec W C R R) → Exec W C R A
  value (ok a) handle = pure a
  value (err e) handle = return_of (handle e)

-- A function that has returned gives no value to go on with.
pub stopped-next : {R A : Type 0} (flow : Flow R R) (a : A) → ¬ (stopped flow ≡ next a)
stopped-next (next r) a = cc
stopped-next (stop r) a = cc
stopped-next panic a = cc

pub continue-stopped-next :
    {W C R A B : Type 0} (flow : Flow R R) (f : A → Exec W C R B) (s : Sys W C) (b : B)
    → ¬ ((continue (stopped flow) f s).0 ≡ next b)
continue-stopped-next (next r) f s b = cc
continue-stopped-next (stop r) f s b = cc
continue-stopped-next panic f s b = cc

-- Parts in a row may be bracketed either way.
module _ {W C R A B D : Type 0} where
  continue-continue :
      (flow : Flow R A) (f : A → Exec W C R B) (g : B → Exec W C R D) (s : Sys W C)
      → continue (continue flow f s).0 g (continue flow f s).1 ≡ continue flow (λ a. f a >>= g) s
  continue-continue (next a) f g s = refl
  continue-continue (stop r) f g s = refl
  continue-continue panic f g s = refl

  pub >>=-assoc :
      (m : Exec W C R A) (f : A → Exec W C R B) (g : B → Exec W C R D) (s : Sys W C)
      → (m >>= f >>= g) s ≡ (m >>= λ a. f a >>= g) s
  >>=-assoc m f g s = continue-continue (m s).0 f g (m s).1

-- What holds of the trace after each way through a part holds after the part.
module _ {W C R A B : Type 0} (P : List C → Type 0) where
  pub continue_keeps :
      (flow : Flow R A) (f : A → Exec W C R B) (s : Sys W C)
      → P s.trace
      → ((a : A) → P (f a s).1.trace)
      → P (continue flow f s).1.trace
  continue_keeps (next a) f s h k = k a
  continue_keeps (stop r) f s h k = h
  continue_keeps panic f s h k = h

  pub stopped_keeps :
      (flow : Flow R R) (f : A → Exec W C R B) (s : Sys W C)
      → P s.trace
      → P (continue (stopped flow) f s).1.trace
  stopped_keeps (next r) f s h = h
  stopped_keeps (stop r) f s h = h
  stopped_keeps panic f s h = h

  -- a checked error, then the rest
  pub value_keeps :
      (r : Fallible A) (handle : GoError → Exec W C R R) (f : A → Exec W C R B) (s : Sys W C)
      → ((e : GoError) → P (handle e s).1.trace)
      → ((a : A) → r ≡ ok a → P (f a s).1.trace)
      → P ((value r handle >>= f) s).1.trace
  value_keeps (ok a) handle f s bad good = good a refl
  value_keeps (err e) handle f s bad good = stopped_keeps (handle e s).0 f (handle e s).1 (bad e)

-- ctrl.Result
pub record ReconcileResult : Type 0 where
  pub requeue : Bool
  pub requeue_after : Duration

-- What `Reconcile` returns: a result, or an error beside the empty result.
pub data Outcome : Type 0 where
  finished : ReconcileResult → Outcome
  failed : GoError → Outcome

abbrev pub empty_result : ReconcileResult
empty_result = record { requeue = false; requeue_after = pos 0 }

abbrev pub requeue_now : ReconcileResult
requeue_now = record { requeue = true; requeue_after = pos 0 }

abbrev pub requeue_in : Duration → ReconcileResult
requeue_in d = record { requeue = false; requeue_after = d }
