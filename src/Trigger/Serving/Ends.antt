-- ===== src/Trigger/Serving/Ends.antt =====
-- Start returns, once the requests in progress have ended.
use losant_device.Prelude.{
  ℕ, ◌+◌, ◌*◌, ◌≤◌, ◌<◌, ◌≡◌, refl, ◌⊎◌, inl, inr, Bool, true, false, Bool-cases, ◌||◌, Option,
  List, [], ◌∷◌, arith,
}
use native.Mathlib.Decide.{ℕ_discrete}
use losant_device.Go.{GoError, ok}
use losant_device.Trigger.Serving.{
  no_error, server_closed, failure, Listener, listening, sending, done, Starter, selecting,
  shutting_down, returned, Serving, after_listen, received, Move, send, stop, shut, receive, Step,
  moves, cancel, listen_ends, request_starts, request_ends, Reach, start, later,
}
use losant_device.Trigger.Serving.Outcome.{IsSound, Reach-IsSound}

-- The steps that are left, beside those of the requests.
abbrev listener_rank : Listener → ℕ
listener_rank listening = 2
listener_rank (sending r e) = 1
listener_rank (done r) = 0

abbrev starter_rank : Starter → ℕ
starter_rank selecting = 2
starter_rank shutting_down = 1
starter_rank (returned r) = 0

abbrev context_rank : Bool → ℕ
context_rank true = 0
context_rank false = 1

abbrev rank : Serving → ℕ
rank s = context_rank s.cancelled + listener_rank s.listener + starter_rank s.starter

rank-Move :
    {s t : Serving}
    → Move s t
    → (rank t + 1 ≤ rank s) × (t.active ≡ s.active) × (t.requests ≡ s.requests)
unfolding received
rank-Move (send r e l room) = ground arith
rank-Move (stop m c) = ground arith
rank-Move (shut r m idle) = ground arith
rank-Move (receive e rest m q) = ground arith

rank-Step :
    {s t : Serving}
    → Step s t
    → rank t + t.active + 2 * s.requests + 1 ≤ rank s + s.active + 2 * t.requests
unfolding after_listen
rank-Step (moves m) = let (less, active, requests) = rank-Move m in omega arith
rank-Step (cancel c) = ground arith
rank-Step (listen_ends r l) = ground arith
rank-Step (request_starts t) = ground arith
rank-Step (request_ends left a) = ground arith

rank-Reach : {n : ℕ} {s : Serving} → Reach n s → n + rank s + s.active ≤ 5 + 2 * s.requests
rank-Reach start = omega arith
rank-Reach (later n r st) = omega (arith, rank-Reach r, rank-Step st)

-- ListenAndServe has returned an error that is not http.ErrServerClosed.
abbrev pub has_failed : Listener → Bool
has_failed (sending r e) = true
has_failed (done (failure e)) = true
has_failed _ = false

-- Start is in srv.Shutdown, and a request is in progress.
abbrev pub Waits : Serving → Type 0
Waits s = (s.starter ≡ shutting_down) × (0 < s.active)

-- Start has returned, or the code has a step to take, or Start waits for requests.
abbrev pub GoesOn : Serving → Type 0
GoesOn s = ((r : Option GoError) × (s.starter ≡ returned r)) ⊎ ((t : Serving) × Move s t) ⊎ Waits s

failed_goes_on :
    (s : Serving) (l : Listener) (q : List GoError)
    → s.listener ≡ l
    → s.errors ≡ q
    → s.starter ≡ selecting
    → IsSound s
    → has_failed l ≡ true
    → GoesOn s
failed_goes_on s (sending r e) q l k m sound h = inr (inl (_, send r e l (grind arith)))
failed_goes_on s (done (failure e)) [] l k m sound h = absurd (grind arith)
failed_goes_on s (done (failure e)) (x ∷ rest) l k m sound h = inr (inl (_, receive x rest m k))
failed_goes_on s listening q l k m sound h = absurd (cc)
failed_goes_on s (done no_error) q l k m sound h = absurd (cc)
failed_goes_on s (done server_closed) q l k m sound h = absurd (cc)

goes_on :
    (s : Serving) (m : Starter)
    → s.starter ≡ m
    → IsSound s
    → (s.cancelled || has_failed s.listener) ≡ true
    → GoesOn s
goes_on s (returned r) m sound h = inl (r, m)
goes_on s shutting_down m sound h = elim (ℕ_discrete s.active 0) [
  | yes idle ↦ inr (inl (_, shut (ok tt) m idle))
  | no busy ↦ inr (inr (m, omega arith))
]
goes_on s selecting m sound h = elim (Bool-cases s.cancelled) [
  | inl c ↦ inr (inl (_, stop m c))
  | inr c ↦ failed_goes_on s s.listener s.errors refl refl m sound (ground arith)
]

-- Only requests in progress hold Start up. Once the context has ended, or the listener has failed
-- with another error than http.ErrServerClosed, Start has returned, or the code has a step to take,
-- or Start is in srv.Shutdown, which waits without a limit, while a request is in progress. From
-- the start of the goroutine on, no more than five steps and two for each request that has started
-- were taken.
pub Reach-GoesOn :
    {n : ℕ} {s : Serving}
    → Reach n s
    → (s.cancelled || has_failed s.listener) ≡ true
    → (n ≤ 5 + 2 * s.requests) × GoesOn s
Reach-GoesOn {n} {s} r over =
    (omega (arith, rank-Reach r), goes_on s s.starter refl (Reach-IsSound r) over)
