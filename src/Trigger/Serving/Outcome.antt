-- ===== src/Trigger/Serving/Outcome.antt =====
-- When Start returns, and what.
use losant_device.Prelude.{ℕ, ◌<◌, ◌≡◌, refl, Bool, true, none, some, List, [], ◌∷◌, length, arith}
use losant_device.Go.{GoError, wrap}
use losant_device.Trigger.Serving.{
  no_error, server_closed, failure, Listener, listening, sending, done, Starter, selecting,
  shutting_down, returned, Serving, capacity, after_listen, received, serving, Move, send, stop,
  shut, receive, Step, moves, cancel, listen_ends, request_starts, request_ends, Reach, start,
  later,
}

-- Start has not received an error.
abbrev pub NotReceived : Starter → Type 0
NotReceived (returned (some e)) = ⊥
NotReceived _ = Unit

-- An error that the listener failed with was sent, and is in the channel until it is received.
abbrev pub Sent : GoError → List GoError → Starter → Type 0
Sent e [] selecting = ⊥
Sent e [] shutting_down = ⊥
Sent e [] (returned none) = ⊥
Sent e [] (returned (some x)) = x ≡ wrap "trigger server" e
Sent e (x ∷ []) m = (x ≡ e) × NotReceived m
Sent e _ m = ⊥

-- The channel agrees with the goroutine and with Start.
abbrev pub Channel : Listener → List GoError → Starter → Type 0
Channel (done (failure e)) q m = Sent e q m
Channel (sending r e) q m = (r ≡ failure e) × (q ≡ []) × NotReceived m
Channel _ q m = (q ≡ []) × NotReceived m

-- Start stops serving by itself only on the end of the context.
abbrev pub Cancelled : Bool → Starter → Type 0
Cancelled c selecting = Unit
Cancelled c (returned (some e)) = Unit
Cancelled c _ = c ≡ true

pub record IsSound (s : Serving) : Type 0 where
  pub channel : Channel s.listener s.errors s.starter
  pub ended : Cancelled s.cancelled s.starter

serving-IsSound : IsSound serving
serving-IsSound = grind arith

Move-IsSound : {s t : Serving} → Move s t → IsSound s → IsSound t
unfolding received
Move-IsSound (send r e l room) sound = grind arith
Move-IsSound (stop m c) sound = grind arith
Move-IsSound (shut r m idle) sound = grind arith
Move-IsSound (receive e rest m q) sound = grind arith

Step-IsSound : {s t : Serving} → Step s t → IsSound s → IsSound t
unfolding after_listen
Step-IsSound (moves m) sound = Move-IsSound m sound
Step-IsSound (cancel c) sound = grind arith
Step-IsSound (listen_ends r l) sound = grind arith
Step-IsSound (request_starts t) sound = grind arith
Step-IsSound (request_ends left a) sound = grind arith

pub Reach-IsSound : {n : ℕ} {s : Serving} → Reach n s → IsSound s
Reach-IsSound start = serving-IsSound
Reach-IsSound (later n r st) = Step-IsSound st (Reach-IsSound r)

-- What the return of Start says of the context and of the listener.
abbrev pub Reports : Serving → Starter → Type 0
Reports s (returned none) = s.cancelled ≡ true
Reports s (returned (some x)) =
    (e : GoError) × (s.listener ≡ done (failure e)) × (x ≡ wrap "trigger server" e)
Reports s _ = Unit

-- A goroutine that has an error to send finds room in the channel.
abbrev pub HasRoom : Serving → Listener → Type 0
HasRoom s (sending r e) = length s.errors < capacity
HasRoom s _ = Unit

IsSound-Reports : {s : Serving} (m : Starter) → s.starter ≡ m → IsSound s → Reports s m
IsSound-Reports selecting e sound = tt
IsSound-Reports shutting_down e sound = tt
IsSound-Reports (returned none) e sound = grind arith
IsSound-Reports {s} (returned (some x)) e sound = failed s.listener s.errors refl refl
  where
    failed :
        (l : Listener) (q : List GoError)
        → s.listener ≡ l
        → s.errors ≡ q
        → Reports s (returned (some x))
    failed (done (failure f)) [] l q = (f, l, grind arith)
    failed (done (failure f)) (y ∷ []) l q = absurd (grind arith)
    failed (done (failure f)) (y ∷ z ∷ more) l q = absurd (grind arith)
    failed listening es l q = absurd (grind arith)
    failed (sending r f) es l q = absurd (grind arith)
    failed (done no_error) es l q = absurd (grind arith)
    failed (done server_closed) es l q = absurd (grind arith)

IsSound-HasRoom : {s : Serving} (l : Listener) → s.listener ≡ l → IsSound s → HasRoom s l
IsSound-HasRoom (sending r f) e sound = grind arith
IsSound-HasRoom listening e sound = tt
IsSound-HasRoom (done r) e sound = tt

-- Start returns nil only when the context has ended, and an error only when the listener failed
-- with another error than http.ErrServerClosed: it is this error, under the prefix "trigger
-- server". The goroutine that has such an error to send is never held up by the channel, also
-- after Start has returned.
pub Reach-Reports : {n : ℕ} {s : Serving} → Reach n s → Reports s s.starter × HasRoom s s.listener
Reach-Reports {n} {s} r =
    let sound = Reach-IsSound r in
    (IsSound-Reports s.starter refl sound, IsSound-HasRoom s.listener refl sound)
