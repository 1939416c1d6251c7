-- ===== src/Trigger/Serving.antt =====
-- internal/trigger/server.go: Server.Start, beside the goroutine that listens. Their steps are
-- interleaved in any order, with the requests that the server handles and the ends of the context
-- and of the listener between them.
pub mod Ends
pub mod Outcome
use losant_device.Prelude.{
  ℕ, zero, suc, ◌+◌, ◌≡◌, ◌<◌, Bool, true, false, Option, none, some, List, [], ◌∷◌, ◌++◌, length,
}
use losant_device.Go.{GoError, Fallible, wrap}

-- What srv.ListenAndServe() returns: nil, http.ErrServerClosed, or another error.
pub data ListenEnd : Type 0 where
  no_error server_closed : ListenEnd
  failure : GoError → ListenEnd

-- The goroutine: in ListenAndServe, at `errCh <- err` after its return, or at its end.
pub data Listener : Type 0 where
  listening : Listener
  sending : ListenEnd → GoError → Listener
  done : ListenEnd → Listener

-- Start: at its `select`, in srv.Shutdown, or returned.
pub data Starter : Type 0 where
  selecting shutting_down : Starter
  returned : Option GoError → Starter

-- `errors` is the content of errCh; `active` counts the requests in progress and `requests` all
-- that have started.
pub record Serving : Type 0 where
  pub cancelled : Bool
  pub listener : Listener
  pub errors : List GoError
  pub starter : Starter
  pub active : ℕ
  pub requests : ℕ

-- make(chan error, 1)
abbrev pub capacity : ℕ
capacity = 1

-- The goroutine after ListenAndServe: `err != nil && err != http.ErrServerClosed`.
unfoldable pub after_listen : ListenEnd → Listener
after_listen no_error = done no_error
after_listen server_closed = done server_closed
after_listen (failure e) = sending (failure e) e

-- What Start returns when it receives an error.
unfoldable pub received : GoError → Starter
received e = returned (some (wrap "trigger server" e))

-- Start, once its goroutine is started.
abbrev pub serving : Serving
serving = record {
  cancelled = false;
  listener = listening;
  errors = [];
  starter = selecting;
  active = 0;
  requests = 0;
}

-- srv.Shutdown has not been called, so that the server takes requests: after a failure of the
-- listener too, over the connections that it has.
abbrev pub takes_requests : Starter → Bool
takes_requests selecting = true
takes_requests (returned (some e)) = true
takes_requests _ = false

-- What the code does by itself.
pub data Move (s : Serving) : Serving → Type 0 where
  -- errCh <- err
  send :
      (r : ListenEnd) (e : GoError)
      → s.listener ≡ sending r e
      → length s.errors < capacity
      → Move s (record s { listener = done r; errors = s.errors ++ e ∷ [] })
  -- case <-ctx.Done()
  stop : s.starter ≡ selecting → s.cancelled ≡ true → Move s (record s { starter = shutting_down })
  -- the return after srv.Shutdown, whose error is only logged: under context.Background() it waits,
  -- without a limit, until no request is in progress
  shut :
      Fallible (Unit {0})
      → s.starter ≡ shutting_down
      → s.active ≡ 0
      → Move s (record s { starter = returned none })
  -- case err := <-errCh
  receive :
      (e : GoError) (rest : List GoError)
      → s.starter ≡ selecting
      → s.errors ≡ e ∷ rest
      → Move s (record s { errors = rest; starter = received e })

-- A step: one of the code, the end of the context, the return of ListenAndServe, or the start or
-- the end of a request.
pub data Step (s : Serving) : Serving → Type 0 where
  moves : {t : Serving} → Move s t → Step s t
  cancel : s.cancelled ≡ false → Step s (record s { cancelled = true })
  listen_ends :
      (r : ListenEnd) → s.listener ≡ listening → Step s (record s { listener = after_listen r })
  request_starts :
      takes_requests s.starter ≡ true
      → Step s (record s { active = s.active + 1; requests = s.requests + 1 })
  request_ends : (left : ℕ) → s.active ≡ suc left → Step s (record s { active = left })

-- The states after n steps.
pub data Reach : ℕ → Serving → Type 0 where
  start : Reach zero serving
  later : (n : ℕ) {s t : Serving} → Reach n s → Step s t → Reach (suc n) t
