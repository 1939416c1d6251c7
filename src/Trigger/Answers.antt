-- ===== src/Trigger/Answers.antt =====
-- What an answer of the trigger server says of the write that it made.
use losant_device.Prelude.{ℕ, String, ◌≡◌, ◌≢◌, List, [], ◌∷◌, arith, if◌then◌else◌}
use losant_device.Prelude.Int.{ℤ, pos, ◌<ℤ◌}
use losant_device.Go.{Fallible, ok, err, is_not_found, is_already_exists}
use losant_device.Exec.{Flow, next, stop}
use losant_device.Trigger.{
  Call, Response, RancherRequest, Server, session_created, session_deleted, new_session,
  handle_connect, handle_disconnect, act, handle_rancher,
}

-- The status code that the result of a creation or a deletion calls for.
abbrev pub code_of_creation : Fallible (Unit {0}) → ℕ
code_of_creation (ok _) = 202
code_of_creation (err e) = if is_already_exists e then 409 else 500

abbrev pub code_of_deletion : Fallible (Unit {0}) → ℕ
code_of_deletion (ok _) = 202
code_of_deletion (err e) = if is_not_found e then 404 else 500

-- With no write the code is not 202. Else there is one write, the code is that of its result, and
-- a session that is created has a positive TTL.
abbrev pub IsHonest : ℕ → List Call → Type 0
IsHonest code [] = code ≢ 202
IsHonest code (session_created rs r ∷ []) =
    (code ≡ code_of_creation r) × (pos 0 <ℤ rs.spec.ttl_seconds)
IsHonest code (session_deleted rs r ∷ []) = code ≡ code_of_deletion r
IsHonest code _ = ⊥

abbrev pub Answers : Flow Response Response → List Call → Type 0
Answers (next r) calls = IsHonest r.code calls
Answers (stop r) calls = IsHonest r.code calls
Answers _ calls = ⊥

module _ {W : Type 0} (server : Server W) where
  ttl-new_session :
      (name : String) (ttl : ℤ) → pos 0 <ℤ (new_session server name ttl).spec.ttl_seconds
  unfolding new_session
  ttl-new_session name ttl = ground arith

  handle_connect-Answers :
      (name : String) (ttl : ℤ) (w : W)
      → Answers
          (handle_connect server name ttl (record { world = w; trace = [] })).0
          (handle_connect server name ttl (record { world = w; trace = [] })).1.trace
  unfolding handle_connect
  handle_connect-Answers name ttl w = grind (arith, ttl-new_session name ttl)

  handle_disconnect-Answers :
      (name : String) (w : W)
      → Answers
          (handle_disconnect server name (record { world = w; trace = [] })).0
          (handle_disconnect server name (record { world = w; trace = [] })).1.trace
  unfolding handle_disconnect
  handle_disconnect-Answers name w = grind arith

  act-Answers :
      (req : RancherRequest) (name : String) (w : W)
      → Answers
          (act server req name (record { world = w; trace = [] })).0
          (act server req name (record { world = w; trace = [] })).1.trace
  unfolding act
  act-Answers req name w =
      ground
        (arith, handle_connect-Answers name req.ttl_seconds w, handle_disconnect-Answers name w)

  -- The trigger server never panics and makes at most one write. It answers 202 only if that write
  -- succeeded; a creation that failed gives 409 if the session exists and else 500, and a deletion
  -- that failed gives 404 if there is no session and else 500. A session that it creates has a
  -- positive TTL, whatever the request's.
  pub handle_rancher-Answers :
      (method body : String) (w : W)
      → let (flow, after) = handle_rancher server method body (record { world = w; trace = [] }) in
        Answers flow after.trace
  unfolding handle_rancher
  handle_rancher-Answers method body w = grind (arith, act-Answers)
