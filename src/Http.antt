-- ===== src/Http.antt =====
-- HTTP as the three API clients use it: a request that is ready to be sent, what comes back, and
-- functions of type func(ctx, …) (T, error) over them.
use losant_device.Prelude.{◌≡◌, refl, if◌then◌else◌, String, Bool, Option, none, some, List, Assoc}
use losant_device.Prelude.Int.{ℤ, pos, ltb_ℤ}
use losant_device.Prelude.Texts.{contains}
use losant_device.Go.{GoError, Fallible, ok, err, wrap}

-- A value of a request's JSON payload. Marshalling such a value never fails.
pub data Json : Type 0 where
  text : String → Json
  boolean : Bool → Json
  texts : List String → Json
  objects : List (Assoc String) → Json

-- `token` is that of the Authorization header. The other headers are the same in each request.
pub record Request : Type 0 where
  pub method : String
  pub url : String
  pub token : String
  pub payload : Option (Assoc Json)

-- `not_built` is an error of http.NewRequest, `not_sent` one of Do; a response has its status code
-- and its body, or the error of reading it.
pub data Reply : Type 0 where
  not_built not_sent : GoError → Reply
  received : ℤ → Fallible String → Reply

-- The network, as http.NewRequest, Do and io.ReadAll see it.
abbrev pub Transport : Type 0 → Type 0
Transport W = Request → W → Reply × W

-- A function that returns a value and an error, and acts on the world.
abbrev pub Action : Type 0 → Type 0 → Type 0
Action W A = W → Fallible A × W

module _ {W : Type 0} where
  abbrev pub pure : {A : Type 0} → Fallible A → Action W A
  pure r w = (r, w)

  abbrev pub continue : {A B : Type 0} → Fallible A → (A → Action W B) → Action W B
  continue (ok a) f w = f a w
  continue (err e) f w = (err e, w)

  -- if err != nil { return err }
  infixl 5 ◌>>=◌ ◌>>◌
  abbrev pub ◌>>=◌ : {A B : Type 0} → Action W A → (A → Action W B) → Action W B
  ◌>>=◌ m f w = continue (m w).0 f (m w).1

  abbrev pub ◌>>◌ : {A B : Type 0} → Action W A → Action W B → Action W B
  m >> n = m >>= λ _. n

-- if err := json.Unmarshal(…); err != nil { return fmt.Errorf(…) }
abbrev pub decoded : {A : Type 0} → String → Fallible A → Fallible A
decoded prefix (ok a) = ok a
decoded prefix (err e) = err (wrap prefix e)

-- strings.Contains(err.Error(), t)
abbrev pub mentions : GoError → String → Bool
mentions e t = contains e.text t

-- The body of a response below status 400 that was read.
abbrev pub accepted : Reply → Option String
accepted (received code (ok body)) = if ltb_ℤ code (pos 400) then some body else none
accepted _ = none

pub decoded-ok :
    {A : Type 0} (prefix : String) (r : Fallible A) (a : A) → decoded prefix r ≡ ok a → r ≡ ok a
decoded-ok prefix (ok b) a e = e
decoded-ok prefix (err e') a e = cc

module _ {W : Type 0} {A B : Type 0} where
  -- A composition that succeeds goes through its first part.
  pub continue-ok :
      (r : Fallible A) (f : A → Action W B) (w : W) (b : B)
      → (continue r f w).0 ≡ ok b
      → (a : A) × (r ≡ ok a) × ((f a w).0 ≡ ok b)
  continue-ok (ok a) f w b e = (a, refl, e)
  continue-ok (err e') f w b e = cc
