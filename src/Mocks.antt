-- ===== src/Mocks.antt =====
-- The mock clients of the tests: a client that records its calls and answers by a handler.
pub mod Losant
pub mod Rancher
pub mod Gea
use losant_device.Prelude.{Option, none, some}
use losant_device.Go.{GoError, Fallible, ok, err}
use losant_device.Http.{Action}

-- A mock beside the world that its handlers act on.
pub record Mock (M W : Type 0) : Type 0 where
  pub client : M
  pub world : W

-- if fn != nil { return fn(…) }, else the default
abbrev pub invoke :
    {M W A : Type 0} → Option (Action W A) → Fallible A → M → W → Fallible A × Mock M W
invoke none default m w = (default, record { client = m; world = w })
invoke (some fn) default m w = ((fn w).0, record { client = m; world = (fn w).1 })

abbrev pub given : {H K : Type 0} → Option H → (H → K) → Option K
given none f = none
given (some h) f = some (f h)

-- return value, err
abbrev pub failing : {A : Type 0} → A → Option GoError → Fallible A
failing value none = ok value
failing value (some e) = err e
