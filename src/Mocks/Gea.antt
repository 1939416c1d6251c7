-- ===== src/Mocks/Gea.antt =====
-- internal/gea/mock_client.go: MockClient, the GEAClient of the tests.
use losant_device.Prelude.{
  ℕ, ◌==◌, String, Bool, true, false, not, Option, none, some, List, [], ◌∷◌, ◌++◌, length, lookup,
  str_eq, if◌then◌else◌,
}
use losant_device.Go.{GoError, ok, err}
use losant_device.Http.{Action}
use losant_device.Losant.{Value, StatePayload, GeaClient}
use losant_device.Mocks.{Mock, invoke, given}

module _ {F : Type 0} where
  -- got, ok := c.Attributes[attributeKey], and the comparison
  abbrev shows : (Value F → String) → Value F → Option (Value F) → Bool
  shows sprint want none = false
  shows sprint want (some got) = str_eq (sprint got) (sprint want)

  -- the loop over the calls
  unfoldable pub any_payload :
      (Value F → String) → String → String → Value F → List (StatePayload F) → Bool
  any_payload sprint device_id attribute_key want [] = false
  any_payload sprint device_id attribute_key want (c ∷ calls) =
      let rest = any_payload sprint device_id attribute_key want calls in
      if str_eq c.device_id device_id
      then (if shows sprint want (lookup attribute_key c.attributes) then true else rest)
      else rest

-- `calls` has the oldest first.
pub record MockClient (W F : Type 0) : Type 0 where
  pub report_state_func : Option (StatePayload F → Action W (Unit {0}))
  pub calls : List (StatePayload F)

module _ {W F : Type 0} where
  -- NewMockClient
  unfoldable pub new_mock_client : MockClient W F
  new_mock_client = record { report_state_func = none; calls = [] }

  -- SetError, whose error may be nil
  unfoldable pub set_error : Option GoError → MockClient W F → MockClient W F
  set_error none m = record m { report_state_func = none }
  set_error (some e) m = record m { report_state_func = some (λ _ w. (err e, w)) }

  -- Reset
  unfoldable pub reset : MockClient W F → MockClient W F
  reset m = record m { report_state_func = none; calls = [] }

  -- CallCount
  unfoldable pub call_count : MockClient W F → ℕ
  call_count m = length m.calls

  -- ReportState
  unfoldable pub report_state : StatePayload F → Action (Mock (MockClient W F) W) (Unit {0})
  report_state payload s =
      invoke (given s.client.report_state_func (λ fn. fn payload)) (ok tt)
        (record s.client { calls = s.client.calls ++ payload ∷ [] }) s.world

  -- MockClient as a GEAClient
  abbrev pub gea_client : GeaClient (Mock (MockClient W F) W) F
  gea_client = record { report_state = report_state }

  -- AssertPayloadContains: whether it passes. `sprint` is fmt.Sprintf with "%v".
  unfoldable pub assert_payload_contains :
      (Value F → String) → String → String → Value F → MockClient W F → Bool
  unfolding any_payload
  assert_payload_contains sprint device_id attribute_key want m =
      any_payload sprint device_id attribute_key want m.calls

  -- AssertCalled
  unfoldable pub assert_called : MockClient W F → Bool
  unfolding call_count
  assert_called m = not (call_count m == 0)

  -- AssertNotCalled
  unfoldable pub assert_not_called : MockClient W F → Bool
  unfolding call_count
  assert_not_called m = call_count m == 0
