-- ===== src/Losant/Gea.antt =====
-- internal/gea/client.go: HTTPClient, the GEAClient over the GEA's HTTP trigger.
use losant_device.Prelude.{String, ◌⊕◌, if◌then◌else◌, Option, Assoc}
use losant_device.Prelude.Int.{ℤ, pos, ltb_ℤ}
use losant_device.Prelude.Decimal.{decimal}
use losant_device.Go.{GoError, Fallible, ok, err, new_error, wrap, Time}
use losant_device.Http.{Action}
use losant_device.Api.LosantSync.{GeaSpec}
use losant_device.Losant.{Value, StatePayload, GeaClient}

-- geaStateBody
pub record StateBody (F : Type 0) : Type 0 where
  pub device_id : String
  pub time : Option Time
  pub data_map : Assoc (Value F)

-- A response has its status code and what could be read of its body.
pub data Posted : Type 0 where
  not_built not_sent : GoError → Posted
  received : ℤ → String → Posted

-- json.Marshal of the body, which fails on a float that is not a number, and the POST of a text to
-- an endpoint.
pub record Env (W F : Type 0) : Type 0 where
  pub marshal : StateBody F → Fallible String
  pub post : String → String → W → Posted × W

-- HTTPClient, less the http.Client.
pub record HttpClient : Type 0 where
  pub endpoint : String

-- NewHTTPClient
unfoldable pub new_http_client : GeaSpec → HttpClient
new_http_client spec = record {
  endpoint = "http://" ⊕ (spec.service_ref ⊕ (":" ⊕ (decimal spec.port ⊕ "/state")));
}

-- what ReportState makes of a reply
unfoldable pub read_posted : String → Posted → Fallible (Unit {0})
read_posted endpoint (not_built e) = err (wrap "build gea request" e)
read_posted endpoint (not_sent e) = err (wrap ("gea post " ⊕ endpoint) e)
read_posted endpoint (received code body) =
    if ltb_ℤ code (pos 400)
    then ok tt
    else err (new_error ("gea post " ⊕ (endpoint ⊕ (": status " ⊕ (decimal code ⊕ (": " ⊕ body))))))

module _ {W F : Type 0} (env : Env W F) (c : HttpClient) where
  -- the request of ReportState, once the payload is marshalled
  abbrev posted : Fallible String → Action W (Unit {0})
  posted (err e) w = (err (wrap "marshal state payload" e), w)
  posted (ok body) w =
      let (reply, w') = env.post c.endpoint body w in (read_posted c.endpoint reply, w')

  -- ReportState
  unfoldable pub report_state : StatePayload F → Action W (Unit {0})
  unfolding read_posted
  report_state payload = posted (
      env.marshal (record {
        device_id = payload.device_id;
        time = payload.timestamp;
        data_map = payload.attributes;
      }))

-- HTTPClient as a GEAClient
abbrev pub gea_client : {W F : Type 0} → Env W F → HttpClient → GeaClient W F
gea_client env c = record { report_state = report_state env c }
