-- ===== src/Losant/Registry.antt =====
-- Losant's API as a registry of the devices' IDs by name.
use losant_device.Prelude.{String, ◌≡◌, Option, none, some, List, [], ◌∷◌, Assoc, lookup}
use losant_device.Go.{ok}
use losant_device.Http.{Json, text, Request, accepted}
use losant_device.Losant.{Device, DeviceAttribute}
use losant_device.Losant.Request.{
  Env, HttpClient, devices_url, device_url, attributes_json, first_device, find_url,
}

abbrev pub request_of : HttpClient → String → String → Option (Assoc Json) → Request
request_of c method url payload = record {
  method = method;
  url = url;
  token = c.token;
  payload = payload;
}

abbrev pub id_of : Option Device → Option String
id_of none = none
id_of (some d) = some d.device_id

-- What Losant's REST API is documented to do with the devices of an application, as far as the name
-- `name` goes: a listing by this name shows its device and changes none, a patch renames none, and
-- a creation under this name registers the device that it returns and no other.
pub record Serves {W : Type 0} (env : Env W) (c : HttpClient) (app : String)
    (registry : String → W → Option String) (name : String) : Type 0 where
  pub listing_keeps :
      (other : String) (w : W)
      → registry other (env.send (request_of c "GET" (find_url app name) none) w).1
        ≡ registry other w
  pub listing_shows :
      (w : W) (body : String) (devices : List Device)
      → accepted (env.send (request_of c "GET" (find_url app name) none) w).0 ≡ some body
      → env.decode_devices body ≡ ok devices
      → id_of (first_device devices) ≡ registry name w
  pub patching_keeps :
      (id other : String) (attrs : List DeviceAttribute) (w : W)
      → registry other
          (env.send
            (request_of c "PATCH"
              (device_url app id)
              (some (("attributes", attributes_json attrs) ∷ [])))
            w).1
        ≡ registry other w
  pub creating_registers :
      (payload : Assoc Json) (w : W) (body : String) (dev : Device)
      → lookup "name" payload ≡ some (text name)
      → registry name w ≡ none
      → accepted (env.send (request_of c "POST" (devices_url app) (some payload)) w).0 ≡ some body
      → env.decode_device body ≡ ok dev
      → registry name (env.send (request_of c "POST" (devices_url app) (some payload)) w).1
        ≡ some dev.device_id
  pub creating_keeps :
      (other : String) (payload : Assoc Json) (w : W)
      → lookup "name" payload ≡ some (text name)
      → ¬ (other ≡ name)
      → registry other (env.send (request_of c "POST" (devices_url app) (some payload)) w).1
        ≡ registry other w
