-- ===== src/Losant/Request.antt =====
-- internal/losant/client.go: what HTTPClient sends, and how it reads the replies.
use losant_device.Prelude.{
  String, ◌⊕◌, Option, none, some, List, [], ◌∷◌, Assoc, lookup, map, ◌++◌, if◌then◌else◌,
}
use losant_device.Prelude.Int.{ℤ, pos, ltb_ℤ}
use losant_device.Prelude.Decimal.{decimal}
use losant_device.Prelude.Texts.{query_escape}
use losant_device.Go.{GoError, Fallible, ok, err, new_error, wrap, is_empty}
use losant_device.Http.{Json, text, objects, Reply, not_built, not_sent, received, Transport}
use losant_device.Kube.{Secret}
use losant_device.Api.LosantSync.{LosantSyncSpec}
use losant_device.Losant.{EdgeDeploymentStatus, Device, Tag, DeviceAttribute}
use losant_device.Losant.Devices.{
  cluster_device_attributes, node_device_attributes, cluster_device_name, node_device_name,
  tags_from_spec, node_tags,
}

-- The network, and json.Unmarshal into the types of the responses.
pub record Env (W : Type 0) : Type 0 where
  pub send : Transport W
  pub decode_device : String → Fallible Device
  pub decode_devices : String → Fallible (List Device)
  pub decode_access_key : String → Fallible (String × String × String)
  pub decode_deployments : String → Fallible (List EdgeDeploymentStatus)

-- HTTPClient, less the http.Client.
pub record HttpClient : Type 0 where
  pub token : String
  pub application_id : String

abbrev pub api_base : String
api_base = "https://api.losant.com"

abbrev pub application_url : String → String
application_url app = api_base ⊕ ("/applications/" ⊕ app)

abbrev pub devices_url : String → String
devices_url app = application_url app ⊕ "/devices"

abbrev pub device_url : String → String → String
device_url app id = devices_url app ⊕ ("/" ⊕ id)

-- NewHTTPClient
unfoldable pub new_http_client : Secret → String → Fallible HttpClient
new_http_client secret app = elim (lookup "api-token" secret.data_map) [
  | none ↦ err (
      new_error (
        "provisioning secret "
        ⊕ (secret.namespace ⊕ ("/" ⊕ (secret.name ⊕ " missing key \"api-token\"")))))
  | some token ↦ ok (record { token = token; application_id = app })
]

abbrev call_text : String → String → String
call_text method url = "losant api " ⊕ (method ⊕ (" " ⊕ url))

-- The error of a response with a status of 400 or more.
abbrev pub status_error : String → String → ℤ → String → GoError
status_error method url code body =
    new_error (call_text method url ⊕ (": " ⊕ ("status " ⊕ (decimal code ⊕ (": " ⊕ body)))))

-- what doRequest makes of a reply
unfoldable pub read_reply : String → String → Reply → Fallible String
read_reply method url (not_built e) = err (wrap "build request" e)
read_reply method url (not_sent e) = err (wrap (call_text method url) e)
read_reply method url (received code (err e)) = err (wrap "read response body" e)
read_reply method url (received code (ok body)) =
    if ltb_ℤ code (pos 400) then ok body else err (status_error method url code body)

abbrev pub attributes_json : List DeviceAttribute → Json
attributes_json attrs = objects (map (λ a. ("name", a.name) ∷ ("dataType", a.data_type) ∷ []) attrs)

abbrev pub tags_json : List Tag → Json
tags_json tags = objects (map (λ t. ("key", t.key) ∷ ("value", t.value) ∷ []) tags)

-- a payload's key that is set only where its text is not empty
abbrev optional_text : String → String → Assoc Json
optional_text key value = if is_empty value then [] else (key, text value) ∷ []

-- if len(attrs) > 0 { payload["attributes"] = attrs }
abbrev optional_attributes : List DeviceAttribute → Assoc Json
optional_attributes [] = []
optional_attributes (a ∷ attrs) = ("attributes", attributes_json (a ∷ attrs)) ∷ []

-- The first of the devices, if there is one.
abbrev pub first_device : List Device → Option Device
first_device [] = none
first_device (d ∷ devices) = some d

-- the payload of createDevice
unfoldable pub device_payload :
    String → String → String → String → List Tag → List DeviceAttribute → Assoc Json
device_payload name class recipe gateway tags attrs =
    (("name", text name) ∷ ("deviceClass", text class) ∷ ("tags", tags_json tags) ∷ [])
    ++ optional_text "deviceRecipeId" recipe
    ++ optional_text "gatewayId" gateway
    ++ optional_attributes attrs

-- the URL of findDeviceByName
abbrev pub find_url : String → String → String
find_url app name = devices_url app ⊕ ("?filterField=name&filter=" ⊕ query_escape name)

-- the end of createDevice
abbrev pub created_id : Device → Fallible String
created_id dev =
    if is_empty dev.device_id
    then err (new_error "create device: empty deviceId in response")
    else ok dev.device_id

-- the payloads of EnsureClusterDevice and EnsureNodeDevice
unfoldable pub cluster_payload : LosantSyncSpec → Assoc Json
unfolding device_payload
cluster_payload spec =
    device_payload (cluster_device_name spec.cluster_name) "edgeCompute" spec.device_recipe_id ""
      (tags_from_spec spec) cluster_device_attributes

unfoldable pub node_payload : LosantSyncSpec → String → String → Assoc Json
unfolding device_payload
node_payload spec node gateway =
    device_payload (node_device_name spec.cluster_name node) "peripheral" spec.device_recipe_id
      gateway (node_tags spec node) node_device_attributes
