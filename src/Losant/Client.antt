-- ===== src/Losant/Client.antt =====
-- internal/losant/client.go: HTTPClient, the LosantClient over Losant's REST API.
use losant_device.Prelude.{
  String, ◌⊕◌, Option, none, some, List, [], ◌∷◌, Assoc, map, if◌then◌else◌, ◌||◌,
}
use losant_device.Prelude.Texts.{query_escape}
use losant_device.Go.{Fallible, ok, err, new_error, is_empty, workflow_not_found}
use losant_device.Http.{
  decoded, Json, text, texts, objects, Request, Action, pure, ◌>>=◌, ◌>>◌, mentions,
}
use losant_device.Api.LosantSync.{LosantSyncSpec}
use losant_device.Losant.{LosantClient, EdgeDeploymentStatus, Device, DeviceAttribute}
use losant_device.Losant.Devices.{
  cluster_device_attributes, node_device_attributes, cluster_device_name, node_device_name,
}
use losant_device.Losant.Request.{
  Env, HttpClient, application_url, devices_url, device_url, read_reply, attributes_json,
  first_device, find_url, created_id, cluster_payload, node_payload,
}

-- the end of CreateDeviceAccessKey
abbrev complete_key : String × String × String → Fallible (String × String × String)
complete_key (id, key, secret) =
    if is_empty key || is_empty secret
    then err (new_error "create device access key: empty key or secret in response")
    else ok (id, key, secret)

-- if err != nil && strings.Contains(err.Error(), "status 404") { return nil }
unfoldable pub forgive_404 : Fallible String → Fallible (Unit {0})
forgive_404 (ok body) = ok tt
forgive_404 (err e) = if mentions e "status 404" then ok tt else err e

-- fmt.Errorf("%w: %s", ErrWorkflowNotFound, err.Error())
unfoldable pub name_404 : Fallible String → Fallible (Unit {0})
name_404 (ok body) = ok tt
name_404 (err e) =
    if mentions e "status 404"
    then err (record { text = "workflow not found: " ⊕ e.text; wraps = some workflow_not_found })
    else err e

module _ {W : Type 0} (env : Env W) (c : HttpClient) where
  -- doRequest
  unfoldable pub do_request : String → String → Option (Assoc Json) → Action W String
  unfolding read_reply
  do_request method url payload w =
      let request : Request = record {
        method = method;
        url = url;
        token = c.token;
        payload = payload;
      } in
      let (reply, w') = env.send request w in (read_reply method url reply, w')

  -- Ping
  unfoldable pub ping : Action W (Unit {0})
  ping = do do_request "GET" (application_url c.application_id) none; pure (ok tt)

  -- findDeviceByName
  unfoldable pub find_device_by_name : String → String → Action W (Option Device)
  find_device_by_name app name = do
    body ← do_request "GET" (find_url app name) none
    items ← pure (decoded "decode device list response" (env.decode_devices body))
    pure (ok (first_device items))

  -- createDevice
  unfoldable pub create_device : String → Assoc Json → Action W String
  create_device app payload = do
    body ← do_request "POST" (devices_url app) (some payload)
    dev ← pure (decoded "decode create device response" (env.decode_device body))
    pure (created_id dev)

  -- PatchDeviceAttributes
  unfoldable pub patch_device_attributes :
      String → String → List DeviceAttribute → Action W (Unit {0})
  patch_device_attributes app id attrs = do
    do_request "PATCH" (device_url app id) (some (("attributes", attributes_json attrs) ∷ []))
    pure (ok tt)

  -- the rest of EnsureClusterDevice and of EnsureNodeDevice, once the device was looked up
  unfoldable pub after_find :
      String → List DeviceAttribute → Assoc Json → Option Device → Action W String
  after_find app attrs payload (some existing) = do
    patch_device_attributes app existing.device_id attrs
    pure (ok existing.device_id)
  after_find app attrs payload none = create_device app payload

  -- EnsureClusterDevice
  unfoldable pub ensure_cluster_device : LosantSyncSpec → Action W String
  ensure_cluster_device spec = do
    existing ← find_device_by_name spec.application_id (cluster_device_name spec.cluster_name)
    after_find spec.application_id cluster_device_attributes (cluster_payload spec) existing

  -- EnsureNodeDevice
  unfoldable pub ensure_node_device : LosantSyncSpec → String → String → Action W String
  ensure_node_device spec node gateway = do
    existing ← find_device_by_name spec.application_id (node_device_name spec.cluster_name node)
    after_find spec.application_id node_device_attributes (node_payload spec node gateway) existing

  -- UpdateDeviceTags, for a map that `range` visits in this order
  unfoldable pub update_device_tags : String → String → Assoc String → Action W (Unit {0})
  update_device_tags app id tags = do
    do_request "PATCH" (device_url app id)
        (some (("tags", objects (map (λ t. ("key", t.0) ∷ ("value", t.1) ∷ []) tags)) ∷ []))
    pure (ok tt)

  -- GetDevice
  unfoldable pub get_device : String → String → Action W Device
  get_device app id = do
    body ← do_request "GET" (device_url app id) none
    pure (decoded "decode device response" (env.decode_device body))

  -- CreateDeviceAccessKey; the device's ID is not used
  unfoldable pub create_device_access_key :
      String → String → String → Action W (String × String × String)
  create_device_access_key app device_id name = do
    body ←
        do_request "POST" (application_url app ⊕ "/keys")
          (some (("description", text name) ∷ ("filterType", text "all") ∷ []))
    key ← pure (decoded "decode access key response" (env.decode_access_key body))
    pure (complete_key key)

  -- DeleteDevice
  unfoldable pub delete_device : String → String → Action W (Unit {0})
  delete_device app id w =
      let (answer, w') = do_request "DELETE" (device_url app id) none w in (forgive_404 answer, w')

  -- ReleaseWorkflow
  unfoldable pub release_workflow : String → String → String → String → Action W (Unit {0})
  release_workflow app id flow version w =
      let (answer, w') =
        do_request "POST" (application_url app ⊕ "/edge/deployments/release")
          (some (
            ("flowId", text flow)
            ∷ ("version", text version)
            ∷ ("deviceIds", texts (id ∷ []))
            ∷ []))
          w in
      (name_404 answer, w')

  -- GetEdgeDeployments; the items of the response have the fields of the result's
  unfoldable pub get_edge_deployments : String → String → Action W (List EdgeDeploymentStatus)
  get_edge_deployments app id = do
    body ←
        do_request "GET" (application_url app ⊕ ("/edge/deployments?deviceId=" ⊕ query_escape id))
          none
    pure (decoded "decode edge deployments response" (env.decode_deployments body))

-- HTTPClient as a LosantClient
abbrev pub losant_client : {W : Type 0} → Env W → HttpClient → LosantClient W
losant_client env c = record {
  ping = ping env c;
  ensure_cluster_device = ensure_cluster_device env c;
  ensure_node_device = ensure_node_device env c;
  create_device_access_key = create_device_access_key env c;
  delete_device = delete_device env c;
  release_workflow = release_workflow env c;
  get_edge_deployments = get_edge_deployments env c;
}
