-- ===== src/Losant/Ensure.antt =====
-- EnsureClusterDevice and EnsureNodeDevice as the operation of a registry of devices.
use losant_device.Prelude.{
  String, ◌≡◌, refl, sym, ◌∙◌, ap, inl, inr, Option, none, some, List, [], ◌∷◌, Assoc, lookup,
  arith,
}
use losant_device.Go.{ok, err, Fallible-cases}
use losant_device.Http.{
  decoded-ok, decoded, Json, text, Action, continue, Reply, not_built, not_sent, received, accepted,
  continue-ok,
}
use losant_device.Api.LosantSync.{LosantSyncSpec}
use losant_device.Losant.{Device, DeviceAttribute}
use losant_device.Losant.Devices.{cluster_device_name, node_device_name}
use losant_device.Losant.Registry.{request_of, id_of, Serves}
use losant_device.Registry.{Ensures, kept, added, Ensures-from}
use losant_device.Losant.Request.{
  Env, HttpClient, devices_url, device_url, read_reply, attributes_json, device_payload, find_url,
  created_id, cluster_payload, node_payload,
}
use losant_device.Losant.Client.{
  do_request, find_device_by_name, create_device, patch_device_attributes, after_find,
  ensure_cluster_device, ensure_node_device,
}

-- The two calls of the LosantClient that ensure a device.
pub data EnsureCall : Type 0 where
  cluster : EnsureCall
  node : String → String → EnsureCall

abbrev pub name_of : LosantSyncSpec → EnsureCall → String
name_of spec cluster = cluster_device_name spec.cluster_name
name_of spec (node node_name gateway) = node_device_name spec.cluster_name node_name

abbrev pub ensure :
    {W : Type 0} → Env W → HttpClient → LosantSyncSpec → EnsureCall → Action W String
ensure env c spec cluster = ensure_cluster_device env c spec
ensure env c spec (node node_name gateway) = ensure_node_device env c spec node_name gateway

read_reply-accepted :
    (method url : String) (reply : Reply) (body : String)
    → read_reply method url reply ≡ ok body
    → accepted reply ≡ some body
unfolding read_reply
read_reply-accepted method url (received code (ok b)) body e = ground arith
read_reply-accepted method url (received code (err e')) body e = ground arith
read_reply-accepted method url (not_built e') body e = ground arith
read_reply-accepted method url (not_sent e') body e = ground arith

module _ {W : Type 0} (env : Env W) (c : HttpClient) (app : String)
    (registry : String → W → Option String) (name : String)
    (serves : Serves env c app registry name) where
  find-shows :
      (w : W) (found : Option Device)
      → (find_device_by_name env c app name w).0 ≡ ok found
      → id_of found ≡ registry name w
  unfolding find_device_by_name do_request
  find-shows w found e =
      let answer = (env.send (request_of c "GET" (find_url app name) none) w).0 in
      let world = (env.send (request_of c "GET" (find_url app name) none) w).1 in
      let (body, read, rest) =
        continue-ok (read_reply "GET" (find_url app name) answer) _ world found e in
      let (items, parsed, last) =
        continue-ok (decoded "decode device list response" (env.decode_devices body)) _ world found
          rest in
      let shown =
        serves.listing_shows w body items
          (read_reply-accepted "GET" (find_url app name) answer body read)
          (decoded-ok "decode device list response" (env.decode_devices body) items parsed) in
      cc

  find-keeps :
      (other : String) (w : W)
      → registry other (find_device_by_name env c app name w).1 ≡ registry other w
  unfolding find_device_by_name do_request
  find-keeps other w =
      let url = find_url app name in
      let (answer, world) = env.send (request_of c "GET" url none) w in
      elim (Fallible-cases (read_reply "GET" url answer)) [
        | inl (body, e) ↦ elim (Fallible-cases (env.decode_devices body)) [
          | inl (devices, d) ↦ rw (e, d) (serves.listing_keeps other w)
          | inr (failure, d) ↦ rw (e, d) (serves.listing_keeps other w)
        ]
        | inr (failure, e) ↦ rw e (serves.listing_keeps other w)
      ]

  patch-keeps :
      (id other : String) (attrs : List DeviceAttribute) (w : W)
      → registry other (patch_device_attributes env c app id attrs w).1 ≡ registry other w
  unfolding patch_device_attributes do_request
  patch-keeps id other attrs w =
      let url = device_url app id in
      let body = some (("attributes", attributes_json attrs) ∷ []) in
      let (answer, world) = env.send (request_of c "PATCH" url body) w in
      elim (Fallible-cases (read_reply "PATCH" url answer)) [
        | inl (received_body, e) ↦ rw e (serves.patching_keeps id other attrs w)
        | inr (failure, e) ↦ rw e (serves.patching_keeps id other attrs w)
      ]

  created_id-ok : (dev : Device) (id : String) → created_id dev ≡ ok id → dev.device_id ≡ id
  created_id-ok dev id e = ground arith

  create-registers :
      (id : String) (payload : Assoc Json) (w : W)
      → lookup "name" payload ≡ some (text name)
      → registry name w ≡ none
      → (create_device env c app payload w).0 ≡ ok id
      → registry name (create_device env c app payload w).1 ≡ some id
  unfolding create_device do_request
  create-registers id payload w named absent e =
      let url = devices_url app in
      let (answer, world) = env.send (request_of c "POST" url (some payload)) w in
      let (body, read, rest) = continue-ok (read_reply "POST" url answer) _ world id e in
      let (dev, parsed, last) =
        continue-ok (decoded "decode create device response" (env.decode_device body)) _ world id
          rest in
      rw (read, parsed)
        (serves.creating_registers payload w body dev named absent
            (read_reply-accepted "POST" url answer body read)
            (decoded-ok "decode create device response" (env.decode_device body) dev parsed)
          ∙ ap some (created_id-ok dev id last))

  create-keeps :
      (other : String) (payload : Assoc Json) (w : W)
      → lookup "name" payload ≡ some (text name)
      → ¬ (other ≡ name)
      → registry other (create_device env c app payload w).1 ≡ registry other w
  unfolding create_device do_request
  create-keeps other payload w named apart =
      let url = devices_url app in
      let (answer, world) = env.send (request_of c "POST" url (some payload)) w in
      elim (Fallible-cases (read_reply "POST" url answer)) [
        | inl (body, e) ↦ elim (Fallible-cases (env.decode_device body)) [
          | inl (dev, d) ↦ rw (e, d) (serves.creating_keeps other payload w named apart)
          | inr (failure, d) ↦ rw (e, d) (serves.creating_keeps other payload w named apart)
        ]
        | inr (failure, e) ↦ rw e (serves.creating_keeps other payload w named apart)
      ]

  after_find-Ensures :
      (id : String) (attrs : List DeviceAttribute) (payload : Assoc Json) (found : Option Device)
      (w : W)
      → id_of found ≡ registry name w
      → lookup "name" payload ≡ some (text name)
      → (after_find env c app attrs payload found w).0 ≡ ok id
      → Ensures name
          (λ n. registry n w)
          (λ n. registry n (after_find env c app attrs payload found w).1)
          id
  unfolding after_find
  after_find-Ensures id attrs payload (some existing) w shown named e =
      let patched = patch_device_attributes env c app existing.device_id attrs w in
      let (u, sent, last) = continue-ok patched.0 _ patched.1 id e in
      rw sent (kept (cc) (λ other. patch-keeps existing.device_id other attrs w))
  after_find-Ensures id attrs payload none w shown named e =
      added (sym shown) (create-registers id payload w named (sym shown) e)
        (λ other apart. create-keeps other payload w named apart)

  found-Ensures :
      (id : String) (attrs : List DeviceAttribute) (payload : Assoc Json) (w : W)
      → lookup "name" payload ≡ some (text name)
      → (continue
          (find_device_by_name env c app name w).0
          (after_find env c app attrs payload)
          (find_device_by_name env c app name w).1).0
        ≡ ok id
      → Ensures name
          (λ n. registry n w)
          (λ n.
            registry n
              (continue
                (find_device_by_name env c app name w).0
                (after_find env c app attrs payload)
                (find_device_by_name env c app name w).1).1)
          id
  found-Ensures id attrs payload w named e =
      let looked = find_device_by_name env c app name w in
      let (found, shown, rest) = continue-ok looked.0 _ looked.1 id e in
      rw shown (
        Ensures-from (λ other. find-keeps other w)
          (after_find-Ensures id attrs payload found looked.1
            (find-shows w found shown ∙ sym (find-keeps name w)) named rest))

cluster_payload-named :
    (spec : LosantSyncSpec)
    → lookup "name" (cluster_payload spec) ≡ some (text (cluster_device_name spec.cluster_name))
unfolding cluster_payload device_payload lookup
cluster_payload-named spec = refl

node_payload-named :
    (spec : LosantSyncSpec) (node_name gateway : String)
    → lookup "name" (node_payload spec node_name gateway)
      ≡ some (text (node_device_name spec.cluster_name node_name))
unfolding node_payload device_payload lookup
node_payload-named spec node_name gateway = refl

-- EnsureClusterDevice and EnsureNodeDevice implement the registry's operation: where Losant's API
-- serves this name as documented, a call that returns the ID `id` leaves the registry with `id`
-- under the device's name, which is the ID that the name had before, or, where it had none, that of
-- a device made by the call, and changes the device of no other name.
pub ensure-Ensures :
    {W : Type 0} (env : Env W) (c : HttpClient) (spec : LosantSyncSpec)
    (registry : String → W → Option String) (call : EnsureCall) (w : W) (id : String)
    → Serves env c spec.application_id registry (name_of spec call)
    → (ensure env c spec call w).0 ≡ ok id
    → Ensures
        (name_of spec call)
        (λ n. registry n w)
        (λ n. registry n (ensure env c spec call w).1)
        id
unfolding ensure_cluster_device ensure_node_device
ensure-Ensures env c spec registry cluster w id serves e =
    found-Ensures env c spec.application_id registry (cluster_device_name spec.cluster_name) serves
      id _ (cluster_payload spec) w (cluster_payload-named spec) e
ensure-Ensures env c spec registry (node node_name gateway) w id serves e =
    found-Ensures env c spec.application_id registry (node_device_name spec.cluster_name node_name)
      serves id _ (node_payload spec node_name gateway) w
      (node_payload-named spec node_name gateway) e
