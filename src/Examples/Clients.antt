-- ===== src/Examples/Clients.antt =====
-- The theorems on the HTTP clients, over concrete servers.
use losant_device.Prelude.{
  ℕ, String, ◌≡◌, refl, Bool, true, false, Option, none, some, List, [], ◌∷◌, str_eq, eq_iff,
  eq_refl, sym, ◌∙◌, ◌+◌, if◌then◌else◌, ◌&&◌, arith,
}
use losant_device.Prelude.Int.{pos}
use losant_device.Go.{GoError, ok, err, workflow_not_found}
use losant_device.Http.{Request, Reply, received, accepted}
use losant_device.Losant.{Device}
use losant_device.Losant.Request.{Env, HttpClient, first_device}
use losant_device.Losant.Client.{
  ensure_cluster_device, find_device_by_name, do_request, after_find, create_device,
  ensure_node_device, patch_device_attributes, delete_device, release_workflow,
}
use losant_device.Losant.NotFound.{not_found, delete_device-Mentions404}
use losant_device.Losant.Shared.{ensure_node_device-shared}
use losant_device.Losant.Registry.{Serves, id_of}
use losant_device.Registry.{Ensures}
use losant_device.Losant.Ensure.{cluster, ensure-Ensures}
use losant_device.Losant.Devices.{cluster_device_name, node_device_name}
use losant_device.Api.LosantSync.{LosantSyncSpec, active}
use losant_device.Mocks.Losant.{new_mock_client, call_count}
use losant_device.Mocks.Losant.Log.{
  MockOp, pinged, device_deleted, called, installed, delete_device_by, errors_set, cleared, run,
  log_of, Records,
}
use losant_device.Mocks.Losant.Logged.{run-Records-count}
use losant_device.Examples.{sync_in, refused}

abbrev pub client : HttpClient
client = record { token = "token"; application_id = "app" }

abbrev named_device : String → Device
named_device id = record { device_id = id; name = "k8s-cluster-edge"; tags = [] }

-- A server with one device at most, whose world says whether it is there.
abbrev pub one_device : Request → Bool → Reply × Bool
one_device r there =
    if str_eq r.method "GET"
    then (received (pos 200) (ok (if there then "device-1" else "")), there)
    else if str_eq r.method "POST"
    then (received (if there then pos 409 else pos 201) (ok "device-1"), true)
    else (received (pos 200) (ok ""), there)

abbrev losant_env : Env Bool
losant_env = record {
  send = one_device;
  decode_device = λ body. ok (named_device body);
  decode_devices = λ body. ok (if str_eq body "" then [] else named_device body ∷ []);
  decode_access_key = λ body. err refused;
  decode_deployments = λ body. err refused;
}

abbrev pub registered_id : Bool → Option String
registered_id there = if there then some "device-1" else none

-- The device is registered under the name `fixed`.
abbrev pub registered : String → String → Bool → Option String
registered fixed name there = if str_eq name fixed && there then some "device-1" else none

pub registered-apart :
    (fixed other : String) (there : Bool) → ¬ (other ≡ fixed) → registered fixed other there ≡ none
registered-apart fixed other there apart = ground (arith, eq_iff other fixed)

pub registered-fixed :
    (fixed : String) (there : Bool) → registered fixed fixed there ≡ registered_id there
registered-fixed fixed there = rw eq_refl refl

one_device-shows :
    (there : Bool) (body : String) (devices : List Device)
    → some (if there then "device-1" else "") ≡ some body
    → ok (if str_eq body "" then [] else named_device body ∷ []) ≡ ok devices
    → id_of (first_device devices) ≡ registered_id there
one_device-shows true body devices read parsed =
    let e : body ≡ "device-1" = cc in
    let d : devices ≡ (if str_eq body "" then [] else named_device body ∷ []) = cc in rw (d, e) refl
one_device-shows false body devices read parsed =
    let e : body ≡ "" = cc in
    let d : devices ≡ (if str_eq body "" then [] else named_device body ∷ []) = cc in rw (d, e) refl

one_device-registers :
    (there : Bool) (body : String) (dev : Device)
    → registered_id there ≡ none
    → accepted (received (if there then pos 409 else pos 201) (ok "device-1")) ≡ some body
    → ok (named_device body) ≡ ok dev
    → some "device-1" ≡ some dev.device_id
one_device-registers true body dev absent read parsed = cc
one_device-registers false body dev absent read parsed =
    let e : body ≡ "device-1" = cc in let d : dev ≡ named_device body = cc in rw (d, e) refl

one_device-Serves : (fixed : String) → Serves losant_env client "app" (registered fixed) fixed
one_device-Serves fixed = record {
  listing_keeps = λ other there. refl;
  listing_shows = λ there body devices read parsed.
      one_device-shows there body devices read parsed ∙ sym (registered-fixed fixed there);
  patching_keeps = λ id other attrs there. refl;
  creating_registers = λ payload there body dev named absent read parsed.
      registered-fixed fixed true
      ∙ one_device-registers there body dev (sym (registered-fixed fixed there) ∙ absent) read
          parsed;
  creating_keeps = λ other payload there named apart.
      registered-apart fixed other true apart ∙ sym (registered-apart fixed other there apart);
}

ensure-Ensures_example :
    Ensures "k8s-cluster-edge"
      (λ n. registered "k8s-cluster-edge" n false)
      (λ n. registered "k8s-cluster-edge" n true)
      "device-1"
unfolding cluster_device_name ensure_cluster_device find_device_by_name do_request after_find
    create_device
ensure-Ensures_example =
    ensure-Ensures losant_env client (sync_in active none).spec (registered "k8s-cluster-edge")
      cluster false "device-1" (one_device-Serves "k8s-cluster-edge") refl

abbrev spec_of : String → LosantSyncSpec
spec_of cluster_name = record ((sync_in active none).spec) { cluster_name = cluster_name }

-- The node "a" of the cluster "edge-1", and the node "1-a" of the cluster "edge".
abbrev device_1 : String
device_1 = "device-1"

ensure_node_device-shared_example : device_1 ≡ device_1
unfolding node_device_name ensure_node_device find_device_by_name do_request after_find
    create_device patch_device_attributes
ensure_node_device-shared_example =
    ensure_node_device-shared losant_env client (spec_of "edge-1") (spec_of "edge")
      (registered "k8s-node-edge-1-a") "edge" "1" "a" "g" "g" "device-1" "device-1" false refl refl
      refl (one_device-Serves "k8s-node-edge-1-a") refl refl

abbrev pub missing : Env ℕ
missing = record {
  send = λ r w. (received (pos 404) (ok "gone"), w + 1);
  decode_device = λ body. err refused;
  decode_devices = λ body. err refused;
  decode_access_key = λ body. err refused;
  decode_deployments = λ body. err refused;
}

delete_device-Mentions404_example :
    ((delete_device missing client "app" "device-1" 0).0 ≡ ok tt)
    × ((e : GoError) × ((release_workflow missing client "app" "device-1" "flow" "v2" 1).0 ≡ err e)
        × (e.wraps ≡ some workflow_not_found))
delete_device-Mentions404_example =
    delete_device-Mentions404 missing client "app" "device-1" "flow" "v2" 0 1 (not_found "gone")
      (not_found "gone")

abbrev ops : List (MockOp ℕ)
ops =
    called pinged
    ∷ cleared
    ∷ installed (delete_device_by (λ app id w. (ok tt, w + 1)))
    ∷ called (device_deleted (record { application_id = "app"; device_id = "device-1" }))
    ∷ errors_set (some refused)
    ∷ called pinged
    ∷ []

run-Records-count_example :
    let s = run {W = ℕ} ops (record { client = new_mock_client; world = 0 }) in
    Records {W = ℕ} s.client (log_of ops []) × (call_count s.client ≡ 2)
run-Records-count_example = run-Records-count ops 0
