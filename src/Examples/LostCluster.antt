-- ===== src/Examples/LostCluster.antt =====
-- The theorems on sessions with Rancher's HTTP client.
use losant_device.Prelude.{
  ℕ, ◌+◌, ◌≡◌, refl, ap, true, none, [], arith, String, List, some, Bool, false, sym, ◌∙◌, str_eq,
  ◌∷◌, if◌then◌else◌,
}
use losant_device.Prelude.Int.{pos}
use losant_device.Prelude.Texts.{query_escape}
use losant_device.Go.{ok, err}
use losant_device.Exec.{Outcome, returned, next, finished, empty_result, requeue_in, Sys}
use losant_device.Http.{Reply, received, accepted}
use losant_device.Rancher
use losant_device.Rancher.Client.{
  HttpClient, rancher_client, Cluster, find_cluster, create_cluster, do_request,
}
use losant_device.Api.RancherSession.{unset, connected, disconnected}
use losant_device.Api.LosantSync
use losant_device.Session.Env.{Env, bad_request, client, rancher_error_requeue_wait, Call}
use losant_device.Session.Polling.{stored}
use losant_device.Session.Stranded.{object_writes}
use losant_device.Session.Reconcile.{handle_connected}
use losant_device.Session.LostCluster.{handle_connected-lost, handle_connected-kept}
use losant_device.Kube.{Kube}
use losant_device.Registry.{Ensures}
use losant_device.Rancher.Registry.{Serves, named}
use losant_device.Session.Connect.{display_name, ensure_cluster}
use losant_device.Session.Registered.{ensure_cluster-Ensures}
use losant_device.Examples.Clients.{
  one_device, registered_id, registered, registered-apart, registered-fixed,
}
use losant_device.Examples.{refused, session_in, sync_in, demo_meta, demo_kube}

-- A Rancher that gives one answer to every request.
abbrev answering : Reply → Rancher.Client.Env ℕ
answering reply = record {
  send = λ ca r w. (reply, w + 1);
  has_certificates = λ ca. true;
  decode_cluster = λ body. err refused;
  decode_clusters = λ body. err refused;
  decode_tokens = λ body. err refused;
}

abbrev http : HttpClient
http = record { base_url = "https://rancher"; token = "token"; ca = "" }

abbrev env : Env ℕ
env = record {
  kube = demo_kube (session_in unset none) (sync_in LosantSync.active none);
  meta = demo_meta;
  rancher_client = none;
  new_http_client = λ secret. err refused;
  fetch = λ ca url w. (bad_request refused, w);
  decode = λ body. [];
}

abbrev overloaded : Reply
overloaded = received (pos 504) (ok "rancher resource not found")

handle_connected-lost_example :
    let m =
      handle_connected env
        (session_in connected none)
        (client (rancher_client (answering (received (pos 404) (ok "gone"))) http))
        (record { world = 0; trace = [] }) in
    (returned {Q = Outcome} m.0 ≡ next (finished empty_result))
    × ((stored (session_in connected none) m.1.trace).status.phase ≡ disconnected)
    × (object_writes m.1.trace ≡ [])
handle_connected-lost_example =
    handle_connected-lost env (answering (received (pos 404) (ok "gone"))) http
      (session_in connected none) (pos 100) "gone" 0 refl refl (omega arith) refl (λ r v. refl)
      (λ n v. refl) (λ method v. refl)

handle_connected-kept_example :
    let m =
      handle_connected env
        (session_in connected none)
        (client (rancher_client (answering overloaded) http))
        (record { world = 0; trace = [] }) in
    (returned {Q = Outcome} m.0 ≡ next (finished (requeue_in rancher_error_requeue_wait)))
    × ((stored (session_in connected none) m.1.trace).status.phase ≡ connected)
handle_connected-kept_example =
    handle_connected-kept env (answering overloaded) http (session_in connected none) (pos 100)
      overloaded 0 refl refl (omega arith) refl (λ r v. refl) (refl, refl) refl

abbrev cluster_of : String → Cluster
cluster_of id = record { id = id; name = "edge" }

-- A Rancher with one cluster at most, whose world says whether it is there.
abbrev one_cluster : Rancher.Client.Env Bool
one_cluster = record {
  send = λ ca. one_device;
  has_certificates = λ ca. true;
  decode_cluster = λ body. ok (cluster_of body);
  decode_clusters = λ body. ok (if str_eq body "" then [] else cluster_of body ∷ []);
  decode_tokens = λ body. err refused;
}

one_cluster-shows :
    (there : Bool) (body : String) (clusters : List Cluster)
    → accepted (received (pos 200) (ok (if there then "device-1" else ""))) ≡ some body
    → ok (if str_eq body "" then [] else cluster_of body ∷ []) ≡ ok clusters
    → clusters ≡ named "edge" (registered_id there)
one_cluster-shows true body clusters read parsed =
    let e : body ≡ "device-1" = cc in
    let d : clusters ≡ (if str_eq body "" then [] else cluster_of body ∷ []) = cc in rw (d, e) refl
one_cluster-shows false body clusters read parsed =
    let e : body ≡ "" = cc in
    let d : clusters ≡ (if str_eq body "" then [] else cluster_of body ∷ []) = cc in rw (d, e) refl

one_cluster-registers :
    (there : Bool) (body : String) (cluster : Cluster)
    → registered_id there ≡ none
    → accepted (received (if there then pos 409 else pos 201) (ok "device-1")) ≡ some body
    → ok (cluster_of body) ≡ ok cluster
    → some "device-1" ≡ some cluster.id
one_cluster-registers true body cluster absent read parsed = cc
one_cluster-registers false body cluster absent read parsed =
    let e : body ≡ "device-1" = cc in let d : cluster ≡ cluster_of body = cc in rw (d, e) refl

one_cluster-Serves : Serves one_cluster http (registered "edge") "edge"
one_cluster-Serves = record {
  search_keeps = λ other there. refl;
  search_shows = λ there body clusters read parsed.
      one_cluster-shows there body clusters read parsed
      ∙ ap (named "edge") (sym (registered-fixed "edge" there));
  creation_registers = λ there body cluster absent read parsed.
      one_cluster-registers there body cluster (sym (registered-fixed "edge" there) ∙ absent) read
        parsed;
  creation_keeps = λ other there apart.
      registered-apart "edge" other true apart ∙ sym (registered-apart "edge" other there apart);
}

abbrev kube_of : Kube Bool
kube_of = record {
  get_losant_sync = λ name w. (err refused, w);
  list_losant_syncs = λ w. (ok [], w);
  update_losant_sync = λ o w. (ok tt, w);
  update_losant_sync_status = λ o w. (ok tt, w);
  get_rancher_session = λ r w. (err refused, w);
  create_rancher_session = λ o w. (ok tt, w);
  delete_rancher_session = λ o w. (ok tt, w);
  update_rancher_session = λ o w. (ok tt, w);
  update_rancher_session_status = λ o w. (ok tt, w);
  get_secret = λ r w. (err refused, w);
  create_secret = λ o w. (ok tt, w);
  update_secret = λ o w. (ok tt, w);
  get_deployment = λ r w. (err refused, w);
  patch_deployment = λ o w. (ok tt, w);
  delete_namespace = λ n w. (ok tt, w);
  apply_object = λ m w. (ok tt, w);
  now = λ w. (pos 0, w);
}

abbrev bool_env : Env Bool
bool_env = record {
  kube = kube_of;
  meta = demo_meta;
  rancher_client = none;
  new_http_client = λ secret. err refused;
  fetch = λ ca url w. (bad_request refused, w);
  decode = λ body. [];
}

abbrev at_first : Sys Bool Call
at_first = record { world = false; trace = [] }

ensure_cluster-Ensures_example :
    Ensures "edge" (λ n. registered "edge" n false) (λ n. registered "edge" n true) "device-1"
unfolding ensure_cluster display_name find_cluster create_cluster do_request query_escape
ensure_cluster-Ensures_example =
    ensure_cluster-Ensures bool_env one_cluster http (session_in unset none) (registered "edge")
      at_first "device-1" refl one_cluster-Serves refl
