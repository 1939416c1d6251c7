-- ===== src/Examples/Session.antt =====
-- The theorems on sessions, at a session "edge" with the cluster c-1.
use losant_device.Prelude.{ℕ, ◌+◌, ◌^◌, ◌≡◌, refl, true, false, none, some, List, [], ◌∷◌, arith}
use losant_device.Prelude.Int.{pos, ◌+ℤ◌, ◌<ℤ◌, int64, ◌*ℤ◌}
use losant_device.Go.{Fallible, ok, err, Time}
use losant_device.Exec.{Sys, Outcome, returned, next, panic, finished, empty_result, requeue_in}
use losant_device.Kube.{Manifest}
use losant_device.Rancher.{RancherClient}
use losant_device.Api.RancherSession.{RancherSession, unset, connecting, connected, disconnecting}
use losant_device.Api.LosantSync
use losant_device.Session.Env.{Env, Call, client, response, rancher_error_requeue_wait}
use losant_device.Session.Status.{set_rancher_condition, update_status_then}
use losant_device.Session.Manifests.{apply_documents}
use losant_device.Session.Manifests.Order.{applied, all_decoded, apply_documents-whole}
use losant_device.Session.Connect.{become_connected}
use losant_device.Session.Disconnect.{run_cleanup, disconnect_with, handle_disconnect}
use losant_device.Session.Reconcile.{reconcile_session, handle_connected}
use losant_device.Session.Phases.{Follows, reconcile_session-Follows}
use losant_device.Session.Cleanup.{CleanedFirst, disconnect_with-CleanedFirst}
use losant_device.Session.Stranded.{
  last_sent, object_writes, cleanup_stranded, deletion_stranded, disconnect_panics,
}
use losant_device.Session.Expiry.{become_connected-expired, handle_connected-missed_expiry}
use losant_device.Examples.{done, refused, demo_secret, session_in, sync_in, demo_meta, demo_kube}

-- A Rancher with no cluster of the name sought, which takes ten nanoseconds to read a cluster.
abbrev api : RancherClient ℕ
api = record {
  find_cluster = λ name w. (ok ("", false), w);
  create_cluster = λ name w. (ok "c-1", w);
  get_registration_token = λ id w. (ok "https://rancher/import.yaml", w);
  get_cluster = λ id w. (ok tt, w + 10);
  delete_cluster = λ id. done;
}

abbrev failing_api : RancherClient ℕ
failing_api = record api { delete_cluster = λ id w. (err refused, w) }

abbrev document : Manifest
document = record { kind = "Namespace"; namespace = ""; name = "cattle-system"; body = "" }

abbrev documents : List (Fallible Manifest)
documents = ok (record document { kind = "" }) ∷ ok document ∷ []

abbrev env_with : RancherClient ℕ → Env ℕ
env_with c = record {
  kube = demo_kube (session_in unset none) (sync_in LosantSync.active none);
  meta = demo_meta;
  rancher_client = some c;
  new_http_client = λ secret. err refused;
  fetch = λ ca url w. (response (pos 200) (ok "---"), w);
  decode = λ body. documents;
}

abbrev env : Env ℕ
env = env_with api

abbrev env_failing : Env ℕ
env_failing = env_with failing_api

abbrev env_no_client : Env ℕ
env_no_client = record env { rancher_client = none }

abbrev at : ℕ → Sys ℕ Call
at w = record { world = w; trace = [] }

apply_documents-whole_example :
    (all_decoded documents ≡ true)
    × (applied (apply_documents env documents (at 0)).1.trace ≡ document ∷ [])
unfolding apply_documents
apply_documents-whole_example = apply_documents-whole env documents (at 0) refl

reconcile_session-Follows_example :
    Follows false unset (reconcile_session env (session_in unset none) (at 0)).1.trace
reconcile_session-Follows_example = reconcile_session-Follows env (session_in unset none) 0

disconnect_with-CleanedFirst_example :
    CleanedFirst "c-1"
      (client api)
      (disconnect_with env (session_in connected (some (pos 7))) (client api) (at 0)).1.trace
disconnect_with-CleanedFirst_example =
    disconnect_with-CleanedFirst env (session_in connected (some (pos 7))) (client api) 0

-- A TTL of ten billion seconds.
abbrev long_session : RancherSession
long_session =
    let rs = session_in connecting none in
    record rs { spec = record rs.spec { ttl_seconds = pos 10000000000 } }

abbrev long_expiry : Time
long_expiry = pos 5 +ℤ int64 (pos 10000000000 *ℤ pos (10 ^ 9))

become_connected-expired_example : long_expiry <ℤ pos 5
unfolding become_connected set_rancher_condition update_status_then
become_connected-expired_example =
    become_connected-expired env long_session (at 5) 10000000000 refl (omega arith) (omega arith)
      long_expiry refl

handle_connected-missed_expiry_example :
    ((handle_connected env (session_in connected none) (client api) (at 95)).0
      ≡ next (finished empty_result))
    × (last_sent
          (session_in connected none)
          (handle_connected env (session_in connected none) (client api) (at 95)).1.trace
        ≡ session_in connected none)
handle_connected-missed_expiry_example =
    handle_connected-missed_expiry env (session_in connected none) (at 95) api (pos 100) refl refl
      (omega arith) (refl, omega arith)

cleanup_stranded_example :
    let (flow, after) =
      run_cleanup env_failing (session_in connected none) (client failing_api) (at 0) in
    (returned {Q = Outcome} flow ≡ next (finished (requeue_in rancher_error_requeue_wait)))
    × ((last_sent (session_in connected none) after.trace).status.phase ≡ disconnecting)
    × ((later : Sys ℕ Call)
        → reconcile_session env_failing (last_sent (session_in connected none) after.trace) later
          ≡ (next (finished empty_result), later))
cleanup_stranded_example =
    cleanup_stranded env_failing (session_in connected none) failing_api (at 0) refused refl refl
      refl refl refl (λ r w. refl) (λ w. refl)

-- A session that is being deleted.
abbrev doomed : RancherSession
doomed = session_in connected (some (pos 7))

deletion_stranded_example :
    let (flow, after) = reconcile_session env_failing doomed (at 0) in
    let left = last_sent doomed after.trace in
    (flow ≡ next (finished empty_result))
    × (returned {Q = Outcome} (run_cleanup env_failing doomed (client failing_api) (at 0)).0
        ≡ next (finished (requeue_in rancher_error_requeue_wait)))
    × (left.status.phase ≡ disconnecting)
    × (left.finalizers ≡ doomed.finalizers)
    × (object_writes after.trace ≡ [])
deletion_stranded_example =
    deletion_stranded env_failing doomed failing_api (at 0) refused refl refl refl refl
      (λ r w. refl) (λ w. refl)

disconnect_panics_example :
    (handle_disconnect env_no_client (session_in connected (some (pos 7))) (at 0)).0 ≡ panic
disconnect_panics_example =
    disconnect_panics env_no_client (session_in connected (some (pos 7))) (at 0) demo_secret refused
      refl refl refl refl refl (λ r w. refl)
