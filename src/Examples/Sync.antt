-- ===== src/Examples/Sync.antt =====
-- The theorems on the LosantSync controller and the GEA's bootstrap, at an object "sync" whose
-- spec names one workflow.
use losant_device.Prelude.{ℕ, ◌≡◌, refl, false, lookup, arith, none, some, List, [], ◌∷◌}
use losant_device.Prelude.Int.{pos}
use losant_device.Go.{ok, err}
use losant_device.Exec.{Sys, Outcome, returned, next, finished, empty_result}
use losant_device.Api.LosantSync.{active}
use losant_device.Api.RancherSession
use losant_device.Losant.{LosantClient, GeaClient, EdgeDeploymentStatus, Call}
use losant_device.Monitor.Store.{empty_cluster}
use losant_device.Provisioner.{Clock, bootstrap}
use losant_device.Provisioner.Keys.{AllStored, bootstrap-AllStored}
use losant_device.Sync.{Env}
use losant_device.Sync.Devices.{handle_deletion}
use losant_device.Sync.Reconcile.{reconcile_sync, reconcile}
use losant_device.Sync.Backed.{AllBacked}
use losant_device.Sync.Active.{reconcile-AllBacked}
use losant_device.Sync.Deletion.{DeletedFirst, handle_deletion-DeletedFirst}
use losant_device.Sync.Deferred.{AllLocal, reconcile_sync-AllLocal}
use losant_device.Sync.Settled.{Settled}
use losant_device.Examples.Monitor.{health}
use losant_device.Http.{received}
use losant_device.Losant.Request
use losant_device.Losant.Client.{losant_client}
use losant_device.Sync.Report.{report_nodes}
use losant_device.Sync.Steps.{finish_sync}
use losant_device.Sync.Stalled.{asks_again, LeftActive, finish_sync-stalls}
use losant_device.Sync.Gone.{no_device, IsReleased, handle_deletion-IsReleased}
use losant_device.Examples.Clients.{missing, client}
use losant_device.Examples.{done, refused, demo_secret, session_in, sync_in, demo_meta, demo_kube}

abbrev deployments : List EdgeDeploymentStatus
deployments = record { flow_id = "flow"; current_version = "v1"; desired_version = "v1" } ∷ []

abbrev losant : LosantClient ℕ
losant = record {
  ping = done;
  ensure_cluster_device = λ spec w. (ok "device-1", w);
  ensure_node_device = λ spec node gateway w. (ok "device-2", w);
  create_device_access_key = λ app device name w. (ok ("id", "key", "secret"), w);
  delete_device = λ app id. done;
  release_workflow = λ app id flow version. done;
  get_edge_deployments = λ app id w. (ok deployments, w);
}

abbrev gea : GeaClient ℕ ℕ
gea = record { report_state = λ p. done }

abbrev clock : Clock
clock = record { unix = λ t. "0"; rfc3339 = λ t. "1970-01-01T00:00:00Z" }

abbrev pub env : Env ℕ ℕ
env = record {
  kube = demo_kube (session_in RancherSession.unset none) (sync_in active none);
  meta = demo_meta;
  clock = clock;
  losant_client = some losant;
  new_losant_client = λ secret app. err refused;
  gea_client = some (record { report_state = λ p. done });
  new_gea_client = λ spec. record { report_state = λ p. done };
  health_store = some (λ w. ((empty_cluster, []), w));
  parse_cron = λ spec. err refused;
  parse_duration = λ spec. ok (pos 300);
  quote = λ s. s;
}

abbrev at : ℕ → Sys ℕ (Call ℕ)
at w = record { world = w; trace = [] }

reconcile-AllBacked_example : AllBacked (reconcile env "sync" (at 60)).1.trace
reconcile-AllBacked_example = reconcile-AllBacked env "sync" 60

reconcile_sync-AllLocal_example :
    AllLocal (reconcile_sync env (sync_in active none) (at 40)).1.trace
reconcile_sync-AllLocal_example = reconcile_sync-AllLocal env (sync_in active none) 40 refl refl

handle_deletion-DeletedFirst_example :
    DeletedFirst
      (sync_in active (some (pos 7)))
      (handle_deletion env (sync_in active (some (pos 7))) (at 60)).1.trace
handle_deletion-DeletedFirst_example =
    handle_deletion-DeletedFirst env (sync_in active (some (pos 7))) 60

-- A Losant that answers every request for an access key with one.
abbrev issuing : Request.Env ℕ
issuing = record missing {
  send = λ r w. (received (pos 201) (ok "issued"), w);
  decode_access_key = λ body. ok ("id", "key", "secret");
}

bootstrap-AllStored_example :
    AllStored "device-9"
      (bootstrap env.kube clock
        (losant_client issuing client)
        (sync_in active none)
        "device-9"
        (at 60)).1.trace
bootstrap-AllStored_example =
    bootstrap-AllStored ℕ env.kube clock issuing client (sync_in active none) "device-9" 60 refl

abbrev env_monitored : Env ℕ ℕ
env_monitored = record env {
  health_store = some (λ w. ((empty_cluster, ("node-a", health) ∷ []), w));
}

-- A Losant that has no device, behind the HTTP client for the secret.
abbrev env_http : Env ℕ ℕ
env_http = record env {
  losant_client = none;
  new_losant_client = λ secret app. ok (losant_client missing client);
}

handle_deletion-IsReleased_example :
    let m = handle_deletion env_http (sync_in active (some (pos 9))) (at 0) in
    (returned {Q = Outcome} m.0 ≡ next (finished empty_result))
    × IsReleased env_http (sync_in active (some (pos 9))) m.1.trace
handle_deletion-IsReleased_example =
    handle_deletion-IsReleased env_http missing client (sync_in active (some (pos 9))) demo_secret
      (λ id v. received (pos 404) (ok "gone")) 0 refl refl refl (λ id v. no_device "gone")
      (λ id v. refl) (λ r v. refl)

-- The interval "0s".
abbrev zero_env : Env ℕ ℕ
zero_env = record env { parse_duration = λ spec. ok (pos 0) }

finish_sync-stalls_example :
    let (flow, after) =
      finish_sync zero_env gea
        (sync_in active none)
        (("node-a", health) ∷ [])
        (record { world = 0; trace = [] }) in
    (asks_again flow ≡ false) × LeftActive after.trace
unfolding report_nodes lookup
finish_sync-stalls_example =
    finish_sync-stalls zero_env gea (sync_in active none) (pos 0) (("node-a", health) ∷ [])
      (record { world = 0; trace = [] }) refl refl (omega arith) (λ w. omega arith) (λ r w. refl)
