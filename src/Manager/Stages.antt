-- ===== src/Manager/Stages.antt =====
-- The stages of the start-up: what a run of main is to go through, and how it may end.
use losant_device.Prelude.{ℕ, String, ◌≡◌, ◌⊎◌, Option, none, some, List, [], ◌∷◌, if◌then◌else◌}
use losant_device.Go.{GoError, Fallible, ok, err, is_empty}
use losant_device.Exec.{Flow, next, panic}
use losant_device.Manager.{
  Flags, CertWatcher, Kind, losant_sync, node, rancher_session, Request, add_kubernetes_types,
  add_losant_types, get_config, start, watch_certificate, new_manager, set_up, add_trigger_server,
  add_watcher, add_healthz_check, add_readyz_check, Call, made, Env,
}

-- A request without the options of the manager.
pub data Stage : Type 0 where
  types config manager started : Stage
  certificate watcher : CertWatcher → Stage
  controller : Kind → Option ℕ → Stage
  trigger_server : String → String → Stage
  health_check readiness_check : Stage

abbrev pub stage : Request → Stage
stage add_kubernetes_types = types
stage add_losant_types = types
stage get_config = config
stage start = started
stage (watch_certificate w) = certificate w
stage (new_manager arrays options) = manager
stage (set_up r) = controller r.for_kind r.health_store
stage (add_trigger_server addr namespace) = trigger_server addr namespace
stage (add_watcher w) = watcher w
stage (add_healthz_check n) = health_check
stage (add_readyz_check n) = readiness_check

-- The stage of a watcher, if there is one, before others.
abbrev pub with_watcher : (CertWatcher → Stage) → Option CertWatcher → List Stage → List Stage
with_watcher f none more = more
with_watcher f (some w) more = f w ∷ more

-- What the calls have reached, and with which result.
abbrev pub stages : List Call → List (Stage × Fallible (Unit {0}))
stages [] = []
stages (made q r ∷ calls) = (stage q, r) ∷ stages calls

-- A type that cannot be registered makes init panic; any other failure ends main with code 1.
abbrev pub failure_of : Stage → Flow ℕ ℕ
failure_of types = panic
failure_of _ = next 1

-- After the calls `before`, all stages of the plan are passed and the exit code is 0; or one
-- failed, those before it are passed, none after it is tried, and the process fails.
abbrev pub Follows :
    List Stage
    → List (Stage × Fallible (Unit {0}))
    → Flow ℕ ℕ
    → List (Stage × Fallible (Unit {0}))
    → Type 0
Follows [] before flow after = (flow ≡ next 0) × (after ≡ before)
Follows (a ∷ plan) before flow after =
    Follows plan ((a, ok tt) ∷ before) flow after
    ⊎ ((e : GoError) × (flow ≡ failure_of a) × (after ≡ (a, err e) ∷ before))

module _ {W : Type 0} (env : Env W) where
  -- The watcher for a server's certificate, if a path is given.
  abbrev pub watcher_of : String → String → String → Option CertWatcher
  watcher_of path name key =
      if is_empty path
      then none
      else some (record { cert_path = env.join path name; key_path = env.join path key })

  abbrev pub webhook_watcher_of : Flags → Option CertWatcher
  webhook_watcher_of flags =
      watcher_of flags.webhook_cert_path flags.webhook_cert_name flags.webhook_cert_key

  abbrev pub metrics_watcher_of : Flags → Option CertWatcher
  metrics_watcher_of flags =
      watcher_of flags.metrics_cert_path flags.metrics_cert_name flags.metrics_cert_key

  -- The order of the start-up, once the certificates are watched.
  abbrev pub plan_with : Flags → Option CertWatcher → Option CertWatcher → List Stage
  plan_with flags webhook metrics =
      config
      ∷ manager
      ∷ controller losant_sync (some env.health_store)
      ∷ controller node (some env.health_store)
      ∷ controller rancher_session none
      ∷ trigger_server flags.trigger_addr flags.trigger_namespace
      ∷ with_watcher watcher metrics
          (with_watcher watcher webhook (health_check ∷ readiness_check ∷ started ∷ []))

  -- The order of the start-up.
  abbrev pub plan : Flags → List Stage
  plan flags =
      let webhook = webhook_watcher_of flags in
      let metrics = metrics_watcher_of flags in
      types
      ∷ types
      ∷ with_watcher certificate webhook
          (with_watcher certificate metrics (plan_with flags webhook metrics))
