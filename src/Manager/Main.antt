-- ===== src/Manager/Main.antt =====
-- cmd/main.go: init and main. The value that main returns is the exit code of the process.
use losant_device.Prelude.{ℕ, String, Option, none, some, [], ◌∷◌, if◌then◌else◌}
use losant_device.Go.{ok, err, is_empty}
use losant_device.Go.Slices.{Slice, nil, no_arrays, append}
use losant_device.Exec.{Exec, ◌>>=◌, ◌>>◌, call, value, pure, crash, scope}
use losant_device.Manager.{
  Flags, default_flags, CertWatcher, TlsOption, TlsOptions, ManagerOptions, losant_sync_controller,
  health_watcher_controller, rancher_session_controller, Request, add_kubernetes_types,
  add_losant_types, get_config, start, watch_certificate, new_manager, set_up, add_trigger_server,
  add_watcher, add_healthz_check, add_readyz_check, Call, made, parsed, exits, Env,
}

-- disableHTTP2
unfoldable pub disable_http2 : TlsOption
disable_http2 c = record c { next_protos = "http/1.1" ∷ [] }

-- config.GetCertificate = watcher.GetCertificate
unfoldable pub set_certificate : CertWatcher → TlsOption
set_certificate watcher c = record c { get_certificate = some watcher }

module _ {W : Type 0} (env : Env W) where
  abbrev Part : Type 0 → Type 0
  Part A = Exec W Call ℕ A

  -- if err := request; err != nil { os.Exit(1) }
  unfoldable pub check : Request → Part (Unit {0})
  check request = do result ← call (made request) (env.perform request); value result (λ e. pure 1)

  -- utilruntime.Must(request)
  unfoldable pub must : Request → Part (Unit {0})
  must request = do
    result ← call (made request) (env.perform request)
    elim result [ ok u ↦ pure u | err e ↦ crash ]

  -- init
  unfoldable pub register_types : Part (Unit {0})
  unfolding must
  register_types = do must add_kubernetes_types; must add_losant_types

  -- tlsOpts
  unfoldable pub tls_options : Flags → Slice × TlsOptions
  unfolding append disable_http2
  tls_options flags =
      if flags.enable_http2 then (nil, no_arrays) else append env.grow nil disable_http2 no_arrays

  -- the watcher for a server's certificate, where a path is given, and the server's options
  unfoldable pub with_certificate :
      String → String → String → Slice → TlsOptions → Part (Option CertWatcher × Slice × TlsOptions)
  unfolding check append set_certificate
  with_certificate path name key opts arrays =
      if is_empty path then pure (none, opts, arrays) else do
        let watcher : CertWatcher = record {
          cert_path = env.join path name;
          key_path = env.join path key;
        }
        check (watch_certificate watcher)
        let (opts, arrays) = append env.grow opts (set_certificate watcher) arrays
        pure (some watcher, opts, arrays)

  -- if watcher != nil { mgr.Add(watcher) }
  unfoldable pub add_if_set : Option CertWatcher → Part (Unit {0})
  unfolding check
  add_if_set none = pure tt
  add_if_set (some watcher) = check (add_watcher watcher)

  -- the options of the manager, its metrics server and its webhook server
  unfoldable pub manager_options : Flags → Slice → Slice → ManagerOptions
  manager_options flags metrics_opts webhook_opts = record {
    metrics_bind_address = flags.metrics_addr;
    secure_serving = flags.secure_metrics;
    metrics_tls_opts = metrics_opts;
    authenticated = flags.secure_metrics;
    webhook_tls_opts = webhook_opts;
    health_probe_bind_address = flags.probe_addr;
    leader_election = flags.enable_leader_election;
    leader_election_id = "4b724877.losant.io";
  }

  -- main, from the making of the manager on
  unfoldable pub run_manager :
      Flags → Option CertWatcher → Option CertWatcher → Slice → Slice → TlsOptions → Part ℕ
  unfolding check add_if_set manager_options losant_sync_controller health_watcher_controller
      rancher_session_controller
  run_manager flags webhook_watcher metrics_watcher webhook_opts metrics_opts arrays = do
    check get_config
    check (new_manager arrays (manager_options flags metrics_opts webhook_opts))
    check (set_up (losant_sync_controller env.health_store))
    check (set_up (health_watcher_controller env.health_store))
    check (set_up rancher_session_controller)
    check (add_trigger_server flags.trigger_addr flags.trigger_namespace)
    add_if_set metrics_watcher
    add_if_set webhook_watcher
    check (add_healthz_check "healthz")
    check (add_readyz_check "readyz")
    check start
    pure 0

  -- main, once the flags are parsed
  unfoldable pub main_with : Flags → Part ℕ
  unfolding tls_options with_certificate run_manager
  main_with flags = do
    let (tls_opts, arrays) = tls_options flags
    (webhook_watcher, webhook_opts, arrays) ←
        with_certificate flags.webhook_cert_path flags.webhook_cert_name flags.webhook_cert_key
          tls_opts arrays
    (metrics_watcher, metrics_opts, arrays) ←
        with_certificate flags.metrics_cert_path flags.metrics_cert_name flags.metrics_cert_key
          tls_opts arrays
    run_manager flags webhook_watcher metrics_watcher webhook_opts metrics_opts arrays

  -- init and main
  unfoldable pub main : Part ℕ
  unfolding register_types main_with
  main = do
    register_types
    elim (env.parse_flags default_flags) [
      | exits code ↦ pure code
      | parsed flags ↦ scope (main_with flags)
    ]
