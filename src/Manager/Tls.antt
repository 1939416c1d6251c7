-- ===== src/Manager/Tls.antt =====
-- The TLS options of the two servers: the slices that main appends to share their arrays.
use losant_device.Prelude.{
  ℕ, String, ◌≡◌, refl, inl, inr, Bool, true, false, Bool-cases, Option, none, some, List, [], ◌∷◌,
}
use losant_device.Go.{Fallible, ok, err, Fallible-cases, is_empty}
use losant_device.Go.Slices.{Slice, contents, append}
use losant_device.Exec.{scope, >>=-assoc, Exec, Sys, ◌>>=◌, ◌>>◌, pure}
use losant_device.Manager.{
  Flags, CertWatcher, TlsConfig, TlsOption, TlsOptions, Request, new_manager, Call, made, Env,
  add_watcher, add_healthz_check, add_readyz_check, add_trigger_server, start, set_up, get_config,
  watch_certificate, losant_sync_controller, health_watcher_controller, rancher_session_controller,
  add_kubernetes_types, add_losant_types, default_flags, parsed,
}
use losant_device.Manager.Stages.{watcher_of, webhook_watcher_of, metrics_watcher_of}
use losant_device.Manager.Main.{
  disable_http2, set_certificate, check, must, register_types, main, add_if_set, tls_options,
  with_certificate, run_manager, manager_options, main_with,
}

-- A server's configuration: the options change it in their order.
abbrev pub configure : List TlsOption → TlsConfig → TlsConfig
configure [] c = c
configure (option ∷ options) c = configure options (option c)

abbrev with_protocols : Bool → TlsConfig → TlsConfig
with_protocols true c = c
with_protocols false c = record c { next_protos = "http/1.1" ∷ [] }

abbrev with_watched : Option CertWatcher → TlsConfig → TlsConfig
with_watched none c = c
with_watched (some w) c = record c { get_certificate = some w }

-- The configuration that a server is to have: HTTP/1.1 alone unless HTTP/2 is enabled, and the
-- certificate of its own watcher, if it has one.
abbrev pub intended : Flags → Option CertWatcher → TlsConfig → TlsConfig
intended flags watcher c = with_watched watcher (with_protocols flags.enable_http2 c)

abbrev pub Configures : Flags → Option CertWatcher → Slice → TlsOptions → Type 0
Configures flags watcher opts arrays =
    (c : TlsConfig) → configure (contents opts arrays) c ≡ intended flags watcher c

module _ {W : Type 0} (env : Env W) where
  -- with_certificate's options, where it goes on
  abbrev options_after : Option CertWatcher → Slice → TlsOptions → Slice × TlsOptions
  options_after none opts arrays = (opts, arrays)
  options_after (some w) opts arrays = append env.grow opts (set_certificate w) arrays

  both_configured :
      (flags : Flags) (webhook metrics : Option CertWatcher)
      → env.grow 1 ≡ 1
      → let (opts, arrays) = tls_options env flags in
        let (webhook_opts, arrays') = options_after webhook opts arrays in
        let (metrics_opts, arrays'') = options_after metrics opts arrays' in
        Configures flags webhook webhook_opts arrays''
        × Configures flags metrics metrics_opts arrays''
  unfolding tls_options append disable_http2 set_certificate
  both_configured flags none none exact = elim (Bool-cases flags.enable_http2) [
    | inl e ↦ rw e (λ c. refl, λ c. refl)
    | inr e ↦ rw e (λ c. refl, λ c. refl)
  ]
  both_configured flags none (some m) exact = elim (Bool-cases flags.enable_http2) [
    | inl e ↦ rw e (λ c. refl, λ c. refl)
    | inr e ↦ rw (e, exact) (λ c. refl, λ c. refl)
  ]
  both_configured flags (some w) none exact = elim (Bool-cases flags.enable_http2) [
    | inl e ↦ rw e (λ c. refl, λ c. refl)
    | inr e ↦ rw (e, exact) (λ c. refl, λ c. refl)
  ]
  both_configured flags (some w) (some m) exact = elim (Bool-cases flags.enable_http2) [
    | inl e ↦ rw e (λ c. refl, λ c. refl)
    | inr e ↦ rw (e, exact) (λ c. refl, λ c. refl)
  ]

module _ {W : Type 0} (env : Env W) (flags : Flags) where
  -- The options of a manager give both servers their configuration.
  abbrev pub IsOwn : Call → Type 0
  IsOwn (made (new_manager arrays o) r) =
      Configures flags (webhook_watcher_of env flags) o.webhook_tls_opts arrays
      × Configures flags (metrics_watcher_of env flags) o.metrics_tls_opts arrays
  IsOwn _ = Unit

  abbrev pub AllOwn : List Call → Type 0
  AllOwn [] = Unit
  AllOwn (c ∷ calls) = IsOwn c × AllOwn calls

  record Keeps {A : Type 0} (m : Exec W Call ℕ A) : Type 0 where
    keeps : (s : Sys W Call) → AllOwn s.trace → AllOwn (m s).1.trace

  check-Keeps :
      {A : Type 0} (q : Request) {rest : Exec W Call ℕ A}
      → ((r : Fallible (Unit {0})) → IsOwn (made q r))
      → Keeps rest
      → Keeps (check env q >> rest)
  unfolding check
  check-Keeps q {rest} own h = record {
    keeps = λ s old. elim (Fallible-cases (env.perform q s.world).0) [
      | inl (u, e) ↦ rw e (h.keeps _ (own (ok u), old))
      | inr (f, e) ↦ rw e (own (err f), old)
    ];
  }

  must-Keeps :
      (q : Request) {rest : Exec W Call ℕ ℕ}
      → ((r : Fallible (Unit {0})) → IsOwn (made q r))
      → Keeps rest
      → Keeps (must env q >> rest)
  unfolding must
  must-Keeps q {rest} own h = record {
    keeps = λ s old. elim (Fallible-cases (env.perform q s.world).0) [
      | inl (u, e) ↦ rw e (h.keeps _ (own (ok u), old))
      | inr (f, e) ↦ rw e (own (err f), old)
    ];
  }

  add_if_set-Keeps :
      (o : Option CertWatcher) {rest : Exec W Call ℕ ℕ}
      → Keeps rest
      → Keeps (add_if_set env o >> rest)
  unfolding add_if_set
  add_if_set-Keeps none h = h
  add_if_set-Keeps (some w) h = check-Keeps (add_watcher w) (λ r. tt) h

  run_manager-Keeps :
      (webhook metrics : Option CertWatcher) (webhook_opts metrics_opts : Slice)
      (arrays : TlsOptions)
      → Configures flags (webhook_watcher_of env flags) webhook_opts arrays
      → Configures flags (metrics_watcher_of env flags) metrics_opts arrays
      → Keeps (run_manager env flags webhook metrics webhook_opts metrics_opts arrays)
  unfolding run_manager manager_options losant_sync_controller health_watcher_controller
      rancher_session_controller
  run_manager-Keeps webhook metrics webhook_opts metrics_opts arrays own_webhook own_metrics =
      let finish : Keeps (pure 0) = record { keeps = λ s old. old } in
      let served =
        check-Keeps (add_healthz_check "healthz") (λ r. tt)
          (check-Keeps (add_readyz_check "readyz") (λ r. tt)
            (check-Keeps start (λ r. tt) finish)) in
      let triggered =
        check-Keeps (add_trigger_server flags.trigger_addr flags.trigger_namespace) (λ r. tt)
          (add_if_set-Keeps metrics (add_if_set-Keeps webhook served)) in
      let controlled =
        check-Keeps (set_up (losant_sync_controller env.health_store)) (λ r. tt)
          (check-Keeps (set_up (health_watcher_controller env.health_store)) (λ r. tt)
            (check-Keeps (set_up rancher_session_controller) (λ r. tt) triggered)) in
      check-Keeps get_config (λ r. tt)
        (check-Keeps (new_manager arrays (manager_options env flags metrics_opts webhook_opts))
          (λ r. (own_webhook, own_metrics)) controlled)

  module _ (path name key : String) (opts : Slice) (arrays : TlsOptions)
      (rest : Option CertWatcher × Slice × TlsOptions → Exec W Call ℕ ℕ) where
    abbrev once_made : Exec W Call ℕ ℕ
    once_made =
        let watcher = watcher_of env path name key in
        let (opts', arrays') = options_after env watcher opts arrays in
        rest (watcher, opts', arrays')

    abbrev file_pair : CertWatcher
    file_pair = record { cert_path = env.join path name; key_path = env.join path key }

    without_certificate-Keeps :
        is_empty path ≡ true
        → Keeps (rest (none, opts, arrays))
        → Keeps (with_certificate env path name key opts arrays >>= rest)
    unfolding with_certificate
    without_certificate-Keeps absent h = record { keeps = λ s old. rw absent (h.keeps s old) }

    given_certificate-Keeps :
        is_empty path ≡ false
        → (let (opts', arrays') = options_after env (some file_pair) opts arrays in
            Keeps (rest (some file_pair, opts', arrays')))
        → Keeps (with_certificate env path name key opts arrays >>= rest)
    unfolding with_certificate check
    given_certificate-Keeps given h = record {
      keeps = λ s old. elim (Fallible-cases (env.perform (watch_certificate file_pair) s.world).0) [
        | inl (u, e) ↦ rw (given, e) (h.keeps _ (tt, old))
        | inr (f, e) ↦ rw (given, e) (tt, old)
      ];
    }

    with_certificate-Keeps :
        Keeps once_made → Keeps (with_certificate env path name key opts arrays >>= rest)
    with_certificate-Keeps h = elim (Bool-cases (is_empty path)) [
      | inl e ↦ without_certificate-Keeps e (rw e at h)
      | inr e ↦ given_certificate-Keeps e (rw e at h)
    ]

  main_with-Keeps : env.grow 1 ≡ 1 → Keeps (main_with env flags)
  unfolding main_with
  main_with-Keeps exact =
      let webhook = webhook_watcher_of env flags in
      let metrics = metrics_watcher_of env flags in
      let (opts, arrays) = tls_options env flags in
      let (webhook_opts, arrays') = options_after env webhook opts arrays in
      let (metrics_opts, arrays'') = options_after env metrics opts arrays' in
      let (own_webhook, own_metrics) = both_configured env flags webhook metrics exact in
      with_certificate-Keeps flags.webhook_cert_path flags.webhook_cert_name flags.webhook_cert_key
        opts arrays _
        (with_certificate-Keeps flags.metrics_cert_path flags.metrics_cert_name
          flags.metrics_cert_key opts arrays' _
          (run_manager-Keeps webhook metrics webhook_opts metrics_opts arrays'' own_webhook
            own_metrics))

  -- Each manager that is made gives both of its servers their configuration, once the options that
  -- were appended are applied in order: only HTTP/1.1 is offered, unless HTTP/2 is enabled, the
  -- certificate is that of the server's own watcher, if the flags give its path, and all else is as
  -- it was. This is where append makes an array of one element with the capacity 1, so that the two
  -- servers' options, which start from one slice, do not share an array.
  pub main-AllOwn :
      (w : W)
      → env.grow 1 ≡ 1
      → env.parse_flags default_flags ≡ parsed flags
      → AllOwn (main env (record { world = w; trace = [] })).1.trace
  unfolding main register_types
  main-AllOwn w exact given =
      let started : Keeps (scope (main_with env flags)) = record {
        keeps = (main_with-Keeps exact).keeps;
      } in
      let registered =
        must-Keeps add_kubernetes_types (λ r. tt) (must-Keeps add_losant_types (λ r. tt) started) in
      rw given (
        rw
          (>>=-assoc (must env add_kubernetes_types) (λ _. must env add_losant_types)
            (λ _. scope (main_with env flags)) (record { world = w; trace = [] }))
          (registered.keeps (record { world = w; trace = [] }) tt))
