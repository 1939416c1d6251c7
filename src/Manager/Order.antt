-- ===== src/Manager/Order.antt =====
-- The order in which the start-up asks for things, and its end.
use losant_device.Prelude.{
  ℕ, String, ◌≡◌, refl, ap, ◌⊎◌, inl, inr, true, false, Bool-cases, Option, none, some, List, [],
  ◌∷◌,
}
use losant_device.Go.{GoError, ok, err, Fallible-cases, is_empty}
use losant_device.Go.Slices.{Slice, append}
use losant_device.Exec.{
  Exec, Sys, Flow, ◌>>=◌, ◌>>◌, pure, next, stop, panic, returned, scope, >>=-assoc,
}
use losant_device.Manager.{
  losant_sync_controller, health_watcher_controller, rancher_session_controller, Flags, CertWatcher,
  TlsOptions, Request, add_kubernetes_types, add_losant_types, get_config, start, watch_certificate,
  new_manager, set_up, add_trigger_server, add_watcher, add_healthz_check, add_readyz_check, Call,
  made, parsed, default_flags, Env,
}
use losant_device.Manager.Main.{
  must, check, set_certificate, tls_options, with_certificate, add_if_set, run_manager,
  manager_options, main_with, register_types, main,
}
use losant_device.Manager.Stages.{
  Stage, certificate, watcher, stage, with_watcher, stages, failure_of, Follows, watcher_of,
  webhook_watcher_of, metrics_watcher_of, plan_with, plan,
}

returned-returned : (flow : Flow ℕ ℕ) → returned {Q = ℕ} (returned {Q = ℕ} flow) ≡ returned flow
returned-returned (next n) = refl
returned-returned (stop n) = refl
returned-returned panic = refl

module _ {W : Type 0} (env : Env W) where
  record Runs (todo : List Stage) (m : Exec W Call ℕ ℕ) : Type 0 where
    follows :
        (s : Sys W Call) → Follows todo (stages s.trace) (returned (m s).0) (stages (m s).1.trace)

  module _ (q : Request) (rest : Exec W Call ℕ ℕ) where
    abbrev accepted : Sys W Call → Sys W Call
    accepted s = record { world = (env.perform q s.world).1; trace = made q (ok tt) ∷ s.trace }

    -- A request, then the rest.
    abbrev Asks : Exec W Call ℕ ℕ → Type 0
    Asks m =
        (s : Sys W Call)
        → (m s ≡ rest (accepted s))
          ⊎ ((e : GoError) × (returned {Q = ℕ} (m s).0 ≡ failure_of (stage q))
              × ((m s).1.trace ≡ made q (err e) ∷ s.trace))

    Asks-Runs :
        (more : List Stage) (m : Exec W Call ℕ ℕ)
        → Asks m
        → Runs more rest
        → Runs (stage q ∷ more) m
    Asks-Runs more m asks h = record {
      follows = λ s. elim (asks s) [
        | inl e ↦ rw e (inl (h.follows (accepted s)))
        | inr f ↦ inr (f.0, f.1, ap stages f.2)
      ];
    }

    check-Asks : failure_of (stage q) ≡ next 1 → Asks (check env q >> rest)
    unfolding check
    check-Asks code s = elim (Fallible-cases (env.perform q s.world).0) [
      | inl (u, e) ↦ inl (rw e)
      | inr (f, e) ↦ inr (f, rw (e, code), rw e)
    ]

    must-Asks : failure_of (stage q) ≡ panic → Asks (must env q >> rest)
    unfolding must
    must-Asks code s = elim (Fallible-cases (env.perform q s.world).0) [
      | inl (u, e) ↦ inl (rw e)
      | inr (f, e) ↦ inr (f, rw (e, code), rw e)
    ]

  check-Runs :
      (q : Request) {rest : Exec W Call ℕ ℕ} {more : List Stage}
      → failure_of (stage q) ≡ next 1
      → Runs more rest
      → Runs (stage q ∷ more) (check env q >> rest)
  check-Runs q {rest} {more} code h = Asks-Runs q rest more _ (check-Asks q rest code) h

  add_if_set-Runs :
      (o : Option CertWatcher) {rest : Exec W Call ℕ ℕ} {more : List Stage}
      → Runs more rest
      → Runs (with_watcher watcher o more) (add_if_set env o >> rest)
  unfolding add_if_set
  add_if_set-Runs none h = h
  add_if_set-Runs (some w) h = check-Runs (add_watcher w) refl h

  end-Runs : Runs [] (pure 0)
  end-Runs = record { follows = λ s. (refl, refl) }

  module _ (path name key : String) (opts : Slice) (arrays : TlsOptions)
      (rest : Option CertWatcher × Slice × TlsOptions → Exec W Call ℕ ℕ)
      (more : Option CertWatcher → List Stage) where
    abbrev file_pair : CertWatcher
    file_pair = record { cert_path = env.join path name; key_path = env.join path key }

    abbrev once_watched : Exec W Call ℕ ℕ
    once_watched =
        let (opts', arrays') = append env.grow opts (set_certificate file_pair) arrays in
        rest (some file_pair, opts', arrays')

    with_certificate-Asks :
        is_empty path ≡ false
        → Asks
            (watch_certificate file_pair)
            once_watched
            (with_certificate env path name key opts arrays >>= rest)
    unfolding with_certificate check
    with_certificate-Asks given s =
        elim (Fallible-cases (env.perform (watch_certificate file_pair) s.world).0) [
          | inl (u, e) ↦ inl (rw (given, e))
          | inr (f, e) ↦ inr (f, rw (given, e), rw (given, e))
        ]

    with_certificate-none :
        (s : Sys W Call)
        → is_empty path ≡ true
        → (with_certificate env path name key opts arrays >>= rest) s ≡ rest (none, opts, arrays) s
    unfolding with_certificate
    with_certificate-none s absent = rw absent

    with_certificate-Runs :
        ((o : Option CertWatcher) (opts' : Slice) (arrays' : TlsOptions)
          → Runs (more o) (rest (o, opts', arrays')))
        → Runs
            (with_watcher certificate
              (watcher_of env path name key)
              (more (watcher_of env path name key)))
            (with_certificate env path name key opts arrays >>= rest)
    with_certificate-Runs h = elim (Bool-cases (is_empty path)) [
      | inl e ↦ record {
        follows = λ s. rw (e, with_certificate-none s e) ((h none opts arrays).follows s);
      }
      | inr e ↦ rw e (
          Asks-Runs (watch_certificate file_pair) once_watched (more (some file_pair)) _
            (with_certificate-Asks e) (h (some file_pair) _ _))
    ]

  run_manager-Runs :
      (flags : Flags) (webhook metrics : Option CertWatcher) (webhook_opts metrics_opts : Slice)
      (arrays : TlsOptions)
      → Runs
          (plan_with env flags webhook metrics)
          (run_manager env flags webhook metrics webhook_opts metrics_opts arrays)
  unfolding run_manager losant_sync_controller health_watcher_controller rancher_session_controller
  run_manager-Runs flags webhook metrics webhook_opts metrics_opts arrays =
      let served =
        check-Runs (add_healthz_check "healthz") refl
          (check-Runs (add_readyz_check "readyz") refl (check-Runs start refl end-Runs)) in
      let watched = add_if_set-Runs metrics (add_if_set-Runs webhook served) in
      let triggered =
        check-Runs (add_trigger_server flags.trigger_addr flags.trigger_namespace) refl watched in
      let controlled = check-Runs (set_up (losant_sync_controller env.health_store)) refl (
        check-Runs (set_up (health_watcher_controller env.health_store)) refl
          (check-Runs (set_up rancher_session_controller) refl triggered)) in
      check-Runs get_config refl (
        check-Runs (new_manager arrays (manager_options env flags metrics_opts webhook_opts)) refl
          controlled)

  main_with-Runs :
      (flags : Flags)
      → Runs
          (with_watcher certificate (webhook_watcher_of env flags) (
            with_watcher certificate
              (metrics_watcher_of env flags)
              (plan_with env flags (webhook_watcher_of env flags) (metrics_watcher_of env flags))))
          (main_with env flags)
  unfolding main_with
  main_with-Runs flags =
      let (tls_opts, arrays) = tls_options env flags in
      with_certificate-Runs flags.webhook_cert_path flags.webhook_cert_name flags.webhook_cert_key
        tls_opts arrays _
        (λ webhook.
          with_watcher certificate (metrics_watcher_of env flags)
            (plan_with env flags webhook (metrics_watcher_of env flags)))
        λ webhook webhook_opts arrays'.
          with_certificate-Runs flags.metrics_cert_path flags.metrics_cert_name
            flags.metrics_cert_key tls_opts arrays' _ (plan_with env flags webhook)
            λ metrics metrics_opts arrays''.
              run_manager-Runs flags webhook metrics webhook_opts metrics_opts arrays''

  must-Runs :
      (q : Request) {rest : Exec W Call ℕ ℕ} {more : List Stage}
      → failure_of (stage q) ≡ panic
      → Runs more rest
      → Runs (stage q ∷ more) (must env q >> rest)
  must-Runs q {rest} {more} code h = Asks-Runs q rest more _ (must-Asks q rest code) h

  scope-Runs : (todo : List Stage) (m : Exec W Call ℕ ℕ) → Runs todo m → Runs todo (scope m)
  scope-Runs todo m h = record { follows = λ s. rw (returned-returned (m s).0) (h.follows s) }

  -- The order of the start-up: the two groups of types are registered, a watcher is made for the
  -- webhook server's certificate and one for the metrics server's, each if its path is given, then
  -- the manager is made, given the three controllers, of which the first two share one health
  -- store, the trigger server at the flags' address and namespace, the watchers and the two
  -- checks, and at last it is started. The first of these that fails is the last one tried: a type
  -- that cannot be registered makes the process panic, and any other failure ends it with exit
  -- code 1. When none fails the exit code is 0.
  pub main-Follows :
      (flags : Flags) (w : W)
      → env.parse_flags default_flags ≡ parsed flags
      → let (flow, after) = main env (record { world = w; trace = [] }) in
        Follows (plan env flags) [] (returned flow) (stages after.trace)
  unfolding main register_types
  main-Follows flags w given =
      let started = scope-Runs _ _ (main_with-Runs flags) in
      let registered =
        must-Runs add_kubernetes_types refl (must-Runs add_losant_types refl started) in
      rw given (
        rw
          (>>=-assoc (must env add_kubernetes_types) (λ _. must env add_losant_types)
            (λ _. scope (main_with env flags)) (record { world = w; trace = [] }))
          (registered.follows (record { world = w; trace = [] })))
