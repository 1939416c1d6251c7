-- ===== src/Examples/Polling.antt =====
-- The theorem on sessions that wait for the agent, at a session whose agent never appears.
use losant_device.Prelude.{ℕ, ◌+◌, ◌^◌, ◌*◌, ◌≡◌, refl, true, none, some, [], arith}
use losant_device.Prelude.Int.{pos, pos_part}
use losant_device.Go.{GoError, err, Duration, not_found}
use losant_device.Rancher.{RancherClient}
use losant_device.Api.RancherSession.{RancherSession, unset, connecting}
use losant_device.Api.LosantSync
use losant_device.Session.Env.{Env, bad_request}
use losant_device.Session.Polling.{polls, Ticks, Waits, Answers, is_decided}
use losant_device.Session.Polling.Decided.{polls-decides}
use losant_device.Examples.{refused, session_in, sync_in, demo_meta, demo_kube}

abbrev missing : GoError
missing = record { text = "not found"; wraps = some not_found }

abbrev api : RancherClient ℕ
api = record {
  find_cluster = λ name w. (err refused, w);
  create_cluster = λ name w. (err refused, w);
  get_registration_token = λ id w. (err refused, w);
  get_cluster = λ id w. (err refused, w);
  delete_cluster = λ id w. (err refused, w);
}

abbrev env : Env ℕ
env = record {
  kube = record (demo_kube (session_in unset none) (sync_in LosantSync.active none)) {
    get_deployment = λ r w. (err missing, w);
  };
  meta = demo_meta;
  rancher_client = some api;
  new_http_client = λ secret. err refused;
  fetch = λ ca url w. (bad_request refused, w);
  decode = λ body. [];
}

abbrev waiting : RancherSession
waiting = record (session_in connecting none) {
  status = record (session_in connecting none).status {
    manifest_applied = true;
    expires_at = some (pos (6 * 10 ^ 9));
  };
}

abbrev sleep : Duration → ℕ → ℕ
sleep d w = w + pos_part d

env-Ticks : Ticks env sleep (λ w. w)
env-Ticks = record {
  now_reads = λ w. refl;
  now_goes_on = λ w. omega arith;
  lookup_goes_on = λ w. omega arith;
  wait_lasts = λ d w. omega arith;
}

env-Answers : Answers env
env-Answers = record { writes = λ r w. refl; lookups = λ w e h. ground arith }

waiting-Waits : Waits env waiting
waiting-Waits = record {
  phase = refl;
  applied = refl;
  live = refl;
  finalized = refl;
  active = refl;
}

-- The first two polls come before the deadline, at 6 seconds, and the third one after it.
polls-decides_example : is_decided (polls env sleep 3 waiting 0).0.status.phase ≡ true
polls-decides_example =
    polls-decides env sleep (λ w. w) env-Ticks env-Answers 2 waiting api (6 * 10 ^ 9) 0 refl
      waiting-Waits refl (omega arith)
