-- ===== src/Examples/Lifecycle.antt =====
-- A session of one minute, reconciled ten nanoseconds apart and once more after its expiry.
use losant_device.Prelude.{ℕ, ◌*◌, ◌^◌, false, none, some, []}
use losant_device.Prelude.Int.{pos}
use losant_device.Go.{ok, err}
use losant_device.Kube.{Kube, Deployment}
use losant_device.Rancher.{RancherClient}
use losant_device.Api.LosantSync.{active}
use losant_device.Api.RancherSession.{RancherSession, unset}
use losant_device.Session.Env.{Env, response}
use losant_device.Session.Disconnect.{rancher_client}
use losant_device.Trigger.{Server, new_session}
use losant_device.Examples.{done, refused, session_in, sync_in, demo_meta, demo_kube}

abbrev api : RancherClient ℕ
api = record {
  find_cluster = λ name w. (ok ("", false), w);
  create_cluster = λ name w. (ok "c-7", w);
  get_registration_token = λ id w. (ok "https://rancher/import.yaml", w);
  get_cluster = λ id w. (err refused, w);
  delete_cluster = λ id. done;
}

abbrev agent : Deployment
agent = record {
  name = "cattle-cluster-agent";
  namespace = "cattle-system";
  annotations = [];
  available_replicas = pos 1;
}

abbrev kube : Kube ℕ
kube = record (demo_kube (session_in unset none) (sync_in active none)) {
  get_deployment = λ r w. (ok agent, w);
}

abbrev env : Env ℕ
env = record {
  kube = kube;
  meta = demo_meta;
  rancher_client = some api;
  new_http_client = λ secret. err refused;
  fetch = λ ca url w. (response (pos 200) (ok "---"), w);
  decode = λ body. [];
}

abbrev server : Server ℕ
server = record {
  kube = kube;
  namespace = "losant";
  decode = λ body. ok (record { action = "connect"; ttl_seconds = pos 60 });
  quote = λ s. s;
}

abbrev asked : RancherSession
asked = new_session server "sync" (pos 60)

abbrev late : ℕ
late = 61 * 10 ^ 9
