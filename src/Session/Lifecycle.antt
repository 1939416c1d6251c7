-- ===== src/Session/Lifecycle.antt =====
-- The life of a session, from the trigger server's request on: registered, connected, and at the
-- end of its time cleaned up.
pub mod Steps
pub mod Lives
use mathlib.Core.Path.{subst}
use losant_device.Prelude.{
  ℕ, suc, String, get_or, ◌*◌, ◌^◌, ◌≤◌, ◌<◌, ◌==◌, ◌≡◌, refl, sym, ap, ◌∙◌, Bool, true, false,
  Option, none, some, List, [], ◌∷◌, if◌then◌else◌, arith,
}
use losant_device.Prelude.Int.{ℤ, pos, ◌+ℤ◌, ◌*ℤ◌, ◌≤ℤ◌, ◌<ℤ◌, int64}
use losant_device.Go.{Fallible, ok, err, is_empty, Time}
use losant_device.Exec.{Sys, Flow, Outcome, next}
use losant_device.Kube.{Deployment, Manifest, Secret}
use losant_device.Rancher.{RancherClient}
use losant_device.Api.{SecretRef, condition_true}
use losant_device.Api.RancherSession.{
  RancherSession, RancherSessionPhase, unset, connecting, connected, disconnected,
}
use losant_device.Session.Env.{
  Env, Call, client, Fetched, response, status_updated, session_updated, cluster_deleted,
  rancher_finalizer, agent_ready_timeout, second, api_reachable,
}
use losant_device.Session.Status.{set_rancher_condition, update_status_then}
use losant_device.Session.Manifests.{apply_documents, apply_manifest, manifest_body}
use losant_device.Session.Manifests.Keeps.{after_apply}
use losant_device.Session.Manifests.Order.{all_decoded}
use losant_device.Session.Connect.{
  ensure_cluster, register, handle_connect, is_past, poll_agent_ready, become_connected,
}
use losant_device.Session.Disconnect.{run_cleanup, delete_cluster, finish_cleanup}
use losant_device.Session.Reconcile.{dispatch, serve, handle_connected, reconcile_session}
use losant_device.Session.Polling.{agent_lookup}
use losant_device.Trigger
use losant_device.Trigger.{new_session}
use losant_device.Session.Expiry.{max_ttl, ttl_fits}

-- The session as the API server has it after these calls. An update of the object sends the status
-- that was read.
abbrev pub kept : RancherSession → List Call → RancherSession
kept rs [] = rs
kept rs (status_updated r (ok _) ∷ calls) = r
kept rs (session_updated r (ok _) ∷ calls) = r
kept rs (_ ∷ calls) = kept rs calls

-- The cluster that Rancher has deleted last.
abbrev pub deleted_cluster : List Call → Option String
deleted_cluster [] = none
deleted_cluster (cluster_deleted id (ok _) ∷ calls) = some id
deleted_cluster (_ ∷ calls) = deleted_cluster calls

-- Kubernetes, Rancher and the server of the manifest do what they are asked to, and the agent
-- comes up.
pub record Cooperates {W : Type 0} (env : Env W) (api : RancherClient W) (id : String)
    : Type 0 where
  pub injected : env.rancher_client ≡ some api
  pub added : (env.meta.add_finalizer rancher_finalizer []).0 ≡ true
  pub present :
      (env.meta.add_finalizer rancher_finalizer (env.meta.add_finalizer rancher_finalizer []).1).0
      ≡ false
  pub status_written :
      (r : RancherSession) (w : W) → (env.kube.update_rancher_session_status r w).0 ≡ ok tt
  pub session_written :
      (r : RancherSession) (w : W) → (env.kube.update_rancher_session r w).0 ≡ ok tt
  pub sought : (name : String) (w : W) → (api.find_cluster name w).0 ≡ ok ("", false)
  pub created : (name : String) (w : W) → (api.create_cluster name w).0 ≡ ok id
  pub named : is_empty id ≡ false
  pub url : String
  pub token : (w : W) → (api.get_registration_token id w).0 ≡ ok url
  pub secret : Secret
  pub credentials : (r : SecretRef) (w : W) → (env.kube.get_secret r w).0 ≡ ok secret
  pub body : String
  pub fetched : (ca : String) (w : W) → (env.fetch ca url w).0 ≡ response (pos 200) (ok body)
  pub decoded : all_decoded (env.decode body) ≡ true
  pub applied : (m : Manifest) (w : W) → (env.kube.apply_object m w).0 ≡ ok tt
  pub agent : Deployment
  pub looked_up : (w : W) → (agent_lookup env w).0 ≡ ok agent
  pub replicas : ℕ
  pub available : agent.available_replicas ≡ pos (suc replicas)
  pub deleted : (w : W) → (api.delete_cluster id w).0 ≡ ok tt
  pub removed : (n : String) (w : W) → (env.kube.delete_namespace n w).0 ≡ ok tt

abbrev pub ended : RancherSession → RancherSession
ended rs = record rs {
  status = record rs.status {
    phase = disconnected;
    last_transition_message = "session disconnected";
  };
}

abbrev pub at : {W : Type 0} → W → Sys W Call
at w = record { world = w; trace = [] }

abbrev pub since : RancherSession → Time
since rs = get_or (pos 0) rs.status.connected_at

module _ {W : Type 0} (env : Env W) where
  -- A reconcile of the session, from this world on.
  abbrev pub reconciled : RancherSession → W → List Call
  reconciled rs w = (reconcile_session env rs (record { world = w; trace = [] })).1.trace

  abbrev pub session_after : RancherSession → W → RancherSession
  session_after rs w = kept rs (reconciled rs w)

  -- A session that is neither deleted nor suspended and has its finalizer.
  pub record IsLive (ttl : ℤ) (rs : RancherSession) : Type 0 where
    pub live : rs.deletion_timestamp ≡ none
    pub finalized : (env.meta.add_finalizer rancher_finalizer rs.finalizers).0 ≡ false
    pub active : rs.spec.suspend ≡ false
    pub timed : rs.spec.ttl_seconds ≡ ttl

  -- The session while it waits for the agent, once it is connected at the instant t, and at the
  -- end.
  abbrev pub waiting : String → RancherSession → Time → RancherSession
  waiting id rs t =
      set_rancher_condition env
        (record rs {
          status = record rs.status {
            phase = connecting;
            rancher_cluster_id = id;
            manifest_applied = true;
            connected_at = some t;
            expires_at = some (t +ℤ agent_ready_timeout);
          };
        })
        api_reachable condition_true "APIReachable" "Rancher API reachable"

  abbrev pub joined : RancherSession → Time → RancherSession
  joined rs t =
      set_rancher_condition env
        (record rs {
          status = record rs.status {
            phase = connected;
            connected_at = some t;
            expires_at = some (t +ℤ int64 (rs.spec.ttl_seconds *ℤ second));
          };
        })
        api_reachable condition_true "Connected" "Rancher session established"

  -- The session after two, three and four reconciles.
  abbrev pub second_session : RancherSession → W → W → RancherSession
  second_session rs w1 w2 = session_after (session_after rs w1) w2

  abbrev pub third_session : RancherSession → W → W → W → RancherSession
  third_session rs w1 w2 w3 = session_after (second_session rs w1 w2) w3

  abbrev pub last_session : RancherSession → W → W → W → W → RancherSession
  last_session rs w1 w2 w3 w4 = session_after (third_session rs w1 w2 w3) w4
