-- ===== src/Session/Connect.antt =====
-- handleConnect and pollAgentReady.
use losant_device.Prelude.{String, ◌==◌, Bool, true, false, Option, none, some, if◌then◌else◌}
use losant_device.Prelude.Int.{ℤ, pos, negsuc, ◌+ℤ◌, ◌*ℤ◌, int64}
use losant_device.Go.{Time, after, is_empty, is_not_found}
use losant_device.Exec.{
  Exec, ◌>>=◌, ◌>>◌, call, read, value, pure, scope, crash, Outcome, finished, failed, requeue_in,
}
use losant_device.Api.{condition_true}
use losant_device.Api.RancherSession.{RancherSession, connecting, connected}
use losant_device.Rancher.{RancherClient}
use losant_device.Session.Env.{
  Env, Call, Handler, Handle, nil_interface, nil_pointer, client, cluster_sought, cluster_created,
  token_read, agent_poll_interval, agent_ready_timeout, cattle_system_namespace,
  cattle_agent_deployment, second, api_reachable,
}
use losant_device.Session.Status.{
  set_rancher_condition, update_status_then, set_failed, set_api_unreachable,
}
use losant_device.Session.Manifests.{apply_manifest}

-- n == 0
abbrev is_zero : ℤ → Bool
is_zero (pos n) = n == 0
is_zero (negsuc n) = false

-- A method call on the interface value: through a nil pointer the code panics.
abbrev pub using :
    {W R A : Type 0} → Handle W → (RancherClient W → Exec W Call R A) → Exec W Call R A
using nil_interface f = crash
using nil_pointer f = crash
using (client c) f = f c

module _ {W : Type 0} (env : Env W) where
  -- the display name, by default the session's
  unfoldable pub display_name : RancherSession → String
  display_name rs =
      if is_empty rs.spec.cluster_display_name then rs.name else rs.spec.cluster_display_name

  -- the cluster of that name, created if Rancher has none
  unfoldable pub ensure_cluster : RancherSession → RancherClient W → Exec W Call Outcome String
  unfolding set_api_unreachable
  ensure_cluster rs rc = do
    sought ← call (cluster_sought (display_name rs)) (rc.find_cluster (display_name rs))
    (cluster_id, found) ← value sought (λ e. set_api_unreachable env rs "FindClusterFailed" e.text)
    if found then pure cluster_id else do
      created ← call (cluster_created (display_name rs)) (rc.create_cluster (display_name rs))
      value created (λ e. set_api_unreachable env rs "CreateClusterFailed" e.text)

  -- the rest of handleConnect, once the cluster's ID is known
  unfoldable pub register : RancherSession → RancherClient W → String → Handler W
  unfolding update_status_then set_api_unreachable set_failed
  register rs api cluster_id = do
    let rs = record rs { status = record rs.status { rancher_cluster_id = cluster_id } }
    token ← call (token_read cluster_id) (api.get_registration_token cluster_id)
    manifest_url ← value token (λ e. set_api_unreachable env rs "GetTokenFailed" e.text)
    applied ← scope (apply_manifest env rs manifest_url)
    value applied (λ e. set_failed env rs "ManifestApplyFailed" e.text)
    now ← read env.kube.now
    let rs = record rs {
      status = record rs.status {
        manifest_applied = true;
        connected_at = some now;
        expires_at = some (now +ℤ agent_ready_timeout);
      };
    }
    update_status_then env
        (set_rancher_condition env rs api_reachable condition_true "APIReachable"
          "Rancher API reachable")
        (pure (finished (requeue_in agent_poll_interval)))

  -- handleConnect
  unfoldable pub handle_connect : RancherSession → Handle W → Handler W
  unfolding update_status_then
  handle_connect rs rc =
      let rs = record rs { status = record rs.status { phase = connecting } } in
      update_status_then env rs
        (using rc λ api. do cluster_id ← ensure_cluster rs api; register rs api cluster_id)

  -- t != nil && time.Now().After(t.Time)
  unfoldable pub is_past : {R : Type 0} → Option Time → Exec W Call R Bool
  is_past none = pure false
  is_past (some t) = do now ← read env.kube.now; pure (after now t)

  -- the end of pollAgentReady, once the agent has an available replica
  unfoldable pub become_connected : RancherSession → Handler W
  unfolding update_status_then set_rancher_condition
  become_connected rs = do
    now ← read env.kube.now
    let ttl = int64 (rs.spec.ttl_seconds *ℤ second)
    let rs = record rs {
      status = record rs.status {
        phase = connected;
        connected_at = some now;
        expires_at = some (now +ℤ ttl);
      };
    }
    update_status_then env
        (set_rancher_condition env rs api_reachable condition_true "Connected"
          "Rancher session established")
        (pure (finished (requeue_in ttl)))

  -- pollAgentReady
  unfoldable pub poll_agent_ready : RancherSession → Handler W
  unfolding is_past set_failed become_connected
  poll_agent_ready rs = do
    timed_out ← is_past rs.status.expires_at
    if timed_out
        then set_failed env rs "AgentReadyTimeout"
            "cattle-cluster-agent did not become ready within 2m0s"
        else do
          found ← read (
              env.kube.get_deployment
                (record { name = cattle_agent_deployment; namespace = cattle_system_namespace }))
          dep ← value found λ e.
              if is_not_found e
              then pure (finished (requeue_in agent_poll_interval))
              else pure (failed e)
          if is_zero dep.available_replicas
              then pure (finished (requeue_in agent_poll_interval))
              else become_connected rs
