-- ===== src/Session/Reconcile.antt =====
-- handleConnected and Reconcile.
use losant_device.Prelude.{Option, none, some, is_some, if◌then◌else◌}
use losant_device.Prelude.Int.{pos, ◌-ℤ◌, ltb_ℤ}
use losant_device.Go.{
  GoError, Fallible, ok, err, is_empty, is_not_found, is_sentinel, rancher_not_found,
}
use losant_device.Exec.{
  ◌>>=◌, ◌>>◌, call, read, value, pure, finished, failed, empty_result, requeue_now, requeue_in,
}
use losant_device.Api.{SecretRef}
use losant_device.Api.RancherSession.{
  RancherSession, RancherSessionPhase, unset, connecting, connected,
}
use losant_device.Session.Env.{
  Env, Handler, Handle, session_updated, cluster_read, rancher_finalizer,
}
use losant_device.Session.Status.{set_failed, set_api_unreachable}
use losant_device.Session.Connect.{using, is_past, handle_connect, poll_agent_ready}
use losant_device.Session.Disconnect.{run_cleanup, rancher_client, handle_disconnect}

module _ {W : Type 0} (env : Env W) where
  -- requeue at the remaining TTL
  unfoldable pub requeue_at_expiry : RancherSession → Handler W
  requeue_at_expiry rs = elim rs.status.expires_at [
    | none ↦ pure (finished empty_result)
    | some t ↦ do
      now ← read env.kube.now
      pure (finished (if ltb_ℤ (pos 0) (t -ℤ now) then requeue_in (t -ℤ now) else empty_result))
  ]

  -- what the cluster's lookup in Rancher leads to
  unfoldable pub after_lookup : RancherSession → Handle W → Fallible (Unit {0}) → Handler W
  unfolding requeue_at_expiry set_api_unreachable
  after_lookup rs rc (ok _) = requeue_at_expiry rs
  after_lookup rs rc (err e) =
      if is_sentinel rancher_not_found e.wraps
      then run_cleanup env rs rc
      else set_api_unreachable env rs "GetClusterFailed" e.text

  -- handleConnected before the session's expiry: the Rancher-initiated disconnect
  unfoldable pub check_cluster : RancherSession → Handle W → Handler W
  unfolding requeue_at_expiry
  check_cluster rs rc =
      if is_empty rs.status.rancher_cluster_id
      then requeue_at_expiry rs
      else using rc λ api. do
        found ←
            call (cluster_read rs.status.rancher_cluster_id)
              (api.get_cluster rs.status.rancher_cluster_id)
        after_lookup rs rc found

  -- handleConnected
  unfoldable pub handle_connected : RancherSession → Handle W → Handler W
  unfolding is_past
  handle_connected rs rc = do
    expired ← is_past env rs.status.expires_at
    if expired then run_cleanup env rs rc else check_cluster rs rc

  -- the `switch` of Reconcile; the last clause is `Failed`, `Disconnected` and the default
  unfoldable pub dispatch : RancherSessionPhase → RancherSession → Handle W → Handler W
  dispatch unset rs rc = handle_connect env rs rc
  dispatch connecting rs rc =
      if rs.status.manifest_applied then poll_agent_ready env rs else handle_connect env rs rc
  dispatch connected rs rc = handle_connected rs rc
  dispatch _ rs rc = pure (finished empty_result)

  -- Reconcile, once the client is built
  unfoldable pub serve : RancherSession → Handle W × Option GoError → Handler W
  unfolding set_failed
  serve rs (rc, some e) = set_failed env rs "InvalidSecret" e.text
  serve rs (rc, none) = dispatch rs.status.phase rs rc

  -- Reconcile, once the session is read
  unfoldable pub reconcile_session : RancherSession → Handler W
  unfolding rancher_client
  reconcile_session rs =
      if is_some rs.deletion_timestamp
      then handle_disconnect env rs
      else if (env.meta.add_finalizer rancher_finalizer rs.finalizers).0
      then (do
        let rs = record rs {
          finalizers = (env.meta.add_finalizer rancher_finalizer rs.finalizers).1;
        }
        written ← call (session_updated rs) (env.kube.update_rancher_session rs)
        value written (λ e. pure (failed e))
        pure (finished requeue_now))
      else if rs.spec.suspend
      then pure (finished empty_result)
      else (do built ← rancher_client env rs; serve rs built)

  unfoldable pub reconcile : SecretRef → Handler W
  reconcile req = do
    found ← read (env.kube.get_rancher_session req)
    rs ← value found λ e. if is_not_found e then pure (finished empty_result) else pure (failed e)
    reconcile_session rs
