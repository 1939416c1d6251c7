-- ===== src/Session/LostCluster.antt =====
-- The Rancher-initiated disconnect, with the HTTP client.
use losant_device.Prelude.{String, ◌≡◌, false, none, some, [], ◌∷◌, arith}
use losant_device.Prelude.Int.{pos, ◌≤ℤ◌}
use losant_device.Go.{ok, is_empty, Time}
use losant_device.Exec.{Sys, Outcome, returned, next, finished, empty_result, requeue_in}
use losant_device.Http.{Reply, received}
use losant_device.Rancher.Replies.{
  IsFailure, get_cluster-gone, delete_cluster-gone, get_cluster-failure,
}
use losant_device.Rancher.Client.{
  HttpClient, read_reply, do_request, request_of, cluster_url, get_cluster, delete_cluster,
  forgive_not_found, rancher_client, not_found_error, status_error, is_404, not_found_text,
  is_not_found,
}
use losant_device.Rancher
use losant_device.Api.RancherSession.{RancherSession, connected, disconnected}
use losant_device.Session.Env.{Env, Call, client, cluster_read, rancher_error_requeue_wait}
use losant_device.Session
use losant_device.Session.Disconnect.{run_cleanup, finish_cleanup}
use losant_device.Session.Connect.{is_past}
use losant_device.Session.Status.{set_rancher_condition, set_api_unreachable}
use losant_device.Session.Reconcile.{handle_connected, check_cluster, after_lookup}
use losant_device.Session.Polling.{stored}
use losant_device.Session.Stranded.{object_writes}

module _ {W : Type 0} (env : Env W) (rancher : Rancher.Client.Env W) (c : HttpClient)
    (rs : RancherSession) where
  -- before its expiry, a session with a cluster is looked up in Rancher
  handle_connected-looks :
      (t : Time) (w : W)
      → rs.status.expires_at ≡ some t
      → (env.kube.now w).0 ≤ℤ t
      → is_empty rs.status.rancher_cluster_id ≡ false
      → let api = rancher_client rancher c in
        let found = api.get_cluster rs.status.rancher_cluster_id (env.kube.now w).1 in
        handle_connected env rs (client api) (record { world = w; trace = [] })
        ≡ after_lookup env rs (client api) found.0 (record {
          world = found.1;
          trace = cluster_read rs.status.rancher_cluster_id found.0 ∷ [];
        })
  unfolding handle_connected check_cluster is_past
  handle_connected-looks t w expires early registered = ground arith

  cleanup-ends :
      (s : Sys W Call)
      → rs.deletion_timestamp ≡ none
      → is_empty rs.status.rancher_cluster_id ≡ false
      → ((r : RancherSession) (w : W) → (env.kube.update_rancher_session_status r w).0 ≡ ok tt)
      → ((n : String) (w : W) → (env.kube.delete_namespace n w).0 ≡ ok tt)
      → ((w : W) → (delete_cluster rancher c rs.status.rancher_cluster_id w).0 ≡ ok tt)
      → let m = run_cleanup env rs (client (rancher_client rancher c)) s in
        (returned {Q = Outcome} m.0 ≡ next (finished empty_result))
        × ((stored rs m.1.trace).status.phase ≡ disconnected)
        × (object_writes m.1.trace ≡ object_writes s.trace)
  unfolding run_cleanup Session.Disconnect.delete_cluster finish_cleanup
  cleanup-ends s live registered writes removed deleted = (
    simp (writes, registered, deleted, removed, live),
    simp (writes, registered, deleted, removed, live),
    simp (writes, registered, deleted, removed, live),
  )

  -- A Connected session whose cluster is gone in Rancher, so that each request for it is answered
  -- with status 404, and which is not past its expiry, is Disconnected by one reconcile, which
  -- asks for no other, where the session is not being deleted and Kubernetes accepts the
  -- statuses and the removal of the namespace. The session object stays: the reconcile sends its
  -- statuses and makes no other write of it.
  pub handle_connected-lost :
      (t : Time) (body : String) (w : W)
      → rs.deletion_timestamp ≡ none
      → rs.status.expires_at ≡ some t
      → (env.kube.now w).0 ≤ℤ t
      → is_empty rs.status.rancher_cluster_id ≡ false
      → ((r : RancherSession) (v : W) → (env.kube.update_rancher_session_status r v).0 ≡ ok tt)
      → ((n : String) (v : W) → (env.kube.delete_namespace n v).0 ≡ ok tt)
      → ((method : String) (v : W)
          → (rancher.send c.ca
              (request_of c method (cluster_url c rs.status.rancher_cluster_id) none)
              v).0
            ≡ received (pos 404) (ok body))
      → let m =
          handle_connected env rs
            (client (rancher_client rancher c))
            (record { world = w; trace = [] }) in
        (returned {Q = Outcome} m.0 ≡ next (finished empty_result))
        × ((stored rs m.1.trace).status.phase ≡ disconnected)
        × (object_writes m.1.trace ≡ [])
  unfolding after_lookup
  handle_connected-lost t body w live expires early registered writes removed gone =
      let id = rs.status.rancher_cluster_id in
      rw
        (
          handle_connected-looks t w expires early registered,
          get_cluster-gone rancher c id body (env.kube.now w).1 (gone "GET" _),
        )
        (cleanup-ends _ live registered writes removed
          (λ v. delete_cluster-gone rancher c id body v (gone "DELETE" v)))

  -- Any other failure of that request leaves a Connected session Connected and asks for another
  -- reconcile in 30 seconds: a reply that is not a response, a response whose body cannot be read,
  -- or one of status 400 or more that is not 404. The session is not past its expiry and Kubernetes
  -- accepts the status.
  pub handle_connected-kept :
      (t : Time) (reply : Reply) (w : W)
      → rs.status.phase ≡ connected
      → rs.status.expires_at ≡ some t
      → (env.kube.now w).0 ≤ℤ t
      → is_empty rs.status.rancher_cluster_id ≡ false
      → ((r : RancherSession) (v : W) → (env.kube.update_rancher_session_status r v).0 ≡ ok tt)
      → IsFailure reply
      → (rancher.send c.ca
          (request_of c "GET" (cluster_url c rs.status.rancher_cluster_id) none)
          (env.kube.now w).1).0
        ≡ reply
      → let m =
          handle_connected env rs
            (client (rancher_client rancher c))
            (record { world = w; trace = [] }) in
        (returned {Q = Outcome} m.0 ≡ next (finished (requeue_in rancher_error_requeue_wait)))
        × ((stored rs m.1.trace).status.phase ≡ connected)
  unfolding after_lookup set_api_unreachable set_rancher_condition
  handle_connected-kept t reply w p expires early registered writes failure e =
      let (e', failed, other) =
        get_cluster-failure rancher c rs.status.rancher_cluster_id (env.kube.now w).1 reply failure
          e in
      rw (handle_connected-looks t w expires early registered, failed)
        (simp (writes, other), simp (writes, other, p))
