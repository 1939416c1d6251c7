-- ===== src/Session/Stranded.antt =====
-- Disconnects that the controller does not finish.
use losant_device.Prelude.{◌≡◌, refl, is_some, true, false, List, [], ◌∷◌, arith, none, some}
use losant_device.Go.{GoError, ok, err, is_empty}
use losant_device.Exec.{Sys, Outcome, returned, next, panic, finished, empty_result, requeue_in}
use losant_device.Kube.{Secret}
use losant_device.Rancher.{RancherClient}
use losant_device.Api.RancherSession.{RancherSession, disconnecting}
use losant_device.Session.Env.{
  Env, Call, client, session_updated, status_updated, rancher_finalizer, rancher_error_requeue_wait,
  api_reachable,
}
use losant_device.Api.{condition_false}
use losant_device.Session.Status.{set_rancher_condition, set_api_unreachable}
use losant_device.Session.Disconnect.{
  delete_cluster, run_cleanup, rancher_client, disconnect_with, handle_disconnect,
}
use losant_device.Session.Reconcile.{dispatch, serve, reconcile_session}
use losant_device.Session.Cleanup.{marked}

-- The session whose status was sent last, or the one at the start.
abbrev pub last_sent : RancherSession → List Call → RancherSession
last_sent rs [] = rs
last_sent rs (status_updated r _ ∷ calls) = r
last_sent rs (_ ∷ calls) = last_sent rs calls

-- The writes of the session object itself, as against its status.
abbrev pub object_writes : List Call → List Call
object_writes [] = []
object_writes (session_updated r u ∷ calls) = session_updated r u ∷ object_writes calls
object_writes (_ ∷ calls) = object_writes calls

module _ {W : Type 0} (env : Env W) where
  idle_phase :
      (rs : RancherSession) (c : RancherClient W) (s : Sys W Call)
      → rs.status.phase ≡ disconnecting
      → rs.deletion_timestamp ≡ none
      → (env.meta.add_finalizer rancher_finalizer rs.finalizers).0 ≡ false
      → rs.spec.suspend ≡ false
      → env.rancher_client ≡ some c
      → reconcile_session env rs s ≡ (next (finished empty_result), s)
  unfolding reconcile_session serve dispatch
  idle_phase rs c s p d f u i = ground arith

module _ {W : Type 0} (env : Env W) (rs : RancherSession) where
  -- The session as setAPIUnreachable sends it when DeleteCluster has failed.
  abbrev undeleted : GoError → RancherSession
  undeleted e =
      let r =
        set_rancher_condition env (marked rs) api_reachable condition_false "DeleteClusterFailed"
          e.text in
      record r { status = record r.status { last_transition_message = e.text } }

  failed_delete :
      (api : RancherClient W) (s : Sys W Call) (e : GoError)
      → is_empty rs.status.rancher_cluster_id ≡ false
      → ((r : RancherSession) (w : W) → (env.kube.update_rancher_session_status r w).0 ≡ ok tt)
      → ((w : W) → (api.delete_cluster rs.status.rancher_cluster_id w).0 ≡ err e)
      → (returned {Q = Outcome} (run_cleanup env rs (client api) s).0
          ≡ next (finished (requeue_in rancher_error_requeue_wait)))
        × (last_sent rs (run_cleanup env rs (client api) s).1.trace ≡ undeleted e)
  unfolding run_cleanup delete_cluster set_api_unreachable
  failed_delete api s e registered writes fails =
      (simp (writes, registered, fails), simp (writes, registered, fails))

  -- Take a session that has a cluster, is not being deleted, has its finalizer and is not
  -- suspended, and let every status write succeed and DeleteCluster fail. Then the cleanup (at
  -- the end of the TTL, say) asks for a retry in 30 seconds and leaves a session in phase
  -- Disconnecting, and every later reconcile of that session, with the injected client, returns
  -- the empty result and calls nothing: the cluster stays registered.
  pub cleanup_stranded :
      (api : RancherClient W) (s : Sys W Call) (e : GoError)
      → is_empty rs.status.rancher_cluster_id ≡ false
      → rs.deletion_timestamp ≡ none
      → (env.meta.add_finalizer rancher_finalizer rs.finalizers).0 ≡ false
      → rs.spec.suspend ≡ false
      → env.rancher_client ≡ some api
      → ((r : RancherSession) (w : W) → (env.kube.update_rancher_session_status r w).0 ≡ ok tt)
      → ((w : W) → (api.delete_cluster rs.status.rancher_cluster_id w).0 ≡ err e)
      → let (flow, after) = run_cleanup env rs (client api) s in
        (returned {Q = Outcome} flow ≡ next (finished (requeue_in rancher_error_requeue_wait)))
        × ((last_sent rs after.trace).status.phase ≡ disconnecting)
        × ((later : Sys W Call)
            → reconcile_session env (last_sent rs after.trace) later
              ≡ (next (finished empty_result), later))
  unfolding set_rancher_condition
  cleanup_stranded api s e registered live finalized active injected writes fails =
      let (answer, sent) = failed_delete api s e registered writes fails in
      (
        answer,
        rw sent refl,
        λ later.
            rw sent (idle_phase env (undeleted e) api later refl live finalized active injected),
      )

  deletion-disconnects :
      (api : RancherClient W) (s : Sys W Call)
      → is_some rs.deletion_timestamp ≡ true
      → env.meta.contains_finalizer rancher_finalizer rs.finalizers ≡ true
      → env.rancher_client ≡ some api
      → reconcile_session env rs s ≡ disconnect_with env rs (client api) s
  unfolding reconcile_session handle_disconnect rancher_client
  deletion-disconnects api s deleted finalized injected = rw (deleted, finalized) (ground arith)

  -- A reconcile of a session that is being deleted, has its finalizer and a cluster, where every
  -- status write succeeds and DeleteCluster fails, answers with the empty result, although the
  -- cleanup that it runs asks for a retry in 30 seconds. The session is left Disconnecting and with
  -- its finalizers: no write of the object was made.
  pub deletion_stranded :
      (api : RancherClient W) (s : Sys W Call) (e : GoError)
      → is_some rs.deletion_timestamp ≡ true
      → env.meta.contains_finalizer rancher_finalizer rs.finalizers ≡ true
      → env.rancher_client ≡ some api
      → is_empty rs.status.rancher_cluster_id ≡ false
      → ((r : RancherSession) (w : W) → (env.kube.update_rancher_session_status r w).0 ≡ ok tt)
      → ((w : W) → (api.delete_cluster rs.status.rancher_cluster_id w).0 ≡ err e)
      → let (flow, after) = reconcile_session env rs s in
        let left = last_sent rs after.trace in
        (flow ≡ next (finished empty_result))
        × (returned {Q = Outcome} (run_cleanup env rs (client api) s).0
            ≡ next (finished (requeue_in rancher_error_requeue_wait)))
        × (left.status.phase ≡ disconnecting)
        × (left.finalizers ≡ rs.finalizers)
        × (object_writes after.trace ≡ object_writes s.trace)
  unfolding disconnect_with run_cleanup delete_cluster set_api_unreachable set_rancher_condition
  deletion_stranded api s e deleted finalized injected registered writes fails =
      let (answer, sent) = failed_delete api s e registered writes fails in
      rw (deletion-disconnects api s deleted finalized injected) (
        simp (writes, registered, fails),
        answer,
        simp (writes, registered, fails),
        simp (writes, registered, fails),
        simp (writes, registered, fails),
      )

  -- On deletion of a session that has a cluster, when the credentials Secret is there but no
  -- client can be built from it, and the first status write succeeds, the reconcile panics.
  pub disconnect_panics :
      (s : Sys W Call) (secret : Secret) (e : GoError)
      → env.meta.contains_finalizer rancher_finalizer rs.finalizers ≡ true
      → env.rancher_client ≡ none
      → (env.kube.get_secret rs.spec.credentials_secret_ref s.world).0 ≡ ok secret
      → env.new_http_client secret ≡ err e
      → is_empty rs.status.rancher_cluster_id ≡ false
      → ((r : RancherSession) (w : W) → (env.kube.update_rancher_session_status r w).0 ≡ ok tt)
      → (handle_disconnect env rs s).0 ≡ panic
  unfolding handle_disconnect rancher_client disconnect_with run_cleanup delete_cluster
  disconnect_panics s secret e f i g n registered writes =
      ground
        (arith, writes (marked rs) (env.kube.get_secret rs.spec.credentials_secret_ref s.world).1)
