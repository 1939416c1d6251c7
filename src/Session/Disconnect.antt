-- ===== src/Session/Disconnect.antt =====
-- handleDisconnect, runCleanup, deleteNamespace and removeFinalizer.
use losant_device.Prelude.{String, ◌⊕◌, Option, none, some, is_some, if◌then◌else◌}
use losant_device.Go.{GoError, Fallible, ok, err, wrap, is_empty, is_not_found}
use losant_device.Exec.{
  Exec, ◌>>=◌, ◌>>◌, call, read, value, pure, scope, Outcome, finished, failed, empty_result,
}
use losant_device.Kube.{Secret}
use losant_device.Api.RancherSession.{RancherSession, disconnecting, disconnected}
use losant_device.Session.Env.{
  Env, Call, Handler, Handle, nil_interface, nil_pointer, client, session_updated, cluster_deleted,
  namespace_deleted, rancher_finalizer, cattle_system_namespace,
}
use losant_device.Session.Status.{update_status_then, set_api_unreachable}
use losant_device.Session.Connect.{using}

-- err != nil && !IsNotFound(err)
abbrev hard_error : String → Fallible (Unit {0}) → Fallible (Unit {0})
hard_error name (ok u) = ok u
hard_error name (err e) =
    if is_not_found e then ok tt else err (wrap ("delete namespace " ⊕ name) e)

module _ {W : Type 0} (env : Env W) where
  -- deleteNamespace, whose error ends the caller's reconcile
  unfoldable pub delete_namespace : String → Exec W Call Outcome (Unit {0})
  delete_namespace name = do
    deleted ← call (namespace_deleted name) (env.kube.delete_namespace name)
    value (hard_error name deleted) (λ e. pure (failed e))

  -- removeFinalizer
  unfoldable pub remove_finalizer : RancherSession → Handler W
  remove_finalizer rs = do
    let rs = record rs { finalizers = env.meta.remove_finalizer rancher_finalizer rs.finalizers }
    written ← call (session_updated rs) (env.kube.update_rancher_session rs)
    value written (λ e. pure (failed e))
    pure (finished empty_result)

  -- the cluster record in Rancher, if the session has one
  unfoldable pub delete_cluster : RancherSession → Handle W → Exec W Call Outcome (Unit {0})
  unfolding set_api_unreachable
  delete_cluster rs rc =
      if is_empty rs.status.rancher_cluster_id
      then pure tt
      else using rc λ api. do
        deleted ←
            call (cluster_deleted rs.status.rancher_cluster_id)
              (api.delete_cluster rs.status.rancher_cluster_id)
        value deleted (λ e. set_api_unreachable env rs "DeleteClusterFailed" e.text)

  -- the end of runCleanup, once the cluster record is gone
  unfoldable pub finish_cleanup : RancherSession → Handler W
  unfolding update_status_then delete_namespace remove_finalizer
  finish_cleanup rs = do
    delete_namespace cattle_system_namespace
    let rs = record rs {
      status = record rs.status {
        phase = disconnected;
        last_transition_message = "session disconnected";
      };
    }
    update_status_then env rs (
        if is_some rs.deletion_timestamp then remove_finalizer rs else pure (finished empty_result))

  -- runCleanup
  unfoldable pub run_cleanup : RancherSession → Handle W → Handler W
  unfolding update_status_then
  run_cleanup rs rc =
      let rs = record rs { status = record rs.status { phase = disconnecting } } in
      update_status_then env rs (delete_cluster rs rc >> finish_cleanup rs)

  -- the client built from the credentials Secret, beside the error: rancher.NewHTTPClient
  -- returns a pointer, which the return statement converts to the interface also where it is nil
  unfoldable pub client_of : Fallible Secret → Handle W × Option GoError
  client_of (err e) = (nil_interface, some (wrap "read credentials secret" e))
  client_of (ok secret) = elim (env.new_http_client secret) [
    | ok c ↦ (client c, none)
    | err e ↦ (nil_pointer, some e)
  ]

  -- rancherClient
  unfoldable pub rancher_client :
      {R : Type 0} → RancherSession → Exec W Call R (Handle W × Option GoError)
  unfolding client_of
  rancher_client rs = elim env.rancher_client [
    | some c ↦ pure (client c, none)
    | none ↦ do
      found ← read (env.kube.get_secret rs.spec.credentials_secret_ref)
      pure (client_of found)
  ]

  -- what handleDisconnect makes of runCleanup's answer: the result is dropped
  abbrev forget_result : Outcome → Outcome
  forget_result (failed e) = failed e
  forget_result (finished r) = finished empty_result

  -- `rc != nil`
  unfoldable pub disconnect_with : RancherSession → Handle W → Handler W
  unfolding delete_namespace remove_finalizer
  disconnect_with rs nil_interface = do
    delete_namespace cattle_system_namespace
    remove_finalizer rs
  disconnect_with rs rc = do outcome ← scope (run_cleanup rs rc); pure (forget_result outcome)

  -- handleDisconnect
  unfoldable pub handle_disconnect : RancherSession → Handler W
  unfolding rancher_client
  handle_disconnect rs =
      if env.meta.contains_finalizer rancher_finalizer rs.finalizers
      then (do (rc, _) ← rancher_client rs; disconnect_with rs rc)
      else pure (finished empty_result)
