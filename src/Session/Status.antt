-- ===== src/Session/Status.antt =====
-- The transitions that end a reconcile with an error in the status.
use losant_device.Prelude.{String}
use losant_device.Exec.{◌>>=◌, ◌>>◌, call, value, pure, finished, failed, empty_result, requeue_in}
use losant_device.Api.{ConditionStatus, condition_false}
use losant_device.Api.RancherSession.{RancherSession}
use losant_device.Api.RancherSession
use losant_device.Session.Env.{
  Env, Handler, status_updated, api_reachable, rancher_error_requeue_wait,
}

module _ {W : Type 0} (env : Env W) where
  -- setRancherCondition
  unfoldable pub set_rancher_condition :
      RancherSession → String → ConditionStatus → String → String → RancherSession
  set_rancher_condition rs type_name status reason message = record rs {
    status = record rs.status {
      conditions =
          env.meta.set_status_condition
            (record {
              type_name = type_name;
              status = status;
              observed_generation = rs.generation;
              reason = reason;
              message = message;
            })
            rs.status.conditions;
    };
  }

  -- r.Status().Update(ctx, rs), whose error ends the reconcile
  unfoldable pub update_status_then : RancherSession → Handler W → Handler W
  update_status_then rs rest = do
    written ← call (status_updated rs) (env.kube.update_rancher_session_status rs)
    value written (λ e. pure (failed e))
    rest

  -- setFailed
  unfoldable pub set_failed : RancherSession → String → String → Handler W
  unfolding set_rancher_condition update_status_then
  set_failed rs reason message =
      let rs' = record rs {
        status = record rs.status {
          phase = RancherSession.failed;
          last_transition_message = message;
        };
      } in
      update_status_then (set_rancher_condition rs' api_reachable condition_false reason message)
        (pure (finished empty_result))

  -- setAPIUnreachable
  unfoldable pub set_api_unreachable : RancherSession → String → String → Handler W
  unfolding set_rancher_condition update_status_then
  set_api_unreachable rs reason message =
      let rs' = set_rancher_condition rs api_reachable condition_false reason message in
      update_status_then
        (record rs' { status = record rs'.status { last_transition_message = message } })
        (pure (finished (requeue_in rancher_error_requeue_wait)))
