-- ===== src/Sync/Workflows.antt =====
-- ensureWorkflowDeployments
pub mod Released
use losant_device.Prelude.{
  String, ◌⊕◌, Bool, true, false, Option, none, some, List, [], ◌∷◌, Assoc, lookup, insert, get_or,
  str_eq, if◌then◌else◌,
}
use losant_device.Go.{GoError, Fallible, ok, err, is_sentinel, workflow_not_found}
use losant_device.Exec.{Exec, ◌>>=◌, call, pure}
use losant_device.Api.LosantSync.{LosantSync, WorkflowDeployment}
use losant_device.Losant.{
  LosantClient, EdgeDeploymentStatus, Call, workflow_released, deployments_read,
}

-- The condition's reason and message, and the error.
pub record WorkflowResult : Type 0 where
  pub reason : String
  pub message : String
  pub error : Option GoError

-- byFlowID, where a later status of a flow replaces an earlier one
unfoldable pub by_flow_id :
    List EdgeDeploymentStatus → Assoc EdgeDeploymentStatus → Assoc EdgeDeploymentStatus
by_flow_id [] m = m
by_flow_id (d ∷ deployments) m = by_flow_id deployments (insert d.flow_id d m)

-- the zero value of EdgeDeploymentStatus, which the map gives for a missing flow
abbrev pub no_deployment : EdgeDeploymentStatus
no_deployment = record { flow_id = ""; current_version = ""; desired_version = "" }

abbrev pub current_of : Assoc EdgeDeploymentStatus → WorkflowDeployment → EdgeDeploymentStatus
current_of m wd = get_or no_deployment (lookup wd.flow_id m)

-- what a failed release returns
abbrev pub release_failure : WorkflowDeployment → GoError → WorkflowResult
release_failure wd e =
    if is_sentinel workflow_not_found e.wraps
    then record {
      reason = "WorkflowNotFound";
      message = "flowId " ⊕ (wd.flow_id ⊕ (" version " ⊕ (wd.version ⊕ " not found in Losant")));
      error = some e;
    }
    else record { reason = "ReleaseFailed"; message = e.text; error = some e }

abbrev pub confirmation : Bool → WorkflowResult
confirmation true = record {
  reason = "Deployed";
  message = "all workflow versions confirmed deployed";
  error = none;
}
confirmation false = record {
  reason = "DeploymentPending";
  message = "release queued, awaiting GEA confirmation";
  error = none;
}

module _ {W F : Type 0} (lc : LosantClient W) (ls : LosantSync) where
  -- the loop over the workflows of the spec
  unfoldable pub release_workflows :
      Assoc EdgeDeploymentStatus
      → List WorkflowDeployment
      → Bool
      → Exec W (Call F) WorkflowResult WorkflowResult
  release_workflows m [] all_confirmed s = pure (confirmation all_confirmed) s
  release_workflows m (wd ∷ rest) all_confirmed s =
      let current = current_of m wd in
      elim (str_eq current.desired_version wd.version) [
        | false ↦
            (do
              released ← call (workflow_released wd.flow_id wd.version) (
                  lc.release_workflow ls.spec.application_id ls.status.cluster_device_id wd.flow_id
                    wd.version)
              elim released [
                | ok _ ↦ release_workflows m rest false
                | err e ↦ pure (release_failure wd e)
              ])
              s
        | true ↦
            release_workflows m rest
              (if str_eq current.current_version wd.version then all_confirmed else false) s
      ]

  -- what the deployments that Losant reports lead to
  unfoldable pub after_deployments :
      Fallible (List EdgeDeploymentStatus) → Exec W (Call F) WorkflowResult WorkflowResult
  unfolding by_flow_id
  after_deployments (err e) =
      pure (record { reason = "ReleaseFailed"; message = e.text; error = some e })
  after_deployments (ok deployments) =
      release_workflows (by_flow_id deployments []) ls.spec.workflow_deployments true

  -- ensureWorkflowDeployments
  unfoldable pub ensure_workflow_deployments : Exec W (Call F) WorkflowResult WorkflowResult
  ensure_workflow_deployments = elim ls.spec.workflow_deployments [
    | [] ↦ pure (record { reason = ""; message = ""; error = none })
    | _ ∷ _ ↦ do
      read_deployments ←
          call deployments_read
            (lc.get_edge_deployments ls.spec.application_id ls.status.cluster_device_id)
      after_deployments read_deployments
  ]
