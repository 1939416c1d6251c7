-- ===== src/Sync/Workflows/Released.antt =====
-- Which workflows are released, and what the result says of them.
use losant_device.Prelude.{
  String, ◌≡◌, Bool, true, ◌&&◌, ◌⊎◌, List, [], ◌∷◌, ◌++◌, Assoc, str_eq, if◌then◌else◌,
}
use losant_device.Go.{GoError, err}
use losant_device.Exec.{Flow, next}
use losant_device.Api.LosantSync.{LosantSync, WorkflowDeployment}
use losant_device.Losant.{EdgeDeploymentStatus, Call, workflow_released}
use losant_device.Sync.Workflows.{WorkflowResult, current_of, release_failure, confirmation}

-- The releases of a trace, the oldest first.
abbrev pub releases : {F : Type 0} → List (Call F) → List (String × String)
releases [] = []
releases (workflow_released flow version _ ∷ calls) = releases calls ++ ((flow, version) ∷ [])
releases (_ ∷ calls) = releases calls

-- The workflows whose desired version differs from the spec's, in the spec's order.
abbrev pub mismatched :
    Assoc EdgeDeploymentStatus → List WorkflowDeployment → List (String × String)
mismatched m [] = []
mismatched m (wd ∷ rest) =
    if str_eq (current_of m wd).desired_version wd.version
    then mismatched m rest
    else (wd.flow_id, wd.version) ∷ mismatched m rest

-- Each workflow's desired and current versions are the spec's.
abbrev pub all_current : Assoc EdgeDeploymentStatus → List WorkflowDeployment → Bool
all_current m [] = true
all_current m (wd ∷ rest) =
    str_eq (current_of m wd).desired_version wd.version
    && str_eq (current_of m wd).current_version wd.version
    && all_current m rest

-- What a run gives: every mismatched workflow released after those before, and a confirmation
-- that says whether all were current; or the failure of the last release.
abbrev pub Releases :
    {F : Type 0}
    → Assoc EdgeDeploymentStatus
    → List WorkflowDeployment
    → Bool
    → List (String × String)
    → Flow WorkflowResult WorkflowResult
    → List (Call F)
    → Type 0
Releases m wds confirmed before flow calls =
    ((flow ≡ next (confirmation (confirmed && all_current m wds)))
      × (releases calls ≡ before ++ mismatched m wds))
    ⊎ ((wd : WorkflowDeployment) × (e : GoError) × (earlier : List _) × (flow
          ≡ next (release_failure wd e))
        × (calls ≡ workflow_released wd.flow_id wd.version (err e) ∷ earlier))
