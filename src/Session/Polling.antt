-- ===== src/Session/Polling.antt =====
-- The reconciles of a session that waits for the agent, one after the other.
pub mod Decided
use losant_device.Prelude.{
  ℕ, zero, suc, String, ◌&&◌, ◌+◌, ◌*◌, ◌^◌, ◌≤◌, ◌<◌, ltb, ◌≡◌, refl, ◌⊎◌, inl, inr, Bool, true,
  false, Bool-cases, none, some, List, [], ◌∷◌, if◌then◌else◌, arith,
}
use losant_device.Prelude.Int.{pos, ltb_ℤ}
use losant_device.Go.{GoError, Fallible, ok, err, is_not_found, Duration}
use losant_device.Exec.{Sys, Flow, Outcome, returned, next, finished, requeue_in, stop, panic}
use losant_device.Kube.{Deployment}
use losant_device.Rancher.{RancherClient}
use losant_device.Api.RancherSession.{
  RancherSession, RancherSessionPhase, connecting, connected, failed,
}
use losant_device.Session.Env.{
  Env, Call, status_updated, rancher_finalizer, agent_poll_interval, cattle_system_namespace,
  cattle_agent_deployment,
}
use losant_device.Session.Status.{set_rancher_condition, set_failed}
use losant_device.Session.Connect.{is_past, become_connected, poll_agent_ready}
use losant_device.Session.Reconcile.{dispatch, serve, reconcile_session}

-- The session as the API server has it after these calls.
abbrev pub stored : RancherSession → List Call → RancherSession
stored rs [] = rs
stored rs (status_updated r (ok _) ∷ calls) = r
stored rs (_ ∷ calls) = stored rs calls

abbrev pub is_connecting : RancherSessionPhase → Bool
is_connecting connecting = true
is_connecting _ = false

-- The wait for an agent is over.
abbrev pub is_decided : RancherSessionPhase → Bool
is_decided connected = true
is_decided failed = true
is_decided _ = false

-- What a deployment's lookup asks for.
abbrev pub agent_lookup : {W : Type 0} → Env W → W → Fallible Deployment × W
agent_lookup env =
    env.kube.get_deployment
      (record { name = cattle_agent_deployment; namespace = cattle_system_namespace })

module _ {W : Type 0} (env : Env W) (wait : Duration → W → W) where
  -- What follows a reconcile that left the session `rs`: the next one, after the time that it asked
  -- for, while the phase is Connecting.
  unfoldable pub follow :
      (RancherSession → W → RancherSession × W)
      → RancherSession
      → Flow Outcome Outcome
      → W
      → RancherSession × W
  follow rest rs (next (finished r)) w =
      if is_connecting rs.status.phase && ltb_ℤ (pos 0) r.requeue_after
      then rest rs (wait r.requeue_after w)
      else (rs, w)
  follow rest rs _ w = (rs, w)

  -- Up to n reconciles. `wait` is what the world does in the time between two.
  unfoldable pub polls : ℕ → RancherSession → W → RancherSession × W
  polls zero rs w = (rs, w)
  polls (suc n) rs w =
      let (flow, after) = reconcile_session env rs (record { world = w; trace = [] }) in
      follow (polls n) (stored rs after.trace) (returned flow) after.world

-- The clock goes on: `clock` is at most what is read, no read turns it back, and a wait lasts
-- as long as it was asked to.
pub record Ticks {W : Type 0} (env : Env W) (wait : Duration → W → W) (clock : W → ℕ) : Type 0 where
  pub now_reads : (w : W) → (env.kube.now w).0 ≡ pos (clock w)
  pub now_goes_on : (w : W) → clock w ≤ clock (env.kube.now w).1
  pub lookup_goes_on : (w : W) → clock w ≤ clock (agent_lookup env w).1
  pub wait_lasts : (d : ℕ) (w : W) → clock w + d ≤ clock (wait (pos d) w)

-- A session that waits for the agent, as Reconcile reads it.
pub record Waits {W : Type 0} (env : Env W) (rs : RancherSession) : Type 0 where
  pub phase : rs.status.phase ≡ connecting
  pub applied : rs.status.manifest_applied ≡ true
  pub live : rs.deletion_timestamp ≡ none
  pub finalized : (env.meta.add_finalizer rancher_finalizer rs.finalizers).0 ≡ false
  pub active : rs.spec.suspend ≡ false

-- Kubernetes accepts every status, and looks the agent's deployment up with no error but that it
-- is not there.
pub record Answers {W : Type 0} (env : Env W) : Type 0 where
  pub writes : (r : RancherSession) (w : W) → (env.kube.update_rancher_session_status r w).0 ≡ ok tt
  pub lookups : (w : W) (e : GoError) → (agent_lookup env w).0 ≡ err e → is_not_found e ≡ true
