-- ===== src/Session/Polling/Decided.antt =====
-- Enough reconciles end the wait for the agent.
use losant_device.Prelude.{
  ℕ, zero, suc, String, ◌+◌, ◌*◌, ◌^◌, ◌≤◌, ◌<◌, ◌≡◌, refl, ◌⊎◌, inl, inr, true, false, some, [],
  arith,
}
use losant_device.Prelude.Int.{pos}
use losant_device.Go.{Duration}
use losant_device.Exec.{Sys, Flow, Outcome, returned, next, finished, requeue_in, stop, panic}
use losant_device.Rancher.{RancherClient}
use losant_device.Api.RancherSession.{
  RancherSession, RancherSessionPhase, connecting, connected, failed,
}
use losant_device.Session.Env.{Env, Call, agent_poll_interval}
use losant_device.Session.Status.{set_rancher_condition, set_failed}
use losant_device.Session.Connect.{is_past, become_connected, poll_agent_ready}
use losant_device.Session.Reconcile.{dispatch, serve, reconcile_session}
use losant_device.Session.Polling.{
  stored, is_connecting, is_decided, follow, polls, Ticks, Waits, Answers,
}

module _ {W : Type 0} (env : Env W) where
  reconcile-poll :
      (rs : RancherSession) (c : RancherClient W) (s : Sys W Call)
      → Waits env rs
      → env.rancher_client ≡ some c
      → reconcile_session env rs s ≡ poll_agent_ready env rs s
  unfolding reconcile_session serve dispatch
  reconcile-poll rs c s waits injected =
      ground (arith, waits.phase, waits.applied, waits.live, waits.finalized, waits.active)

  become_connected-decides :
      (rs start : RancherSession) (s : Sys W Call)
      → Answers env
      → (stored start (become_connected env rs s).1.trace).status.phase ≡ connected
  unfolding become_connected set_rancher_condition
  become_connected-decides rs start s answers = simp answers.writes

  set_failed-decides :
      (rs start : RancherSession) (reason message : String) (s : Sys W Call)
      → Answers env
      → (stored start (set_failed env rs reason message s).1.trace).status.phase ≡ failed
  unfolding set_failed set_rancher_condition
  set_failed-decides rs start reason message s answers = simp answers.writes

module _ {W : Type 0} (env : Env W) (wait : Duration → W → W) (clock : W → ℕ)
    (ticks : Ticks env wait clock) (answers : Answers env) where
  -- A poll decides, or it has read the clock before the deadline and waits.
  poll-decides :
      (rs : RancherSession) (t : ℕ) (w : W)
      → rs.status.expires_at ≡ some (pos t)
      → let m = poll_agent_ready env rs (record { world = w; trace = [] }) in
        (is_decided (stored rs m.1.trace).status.phase ≡ true)
        ⊎ ((returned {Q = Outcome} m.0 ≡ next (finished (requeue_in agent_poll_interval)))
            × (stored rs m.1.trace ≡ rs)
            × (clock w ≤ clock m.1.world)
            × (clock w ≤ t))
  unfolding poll_agent_ready is_past
  poll-decides rs t w deadline =
      let w1 = (env.kube.now w).1 in
      let read = ticks.now_reads w in
      let on = ticks.now_goes_on w in
      let looked = ticks.lookup_goes_on w1 in
      grind (
        arith,
        answers.lookups w1,
        become_connected-decides env rs rs,
        set_failed-decides env rs rs,
      )

decided-apart : (p : RancherSessionPhase) → is_decided p ≡ true → is_connecting p ≡ false
decided-apart p h = ground arith

module _ {W : Type 0} (env : Env W) (wait : Duration → W → W) where
  follow-decided :
      (rest : RancherSession → W → RancherSession × W) (rs : RancherSession)
      (flow : Flow Outcome Outcome) (w : W)
      → is_decided rs.status.phase ≡ true
      → (follow env wait rest rs flow w).0 ≡ rs
  unfolding follow
  follow-decided rest rs (next (finished r)) w h = rw (decided-apart rs.status.phase h) refl
  follow-decided rest rs (next (losant_device.Exec.failed e)) w h = refl
  follow-decided rest rs (stop o) w h = refl
  follow-decided rest rs panic w h = refl

  follow-waits :
      (rest : RancherSession → W → RancherSession × W) (rs before : RancherSession)
      (flow : Flow Outcome Outcome) (w : W)
      → flow ≡ next (finished (requeue_in agent_poll_interval))
      → before ≡ rs
      → rs.status.phase ≡ connecting
      → follow env wait rest before flow w ≡ rest rs (wait agent_poll_interval w)
  unfolding follow
  follow-waits rest rs before flow w requeued same p = rw (requeued, same, p) refl

module _ {W : Type 0} (env : Env W) (wait : Duration → W → W) (clock : W → ℕ)
    (ticks : Ticks env wait clock) (answers : Answers env) where
  -- One more reconcile decides, or the rest of them start at least 5 seconds later.
  polls-steps :
      (n : ℕ) (rs : RancherSession) (c : RancherClient W) (t : ℕ) (w : W)
      → env.rancher_client ≡ some c
      → Waits env rs
      → rs.status.expires_at ≡ some (pos t)
      → (is_decided (polls env wait (suc n) rs w).0.status.phase ≡ true)
        ⊎ ((w' : W) × (polls env wait (suc n) rs w ≡ polls env wait n rs w')
            × (clock w + 5 * 10 ^ 9 ≤ clock w')
            × (clock w ≤ t))
  unfolding polls
  polls-steps n rs c t w injected waits deadline =
      let m = poll_agent_ready env rs (record { world = w; trace = [] }) in
      rw (reconcile-poll env rs c (record { world = w; trace = [] }) waits injected)
        (elim (poll-decides env wait clock ticks answers rs t w deadline) [
          | inl decided ↦ inl (
              rw
                (follow-decided env wait (polls env wait n) (stored rs m.1.trace) (returned m.0)
                  m.1.world decided)
                decided)
          | inr (requeued, same, on, early) ↦
              let lasts = ticks.wait_lasts (5 * 10 ^ 9) m.1.world in
              inr (
                wait agent_poll_interval m.1.world,
                follow-waits env wait (polls env wait n) rs _ _ m.1.world requeued same waits.phase,
                omega arith,
                early,
              )
        ])

  -- Take a session that waits for the agent until the instant t, and reconcile it when its requests
  -- to be requeued fall due. If t is less than 5n seconds after the first reconcile, then the
  -- session leaves the phase Connecting within n + 1 reconciles: it is Connected or Failed. This is
  -- with an injected client, where Kubernetes accepts each status and its lookups of the agent's
  -- deployment fail only with NotFound.
  pub polls-decides :
      (n : ℕ) (rs : RancherSession) (c : RancherClient W) (t : ℕ) (w : W)
      → env.rancher_client ≡ some c
      → Waits env rs
      → rs.status.expires_at ≡ some (pos t)
      → t < clock w + n * (5 * 10 ^ 9)
      → is_decided (polls env wait (suc n) rs w).0.status.phase ≡ true
  polls-decides zero rs c t w injected waits deadline soon =
      elim (polls-steps zero rs c t w injected waits deadline) [
        | inl decided ↦ decided
        | inr (w', same, on, early) ↦ ground arith
      ]
  polls-decides (suc n) rs c t w injected waits deadline soon =
      elim (polls-steps (suc n) rs c t w injected waits deadline) [
        | inl decided ↦ decided
        | inr (w', same, on, early) ↦
            rw same (polls-decides n rs c t w' injected waits deadline (omega arith))
      ]
