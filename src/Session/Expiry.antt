-- ===== src/Session/Expiry.antt =====
-- The time to live of a session.
use losant_device.Prelude.{◌∙◌, ap, ℕ, ◌*◌, ◌^◌, ◌≤◌, ◌<◌, ◌≡◌, false, arith, some}
use losant_device.Prelude.Int.{ -ℤ_parts, pos, ◌+ℤ◌, ◌*ℤ◌, ◌<ℤ◌, ◌≤ℤ◌, int64, int_laws}
use losant_device.Go.{ok, is_empty, Time}
use losant_device.Exec.{Sys, Outcome, returned, next, finished, empty_result, requeue_in}
use losant_device.Rancher.{RancherClient}
use losant_device.Api.RancherSession.{RancherSession, connected}
use losant_device.Session.Env.{Env, Call, client, second}
use losant_device.Session.Status.{set_rancher_condition}
use losant_device.Session.Connect.{become_connected}
use losant_device.Session.Reconcile.{
  requeue_at_expiry, after_lookup, check_cluster, handle_connected,
}
use losant_device.Session.Stranded.{last_sent}

-- The largest number of seconds whose nanoseconds fit an int64.
abbrev pub max_ttl : ℕ
max_ttl = 9223372036

pub ttl_fits : (n : ℕ) → n ≤ max_ttl → int64 (pos n *ℤ second) ≡ pos (n * 10 ^ 9)
unfolding int64 ◌*ℤ◌
ttl_fits n h = ground arith

pub ttl_wraps : (n : ℕ) → max_ttl < n → n ≤ 18446744073 → int64 (pos n *ℤ second) <ℤ pos 0
unfolding int64 ◌*ℤ◌
ttl_wraps n h k = ground arith

module _ {W : Type 0} (env : Env W) (rs : RancherSession) (s : Sys W Call) where
  -- the instant that the transition to Connected reads
  abbrev read_now : Time
  read_now = (env.kube.now s.world).0

  sent_phase : (last_sent rs (become_connected env rs s).1.trace).status.phase ≡ connected
  unfolding become_connected set_rancher_condition
  sent_phase = ground arith

  sent_expiry :
      (last_sent rs (become_connected env rs s).1.trace).status.expires_at
      ≡ some (read_now +ℤ int64 (rs.spec.ttl_seconds *ℤ second))
  unfolding become_connected set_rancher_condition
  sent_expiry = ground arith

  -- A session whose TTL of n seconds fits (n is at most 9223372036) becomes Connected with its
  -- expiry n seconds after the instant of the transition, and is requeued for just that time,
  -- when the status is written.
  pub become_connected-expiry :
      (n : ℕ)
      → rs.spec.ttl_seconds ≡ pos n
      → n ≤ max_ttl
      → ((r : RancherSession) (w : W) → (env.kube.update_rancher_session_status r w).0 ≡ ok tt)
      → let (flow, after) = become_connected env rs s in
        (returned {Q = Outcome} flow ≡ next (finished (requeue_in (pos (n * 10 ^ 9)))))
        × ((last_sent rs after.trace).status.phase ≡ connected)
        × ((last_sent rs after.trace).status.expires_at ≡ some (read_now +ℤ pos (n * 10 ^ 9)))
  unfolding become_connected set_rancher_condition
  become_connected-expiry n t fits writes = (
    simp (writes, t, ttl_fits n fits),
    sent_phase,
    sent_expiry ∙ ap (λ k. some (read_now +ℤ k)) (rw t (ttl_fits n fits)),
  )

  -- The product wraps: with a TTL from 9223372037 to 18446744073 seconds the expiry that is
  -- sent lies before the instant of the transition.
  pub become_connected-expired :
      (n : ℕ)
      → rs.spec.ttl_seconds ≡ pos n
      → max_ttl < n
      → n ≤ 18446744073
      → (t : Time) → (last_sent rs (become_connected env rs s).1.trace).status.expires_at ≡ some t
      → t <ℤ read_now
  become_connected-expired n e lo hi t h =
      let wrapped : int64 (rs.spec.ttl_seconds *ℤ second) <ℤ pos 0 = rw e (ttl_wraps n lo hi) in
      let at : t ≡ read_now +ℤ int64 (rs.spec.ttl_seconds *ℤ second) =
        ground (arith, sent_expiry) in
      rw at (omega (int_laws, wrapped))

  -- Take a session with a cluster that Rancher still has, which is not past its expiry t at
  -- the first reading of the clock, but is at or past t at the second reading, after the call
  -- of Rancher. It gets the empty result: no status is sent, so it stays Connected, and nothing
  -- is requeued for its cleanup.
  pub handle_connected-missed_expiry :
      (api : RancherClient W) (t : Time)
      → rs.status.expires_at ≡ some t
      → is_empty rs.status.rancher_cluster_id ≡ false
      → read_now ≤ℤ t
      → (let called = api.get_cluster rs.status.rancher_cluster_id (env.kube.now s.world).1 in
          (called.0 ≡ ok tt) × (t ≤ℤ (env.kube.now called.1).0))
      → ((handle_connected env rs (client api) s).0 ≡ next (finished empty_result))
        × (last_sent rs (handle_connected env rs (client api) s).1.trace ≡ last_sent rs s.trace)
  unfolding handle_connected check_cluster after_lookup requeue_at_expiry
  handle_connected-missed_expiry api t e i early late =
      let called = api.get_cluster rs.status.rancher_cluster_id (env.kube.now s.world).1 in
      ground (arith, -ℤ_parts t (env.kube.now called.1).0)
