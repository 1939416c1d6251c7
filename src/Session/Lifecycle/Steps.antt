-- ===== src/Session/Lifecycle/Steps.antt =====
-- The reconciles of a session's life, one by one.
use mathlib.Core.Path.{subst}
use losant_device.Prelude.{
  ℕ, suc, String, ◌==◌, ◌≡◌, refl, sym, ap, ◌∙◌, true, false, Option, none, some, List, [], ◌∷◌,
  if◌then◌else◌, arith,
}
use losant_device.Prelude.Int.{ℤ, ◌≤ℤ◌, ◌<ℤ◌}
use losant_device.Go.{Fallible, ok, err, Time}
use losant_device.Exec.{Sys, Flow, Outcome, next}
use losant_device.Kube.{Manifest}
use losant_device.Rancher.{RancherClient}
use losant_device.Api.RancherSession.{
  RancherSession, RancherSessionPhase, unset, connecting, connected,
}
use losant_device.Session.Env.{Env, Call, client, rancher_finalizer}
use losant_device.Session.Status.{set_rancher_condition}
use losant_device.Session.Manifests.{apply_documents, apply_manifest, manifest_body}
use losant_device.Session.Manifests.Keeps.{after_apply}
use losant_device.Session.Manifests.Order.{all_decoded}
use losant_device.Session.Connect.{
  ensure_cluster, register, handle_connect, is_past, poll_agent_ready, become_connected,
}
use losant_device.Session.Disconnect.{run_cleanup, delete_cluster, finish_cleanup}
use losant_device.Session.Reconcile.{dispatch, serve, handle_connected, reconcile_session}
use losant_device.Session.Lifecycle.{
  kept, deleted_cluster, Cooperates, reconciled, session_after, IsLive, waiting, joined, ended, at,
  since,
}

some_replica : (n : ℕ) → (suc n == 0) ≡ false
some_replica n = ground arith

module _ {W : Type 0} (env : Env W) (api : RancherClient W) (id : String)
    (c : Cooperates env api id) where
  documents_applied :
      (docs : List (Fallible Manifest)) (s : Sys W Call)
      → all_decoded docs ≡ true
      → (apply_documents env docs s).0 ≡ next (ok tt)
  unfolding apply_documents
  documents_applied [] s h = refl
  documents_applied (err e ∷ docs) s h = absurd (cc)
  documents_applied (ok obj ∷ docs) s h = ground (
    arith,
    c.applied obj s.world,
    documents_applied docs s h,
    documents_applied docs (after_apply env obj s) h,
  )

  manifest_applied :
      (rs : RancherSession) (s : Sys W Call) → (apply_manifest env rs c.url s).0 ≡ next (ok tt)
  unfolding apply_manifest manifest_body
  manifest_applied rs s = simp (c.credentials, c.fetched, documents_applied, c.decoded)

  pub begins :
      (rs : RancherSession) (w : W)
      → rs.deletion_timestamp ≡ none
      → rs.finalizers ≡ []
      → session_after env rs w
        ≡ record rs { finalizers = (env.meta.add_finalizer rancher_finalizer rs.finalizers).1 }
  unfolding reconcile_session
  begins rs w live bare = ground (
    arith,
    c.added,
    c.session_written
        (record rs { finalizers = (env.meta.add_finalizer rancher_finalizer rs.finalizers).1 }) w,
  )

  served :
      (ttl : ℤ) (rs : RancherSession) (p : RancherSessionPhase) (s : Sys W Call)
      → IsLive env ttl rs
      → rs.status.phase ≡ p
      → reconcile_session env rs s ≡ dispatch env p rs (client api) s
  unfolding reconcile_session serve
  served ttl rs p s h e = ground (arith, h.live, h.finalized, h.active, c.injected)

  not_past :
      (o : Option Time) (t : Time) (s : Sys W Call)
      → o ≡ some t
      → (env.kube.now s.world).0 ≤ℤ t
      → is_past env {R = Outcome} o s ≡ (next false, record s { world = (env.kube.now s.world).1 })
  unfolding is_past
  not_past o t s e early = rw e (ground arith)

  past :
      (o : Option Time) (t : Time) (s : Sys W Call)
      → o ≡ some t
      → t <ℤ (env.kube.now s.world).0
      → is_past env {R = Outcome} o s ≡ (next true, record s { world = (env.kube.now s.world).1 })
  unfolding is_past
  past o t s e late = rw e (ground arith)

  handle_connect-waiting :
      (rs : RancherSession) (w : W)
      → let rs' = kept rs (handle_connect env rs (client api) (at w)).1.trace in
        rs' ≡ waiting env id rs (since rs')
  unfolding handle_connect ensure_cluster register set_rancher_condition
  handle_connect-waiting rs w =
      simp (c.status_written, c.sought, c.created, c.token, manifest_applied)

  poll_agent_ready-joined :
      (rs : RancherSession) (t : Time) (w : W)
      → rs.status.expires_at ≡ some t
      → (env.kube.now w).0 ≤ℤ t
      → let rs' = kept rs (poll_agent_ready env rs (at w)).1.trace in
        rs' ≡ joined env rs (since rs')
  unfolding poll_agent_ready become_connected set_rancher_condition
  poll_agent_ready-joined rs t w e early =
      rw (not_past _ t (at w) e early)
        (simp (c.looked_up, c.available, some_replica, c.status_written))

  handle_connected-ended :
      (rs : RancherSession) (t : Time) (w : W)
      → rs.deletion_timestamp ≡ none
      → rs.status.rancher_cluster_id ≡ id
      → rs.status.expires_at ≡ some t
      → t <ℤ (env.kube.now w).0
      → let calls = (handle_connected env rs (client api) (at w)).1.trace in
        (kept rs calls ≡ ended rs) × (deleted_cluster calls ≡ some id)
  unfolding handle_connected run_cleanup delete_cluster finish_cleanup
  handle_connected-ended rs t w live cluster e late = (
    rw (past _ t (at w) e late)
        (simp (c.status_written, cluster, c.named, c.deleted, c.removed, live)),
    rw (past _ t (at w) e late)
        (simp (c.status_written, cluster, c.named, c.deleted, c.removed, live)),
  )

  pub from_unset :
      (ttl : ℤ) (rs : RancherSession) (w : W)
      → IsLive env ttl rs
      → rs.status.phase ≡ unset
      → session_after env rs w ≡ waiting env id rs (since (session_after env rs w))
  unfolding dispatch
  from_unset ttl rs w h p =
      subst
        (λ (m : Flow Outcome Outcome × Sys W Call).
          kept rs m.1.trace ≡ waiting env id rs (since (kept rs m.1.trace)))
        (sym (served ttl rs unset (at w) h p)) (handle_connect-waiting rs w)

  dispatch-poll :
      (rs : RancherSession)
      → rs.status.manifest_applied ≡ true
      → dispatch env connecting rs (client api) ≡ poll_agent_ready env rs
  unfolding dispatch
  dispatch-poll rs sent =
      ap (λ b. if b then poll_agent_ready env rs else handle_connect env rs (client api)) sent

  pub waiting-IsLive :
      (ttl : ℤ) (rs : RancherSession) (t : Time)
      → IsLive env ttl rs
      → IsLive env ttl (waiting env id rs t)
  unfolding set_rancher_condition
  waiting-IsLive ttl rs t h = record {
    live = h.live;
    finalized = h.finalized;
    active = h.active;
    timed = h.timed;
  }

  pub joined-IsLive :
      (ttl : ℤ) (rs : RancherSession) (t : Time)
      → IsLive env ttl rs
      → IsLive env ttl (joined env rs t)
  unfolding set_rancher_condition
  joined-IsLive ttl rs t h = record {
    live = h.live;
    finalized = h.finalized;
    active = h.active;
    timed = h.timed;
  }

  pub from_waiting :
      (ttl : ℤ) (rs : RancherSession) (t : Time) (w : W)
      → IsLive env ttl rs
      → rs.status.phase ≡ connecting
      → rs.status.manifest_applied ≡ true
      → rs.status.expires_at ≡ some t
      → (env.kube.now w).0 ≤ℤ t
      → session_after env rs w ≡ joined env rs (since (session_after env rs w))
  from_waiting ttl rs t w h p sent e early =
      subst
        (λ (m : Flow Outcome Outcome × Sys W Call).
          kept rs m.1.trace ≡ joined env rs (since (kept rs m.1.trace)))
        (sym (served ttl rs connecting (at w) h p ∙ ap (λ m. m (at w)) (dispatch-poll rs sent)))
        (poll_agent_ready-joined rs t w e early)

  pub from_connected :
      (ttl : ℤ) (rs : RancherSession) (t : Time) (w : W)
      → IsLive env ttl rs
      → rs.status.phase ≡ connected
      → rs.status.rancher_cluster_id ≡ id
      → rs.status.expires_at ≡ some t
      → t <ℤ (env.kube.now w).0
      → (session_after env rs w ≡ ended rs) × (deleted_cluster (reconciled env rs w) ≡ some id)
  unfolding dispatch
  from_connected ttl rs t w h p cluster e late =
      subst
        (λ (m : Flow Outcome Outcome × Sys W Call).
          (kept rs m.1.trace ≡ ended rs) × (deleted_cluster m.1.trace ≡ some id))
        (sym (served ttl rs connected (at w) h p))
        (handle_connected-ended rs t w h.live cluster e late)
