-- ===== src/Session/Phases.antt =====
-- The phases that the controller writes follow a transition diagram.
use losant_device.Prelude.{
  String, ◌≡◌, refl, inl, inr, Bool, true, false, Bool-cases, is_some, List, [], ◌∷◌, arith, none,
  some, Option,
}
use losant_device.Go.{GoError, Fallible, ok, err, is_sentinel, rancher_not_found}
use losant_device.Exec.{Sys}
use losant_device.Api.RancherSession.{
  RancherSession, RancherSessionPhase, unset, connecting, connected, disconnecting, disconnected,
  failed,
}
use losant_device.Session.Env.{Env, Call, Handle, nil_interface, status_updated}
use losant_device.Session.Manifests.{apply_manifest}
use losant_device.Session.Manifests.Keeps.{apply_manifest_keeps}
use losant_device.Session.Connect.{ensure_cluster, register, handle_connect, poll_agent_ready}
use losant_device.Session.Disconnect.{
  delete_cluster, finish_cleanup, run_cleanup, disconnect_with, handle_disconnect,
}
use losant_device.Session.Reconcile.{
  after_lookup, check_cluster, handle_connected, dispatch, serve, reconcile_session,
}

-- The diagram; `deleting` tells whether the session's deletion timestamp is set.
pub data Edge : Bool → RancherSessionPhase → RancherSessionPhase → Type 0 where
  start : Edge false unset connecting
  resume : Edge false connecting connecting
  agent_ready : Edge false connecting connected
  give_up : {p : RancherSessionPhase} → Edge false p failed
  lookup_failed : Edge false connected connected
  expire : Edge false connected disconnecting
  remove : {p : RancherSessionPhase} → Edge true p disconnecting
  retry : {d : Bool} → Edge d disconnecting disconnecting
  cleaned : {d : Bool} → Edge d disconnecting disconnected

-- The phase that was written last, or the one at the start.
abbrev pub last_phase : RancherSessionPhase → List Call → RancherSessionPhase
last_phase p [] = p
last_phase p (status_updated rs _ ∷ calls) = rs.status.phase
last_phase p (_ ∷ calls) = last_phase p calls

-- Each status that was sent follows an edge from the one before it.
abbrev pub Follows : Bool → RancherSessionPhase → List Call → Type 0
Follows d p [] = Unit
Follows d p (status_updated rs _ ∷ calls) =
    Edge d (last_phase p calls) rs.status.phase × Follows d p calls
Follows d p (_ ∷ calls) = Follows d p calls

module _ {W : Type 0} (env : Env W) (p : RancherSessionPhase) where
  last_phase-apply_manifest :
      (rs : RancherSession) (url : String) (s : Sys W Call)
      → last_phase p (apply_manifest env rs url s).1.trace ≡ last_phase p s.trace
  last_phase-apply_manifest rs url s =
      apply_manifest_keeps env (λ calls. last_phase p calls ≡ last_phase p s.trace)
        (λ obj r calls h. h) (λ url' f calls h. h) rs url s refl

  Follows-apply_manifest :
      (rs : RancherSession) (url : String) (s : Sys W Call)
      → Follows false p s.trace
      → Follows false p (apply_manifest env rs url s).1.trace
  Follows-apply_manifest =
      apply_manifest_keeps env (Follows false p) (λ obj r calls h. h) (λ url f calls h. h)

  poll_agent_ready-Follows :
      (rs : RancherSession) (s : Sys W Call)
      → rs.status.phase ≡ connecting
      → last_phase p s.trace ≡ rs.status.phase
      → Follows false p s.trace
      → Follows false p (poll_agent_ready env rs s).1.trace
  unfolding poll_agent_ready
  poll_agent_ready-Follows rs s c l h = grind (arith, agent_ready, give_up)

  handle_connect-Follows :
      (rs : RancherSession) (rc : Handle W) (s : Sys W Call)
      → Edge false (last_phase p s.trace) connecting
      → Follows false p s.trace
      → Follows false p (handle_connect env rs rc s).1.trace
  unfolding handle_connect ensure_cluster register
  handle_connect-Follows rs rc s l h =
      grind (arith, resume, give_up, last_phase-apply_manifest, Follows-apply_manifest)

module _ {W : Type 0} (env : Env W) (d : Bool) (p : RancherSessionPhase) where
  run_cleanup-Follows :
      (rs : RancherSession) (rc : Handle W) (s : Sys W Call)
      → Edge d (last_phase p s.trace) disconnecting
      → Follows d p s.trace
      → Follows d p (run_cleanup env rs rc s).1.trace
  unfolding run_cleanup delete_cluster finish_cleanup
  run_cleanup-Follows rs rc s l h = grind (arith, retry, cleaned)

module _ {W : Type 0} (env : Env W) (p : RancherSessionPhase) where
  run_cleanup-expired :
      (rs : RancherSession) (rc : Handle W) (s : Sys W Call)
      → last_phase p s.trace ≡ connected
      → Follows false p s.trace
      → Follows false p (run_cleanup env rs rc s).1.trace
  run_cleanup-expired rs rc s l h = run_cleanup-Follows env false p rs rc s (rw l expire) h

  after_lookup-Follows :
      (rs : RancherSession) (rc : Handle W) (found : Fallible (Unit {0})) (s : Sys W Call)
      → rs.status.phase ≡ connected
      → last_phase p s.trace ≡ connected
      → Follows false p s.trace
      → Follows false p (after_lookup env rs rc found s).1.trace
  unfolding after_lookup
  after_lookup-Follows rs rc (ok _) s c l h = grind arith
  after_lookup-Follows rs rc (err e) s c l h =
      elim (Bool-cases (is_sentinel rancher_not_found e.wraps)) [
        | inl gone ↦ rw gone (run_cleanup-expired rs rc s l h)
        | inr kept ↦ rw kept (grind (arith, lookup_failed))
      ]

  check_cluster-Follows :
      (rs : RancherSession) (rc : Handle W) (s : Sys W Call)
      → rs.status.phase ≡ connected
      → last_phase p s.trace ≡ connected
      → Follows false p s.trace
      → Follows false p (check_cluster env rs rc s).1.trace
  unfolding check_cluster
  check_cluster-Follows rs rc s c l h = grind (arith, after_lookup-Follows)

  handle_connected-Follows :
      (rs : RancherSession) (rc : Handle W) (s : Sys W Call)
      → rs.status.phase ≡ connected
      → last_phase p s.trace ≡ connected
      → Follows false p s.trace
      → Follows false p (handle_connected env rs rc s).1.trace
  unfolding handle_connected
  handle_connected-Follows rs rc s c l h =
      let later = record s { world = (env.kube.now s.world).1 } in
      ground (
        arith,
        run_cleanup-expired rs rc later l h,
        check_cluster-Follows rs rc s c l h,
        check_cluster-Follows rs rc later c l h,
      )

  disconnect_with-Follows :
      (rs : RancherSession) (rc : Handle W) (s : Sys W Call)
      → Follows true p s.trace
      → Follows true p (disconnect_with env rs rc s).1.trace
  unfolding disconnect_with
  disconnect_with-Follows rs nil_interface s h = ground (arith)
  disconnect_with-Follows rs _ s h = grind (arith, remove, run_cleanup-Follows env true p)

  handle_disconnect-Follows :
      (rs : RancherSession) (s : Sys W Call)
      → Follows true p s.trace
      → Follows true p (handle_disconnect env rs s).1.trace
  unfolding handle_disconnect
  handle_disconnect-Follows rs s h = grind (arith, disconnect_with-Follows)

  dispatch-Follows :
      (q : RancherSessionPhase) (rs : RancherSession) (rc : Handle W) (s : Sys W Call)
      → rs.status.phase ≡ q
      → last_phase p s.trace ≡ q
      → Follows false p s.trace
      → Follows false p (dispatch env q rs rc s).1.trace
  unfolding dispatch
  dispatch-Follows unset rs rc s e l h = grind (arith, start, handle_connect-Follows env p)
  dispatch-Follows connecting rs rc s e l h =
      grind (arith, resume, handle_connect-Follows env p, poll_agent_ready-Follows env p)
  dispatch-Follows connected rs rc s e l h = handle_connected-Follows rs rc s e l h
  dispatch-Follows _ rs rc s e l h = h

module _ {W : Type 0} (env : Env W) where
  serve-Follows :
      (rs : RancherSession) (built : Handle W × Option GoError) (s : Sys W Call)
      → last_phase rs.status.phase s.trace ≡ rs.status.phase
      → Follows false rs.status.phase s.trace
      → Follows false rs.status.phase (serve env rs built s).1.trace
  unfolding serve
  serve-Follows rs (rc, some e) s l h = grind (arith, give_up)
  serve-Follows rs (rc, none) s l h =
      dispatch-Follows env rs.status.phase rs.status.phase rs rc s refl l h

  live-Follows :
      (rs : RancherSession) (w : W)
      → is_some rs.deletion_timestamp ≡ false
      → Follows false rs.status.phase
          (reconcile_session env rs (record { world = w; trace = [] })).1.trace
  unfolding reconcile_session
  live-Follows rs w live = rw live (grind (arith, serve-Follows))

-- Every status that a reconcile sends follows an edge of the diagram from the status before it,
-- the first from the status that was read: an edge of the diagram's part for deletion if the
-- session's deletion timestamp is set, and of the other part if not.
pub reconcile_session-Follows :
    {W : Type 0} (env : Env W) (rs : RancherSession) (w : W)
    → Follows
        (is_some rs.deletion_timestamp)
        rs.status.phase
        (reconcile_session env rs (record { world = w; trace = [] })).1.trace
reconcile_session-Follows env rs w = elim (Bool-cases (is_some rs.deletion_timestamp)) [
  | inl deleting ↦
      rw deleting
        (unfold reconcile_session in rw deleting (handle_disconnect-Follows env _ rs _ tt))
  | inr live ↦ rw live (live-Follows env rs w live)
]
