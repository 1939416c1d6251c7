-- ===== src/Sync/Stalled.antt =====
-- Objects that a reconcile leaves Active with no other reconcile to come.
use losant_device.Prelude.{
  ◌||◌, ◌≡◌, refl, Bool, true, false, Bool-cases, inl, inr, [], ◌∷◌, List, Assoc, lookup, get_or,
  arith,
}
use losant_device.Prelude.Int.{ℤ, pos, ◌+ℤ◌, ◌-ℤ◌, ◌≤ℤ◌, ltb_ℤ, int_laws}
use losant_device.Go.{ok, is_empty, Duration}
use losant_device.Exec.{Sys, Flow, Outcome, next, stop, panic, finished}
use losant_device.Api.LosantSync.{LosantSync, active}
use losant_device.Losant.{Call, GeaClient, status_updated}
use losant_device.Monitor.{NodeHealth}
use losant_device.Sync.{Env, set_condition}
use losant_device.Sync.Schedule.{next_schedule_and_duration}
use losant_device.Sync.Report.{report_nodes}
use losant_device.Sync.Steps.{update_status_then, mark_active, finish_sync}

-- The controller runs again by itself: at once, after a positive time, or on an error.
abbrev pub asks_again : Flow Outcome Outcome → Bool
asks_again (next (finished r)) = r.requeue || ltb_ℤ (pos 0) r.requeue_after
asks_again (stop (finished r)) = r.requeue || ltb_ℤ (pos 0) r.requeue_after
asks_again panic = false
asks_again _ = true

-- The last call has written the object as Active.
abbrev pub LeftActive : {F : Type 0} → List (Call F) → Type 0
LeftActive (status_updated ls (ok _) ∷ calls) = ls.status.phase ≡ active
LeftActive _ = ⊥

not_ahead : (a d b : ℤ) → d ≤ℤ pos 0 → a ≤ℤ b → ltb_ℤ (pos 0) (a +ℤ d -ℤ b) ≡ false
not_ahead a d b short h = let behind : a +ℤ d -ℤ b ≤ℤ pos 0 = omega int_laws in ground arith

module _ {W F : Type 0} (env : Env W F) (gc : GeaClient W F) (ls : LosantSync) where
  report_nodes-next :
      (nodes : Assoc (NodeHealth F)) (s : Sys W (Call F)) → (report_nodes gc ls nodes s).0 ≡ next tt
  unfolding report_nodes
  report_nodes-next [] s = refl
  report_nodes-next ((node, h) ∷ nodes) s =
      elim (Bool-cases (is_empty (get_or "" (lookup node ls.status.node_devices)))) [
        | inl e ↦ rw (e, report_nodes) (report_nodes-next nodes s)
        | inr e ↦ rw (e, report_nodes) (report_nodes-next nodes _)
      ]

  -- An interval that is zero or negative, such as "0s", is accepted and stops the syncs: the end of
  -- a sync that has reported the cluster writes the object as Active, but the result neither is an
  -- error nor asks for another reconcile, since its time is not positive. This is where no cron
  -- expression is set, the write succeeds and the clock is never read below the instant that the
  -- next time is counted from.
  pub finish_sync-stalls :
      (d : Duration) (nodes : Assoc (NodeHealth F)) (s : Sys W (Call F))
      → is_empty ls.spec.cron_schedule ≡ true
      → env.parse_duration ls.spec.interval ≡ ok d
      → d ≤ℤ pos 0
      → ((w : W) → (env.kube.now (report_nodes gc ls nodes s).1.world).0 ≤ℤ (env.kube.now w).0)
      → ((r : LosantSync) (w : W) → (env.kube.update_losant_sync_status r w).0 ≡ ok tt)
      → let (flow, after) = finish_sync env gc ls nodes s in
        (asks_again flow ≡ false) × LeftActive after.trace
  unfolding finish_sync next_schedule_and_duration mark_active update_status_then set_condition
  finish_sync-stalls d nodes s no_cron parsed short steady writes = (
    simp (report_nodes-next, no_cron, parsed, writes)
        (not_ahead (env.kube.now (report_nodes gc ls nodes s).1.world).0 d _ short (steady _)),
    simp (report_nodes-next, no_cron, parsed, writes),
  )
