-- ===== src/Sync/Backed.antt =====
-- What stands behind an object that is written as Active.
use losant_device.Prelude.{
  String, ◌≡◌, refl, Bool, true, false, ◌||◌, List, [], ◌∷◌, Assoc, lookup, get_or, str_eq, eq_refl,
  arith, Bool-cases, inl, inr,
}
use losant_device.Go.{GoError, Fallible, ok, err, Time, Duration, is_empty}
use losant_device.Exec.{
  continue_keeps, value_keeps, Sys, Exec, Flow, continue, value, ◌>>=◌, Outcome,
}
use losant_device.Api.LosantSync.{LosantSync, LosantSyncPhase, active, degraded}
use losant_device.Losant.{
  Call, StatePayload, GeaClient, status_updated, pinged, cluster_ensured, state_reported,
}
use losant_device.Monitor.{NodeHealth, ClusterHealth}
use losant_device.Sync.{Env, set_condition}
use losant_device.Sync.Schedule.{next_schedule_and_duration, send_degraded, set_degraded}
use losant_device.Sync.Report.{cluster_payload, node_payload, report_nodes}
use losant_device.Sync.Steps.{mark_active, update_status_then, finish_sync, report_cluster}

module _ {F : Type 0} where
  -- Losant answered a ping.
  abbrev pub has_ping : List (Call F) → Bool
  has_ping [] = false
  has_ping (pinged (ok _) ∷ calls) = true
  has_ping (_ ∷ calls) = has_ping calls

  -- Losant confirmed this cluster device.
  abbrev pub has_cluster : String → List (Call F) → Bool
  has_cluster id [] = false
  has_cluster id (cluster_ensured (ok j) ∷ calls) = str_eq j id || has_cluster id calls
  has_cluster id (_ ∷ calls) = has_cluster id calls

  -- The GEA accepted a state of this device.
  abbrev pub has_report : String → List (Call F) → Bool
  has_report id [] = false
  has_report id (state_reported p (ok _) ∷ calls) = str_eq p.device_id id || has_report id calls
  has_report id (_ ∷ calls) = has_report id calls

  abbrev pub IsBacked : LosantSyncPhase → String → List (Call F) → Type 0
  IsBacked active id calls =
      (has_ping calls ≡ true) × (has_cluster id calls ≡ true) × (has_report id calls ≡ true)
  IsBacked _ id calls = Unit

  -- Each object written as Active comes after an answered ping, the confirmation of the cluster
  -- device that it names, and a state of that device that the GEA accepted.
  abbrev pub AllBacked : List (Call F) → Type 0
  AllBacked [] = Unit
  AllBacked (status_updated ls _ ∷ calls) =
      IsBacked ls.status.phase ls.status.cluster_device_id calls × AllBacked calls
  AllBacked (_ ∷ calls) = AllBacked calls

  -- What the steps up to the report keep, for a cluster device.
  abbrev pub Keeps : String → List (Call F) → List (Call F) → Type 0
  Keeps id t t' =
      (AllBacked t → AllBacked t')
      × (has_ping t ≡ true → has_ping t' ≡ true)
      × (has_cluster id t ≡ true → has_cluster id t' ≡ true)
      × (has_report id t ≡ true → has_report id t' ≡ true)

  pub reported-Keeps :
      (id : String) (p : StatePayload F) (r : Fallible (Unit {0})) (t : List (Call F))
      → Keeps id t (state_reported p r ∷ t)
  reported-Keeps id p (ok _) t = (λ h. h, λ h. h, λ h. h, λ h. ground (arith, h))
  reported-Keeps id p (err _) t = (λ h. h, λ h. h, λ h. h, λ h. h)

  pub Keeps-trans :
      (id : String) (t t' t'' : List (Call F)) → Keeps id t t' → Keeps id t' t'' → Keeps id t t''
  Keeps-trans id t t' t'' k l =
      (λ h. l.0 (k.0 h), λ h. l.1 (k.1 h), λ h. l.2 (k.2 h), λ h. l.3 (k.3 h))

module _ {W F A : Type 0} where
  pub continue-AllBacked :
      (flow : Flow Outcome A) (f : A → Exec W (Call F) Outcome Outcome) (s : Sys W (Call F))
      → AllBacked s.trace
      → ((a : A) → AllBacked (f a s).1.trace)
      → AllBacked (continue flow f s).1.trace
  continue-AllBacked = continue_keeps AllBacked

  -- a checked error, then the rest
  pub value-AllBacked :
      (r : Fallible A) (handle : GoError → Exec W (Call F) Outcome Outcome)
      (f : A → Exec W (Call F) Outcome Outcome) (s : Sys W (Call F))
      → ((e : GoError) → AllBacked (handle e s).1.trace)
      → ((a : A) → r ≡ ok a → AllBacked (f a s).1.trace)
      → AllBacked ((value r handle >>= f) s).1.trace
  value-AllBacked = value_keeps AllBacked

module _ {W F : Type 0} (env : Env W F) where
  send_degraded-AllBacked :
      (ls : LosantSync) (f : Fallible (Time × Duration)) (s : Sys W (Call F))
      → ls.status.phase ≡ degraded
      → AllBacked s.trace
      → AllBacked (send_degraded env ls f s).1.trace
  unfolding send_degraded
  send_degraded-AllBacked ls (ok (t, d)) s e h = rw e (grind arith)
  send_degraded-AllBacked ls (err _) s e h = rw e (grind arith)

  pub set_degraded-AllBacked :
      (ls : LosantSync) (condition reason message : String) (s : Sys W (Call F))
      → AllBacked s.trace
      → AllBacked (set_degraded env ls condition reason message s).1.trace
  unfolding set_degraded set_condition next_schedule_and_duration
  set_degraded-AllBacked ls condition reason message s h = grind (arith, send_degraded-AllBacked)

  pub mark_active-AllBacked :
      (ls : LosantSync) (t : Time) (s : Sys W (Call F))
      → IsBacked active ls.status.cluster_device_id s.trace
      → AllBacked s.trace
      → AllBacked (mark_active env ls t s).1.trace
  unfolding mark_active set_condition update_status_then
  mark_active-AllBacked ls t s b h = grind arith

  report_nodes-Keeps :
      (gc : GeaClient W F) (ls : LosantSync) (nodes : Assoc (NodeHealth F)) (id : String)
      (s : Sys W (Call F))
      → Keeps id s.trace (report_nodes gc ls nodes s).1.trace
  unfolding report_nodes
  report_nodes-Keeps gc ls [] id s = (λ h. h, λ h. h, λ h. h, λ h. h)
  report_nodes-Keeps gc ls ((node, nh) ∷ nodes) id s =
      let node_id = get_or "" (lookup node ls.status.node_devices) in
      let p = node_payload node_id nh in
      let s1 : Sys W (Call F) = record {
        world = (gc.report_state p s.world).1;
        trace = state_reported p (gc.report_state p s.world).0 ∷ s.trace;
      } in
      elim (Bool-cases (is_empty node_id)) [
        | inl e ↦ rw (e, report_nodes) (report_nodes-Keeps gc ls nodes id s)
        | inr n ↦
            rw (n, report_nodes)
              (Keeps-trans id s.trace s1.trace (report_nodes gc ls nodes s1).1.trace
                (reported-Keeps id p (gc.report_state p s.world).0 s.trace)
                (report_nodes-Keeps gc ls nodes id s1))
      ]

  finish_sync-AllBacked :
      (gc : GeaClient W F) (ls : LosantSync) (nodes : Assoc (NodeHealth F)) (s : Sys W (Call F))
      → IsBacked active ls.status.cluster_device_id s.trace
      → AllBacked s.trace
      → AllBacked (finish_sync env gc ls nodes s).1.trace
  unfolding finish_sync next_schedule_and_duration
  finish_sync-AllBacked gc ls nodes s b h =
      let s1 = (report_nodes gc ls nodes s).1 in
      let k = report_nodes-Keeps gc ls nodes ls.status.cluster_device_id s in
      continue-AllBacked (report_nodes gc ls nodes s).0 _ s1 (k.0 h)
        (λ _. grind (arith, set_degraded-AllBacked, mark_active-AllBacked ls))

  pub report_cluster-AllBacked :
      (gc : GeaClient W F) (ls : LosantSync) (cluster : ClusterHealth)
      (nodes : Assoc (NodeHealth F)) (s : Sys W (Call F))
      → has_ping s.trace ≡ true
      → has_cluster ls.status.cluster_device_id s.trace ≡ true
      → AllBacked s.trace
      → AllBacked (report_cluster env gc ls ls.status.cluster_device_id cluster nodes s).1.trace
  unfolding report_cluster set_condition
  report_cluster-AllBacked gc ls cluster nodes s ping ensured h =
      let id = ls.status.cluster_device_id in
      let r = (gc.report_state (cluster_payload id cluster) s.world).0 in
      let s1 : Sys W (Call F) = record {
        world = (gc.report_state (cluster_payload id cluster) s.world).1;
        trace = state_reported (cluster_payload id cluster) r ∷ s.trace;
      } in
      value-AllBacked r _ _ s1 (λ e. set_degraded-AllBacked ls _ _ _ s1 h)
        (λ a e. finish_sync-AllBacked gc _ nodes s1 (ping, ensured, rw (e, eq_refl id) refl) h)
