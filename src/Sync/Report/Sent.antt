-- ===== src/Sync/Report/Sent.antt =====
-- What holds of each report that a sync sends to the GEA.
use losant_device.Go.{Time, is_empty}
use losant_device.Prelude.{
  String, Bool-cases, lookup, get_or, inl, inr, List, [], ◌∷◌, Assoc, arith,
}
use losant_device.Exec.{Sys, value_keeps}
use losant_device.Api.LosantSync.{LosantSync}
use losant_device.Losant.{StatePayload, GeaClient, Call, state_reported}
use losant_device.Monitor.{NodeHealth, ClusterHealth}
use losant_device.Sync.{Env}
use losant_device.Sync.Report.{cluster_payload, report_nodes, node_payload}
use losant_device.Sync.Steps.{mark_active, finish_sync, update_status_then, report_cluster}
use losant_device.Sync.Schedule.{next_schedule_and_duration, send_degraded, set_degraded}

-- Each report that was sent is one of these.
abbrev pub AllReports : {F : Type 0} → (StatePayload F → Type 0) → List (Call F) → Type 0
AllReports P [] = Unit
AllReports P (state_reported p _ ∷ calls) = P p × AllReports P calls
AllReports P (_ ∷ calls) = AllReports P calls

-- The reports of these nodes are, under any device's ID.
abbrev pub NodesOk : {F : Type 0} → (StatePayload F → Type 0) → Assoc (NodeHealth F) → Type 0
NodesOk P [] = Unit
NodesOk P ((_, h) ∷ nodes) = ((id : String) → P (node_payload id h)) × NodesOk P nodes

-- The reports of a snapshot are.
abbrev pub IsReportable :
    {F : Type 0} → (StatePayload F → Type 0) → ClusterHealth × Assoc (NodeHealth F) → Type 0
IsReportable P (cluster, nodes) = ((id : String) → P (cluster_payload id cluster)) × NodesOk P nodes

module _ {W F : Type 0} (P : StatePayload F → Type 0) (env : Env W F) where
  pub set_degraded-AllReports :
      (ls : LosantSync) (condition reason message : String) (s : Sys W (Call F))
      → AllReports P s.trace
      → AllReports P (set_degraded env ls condition reason message s).1.trace
  unfolding set_degraded send_degraded next_schedule_and_duration
  set_degraded-AllReports ls condition reason message s h = grind arith

  mark_active-AllReports :
      (ls : LosantSync) (next : Time) (s : Sys W (Call F))
      → AllReports P s.trace
      → AllReports P (mark_active env ls next s).1.trace
  unfolding mark_active update_status_then
  mark_active-AllReports ls next s h = grind arith

module _ {W F : Type 0} (P : StatePayload F → Type 0) (env : Env W F) (gc : GeaClient W F) where
  report_nodes-AllReports :
      (ls : LosantSync) (nodes : Assoc (NodeHealth F)) (s : Sys W (Call F))
      → NodesOk P nodes
      → AllReports P s.trace
      → AllReports P (report_nodes gc ls nodes s).1.trace
  unfolding report_nodes
  report_nodes-AllReports ls [] s good h = h
  report_nodes-AllReports ls ((node, nh) ∷ nodes) s good h =
      let id = get_or "" (lookup node ls.status.node_devices) in
      elim (Bool-cases (is_empty id)) [
        | inl e ↦ rw (e, report_nodes) (report_nodes-AllReports ls nodes s good.1 h)
        | inr n ↦ rw (n, report_nodes) (report_nodes-AllReports ls nodes _ good.1 (good.0 id, h))
      ]

  finish_sync-AllReports :
      (ls : LosantSync) (nodes : Assoc (NodeHealth F)) (s : Sys W (Call F))
      → NodesOk P nodes
      → AllReports P s.trace
      → AllReports P (finish_sync env gc ls nodes s).1.trace
  unfolding finish_sync next_schedule_and_duration
  finish_sync-AllReports ls nodes s good h = grind (
    arith,
    report_nodes-AllReports ls nodes s good,
    set_degraded-AllReports P env ls,
    mark_active-AllReports P env ls,
  )

  pub report_cluster-AllReports :
      (ls : LosantSync) (id : String) (cluster : ClusterHealth) (nodes : Assoc (NodeHealth F))
      (s : Sys W (Call F))
      → ((id : String) → P (cluster_payload id cluster))
      → NodesOk P nodes
      → AllReports P s.trace
      → AllReports P (report_cluster env gc ls id cluster nodes s).1.trace
  unfolding report_cluster
  report_cluster-AllReports ls id cluster nodes s whole good h =
      let payload = cluster_payload id cluster in
      let (r, w) = gc.report_state payload s.world in
      let s1 : Sys W (Call F) = record { world = w; trace = state_reported payload r ∷ s.trace } in
      let h1 : AllReports P s1.trace = (whole id, h) in
      value_keeps (AllReports P) r _ _ s1 (λ e. set_degraded-AllReports P env ls _ _ _ s1 h1)
        (λ _ e. finish_sync-AllReports _ nodes s1 good h1)
