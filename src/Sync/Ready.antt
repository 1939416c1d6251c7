-- ===== src/Sync/Ready.antt =====
-- The steps before the report keep what stands behind an Active object.
use losant_device.Prelude.{
  String, ◌≡◌, Bool, true, List, [], ◌∷◌, Assoc, arith, Bool-cases, Option-cases, inl, inr,
}
use losant_device.Go.{GoError, Fallible, ok, err, is_empty}
use losant_device.Exec.{
  Sys, Exec, Flow, next, stop, panic, continue, stopped, returned, value, ◌>>=◌, Outcome,
}
use losant_device.Api.LosantSync.{LosantSync, WorkflowDeployment}
use losant_device.Losant.{Call, LosantClient, EdgeDeploymentStatus, node_ensured}
use losant_device.Kube.{Kube}
use losant_device.Monitor.{NodeHealth}
use losant_device.Provisioner.{Clock, bootstrap, write_credentials, restart_deployment}
use losant_device.Sync.{
  Env, set_condition, devices_provisioned, gea_bootstrapped, workflow_deployed,
}
use losant_device.Sync.Schedule.{set_degraded}
use losant_device.Sync.Workflows.{
  WorkflowResult, by_flow_id, release_workflows, after_deployments, ensure_workflow_deployments,
}
use losant_device.Sync.Devices.{ensure_node_devices, with_node_device}
use losant_device.Sync.Steps.{after_workflows, ensure_bootstrapped}
use losant_device.Sync.Backed.{has_ping, has_cluster, AllBacked, Keeps, set_degraded-AllBacked}

module _ {F : Type 0} where
  -- The ping and the cluster device are confirmed, and the object names that device.
  abbrev pub Ready : String → LosantSync → List (Call F) → Type 0
  Ready id ls t =
      (has_ping t ≡ true)
      × (has_cluster id t ≡ true)
      × (ls.status.cluster_device_id ≡ id)
      × AllBacked t

  -- A part that goes on leaves a ready object.
  abbrev Readies : String → Flow Outcome LosantSync → List (Call F) → Type 0
  Readies id (next ls) t = Ready id ls t
  Readies id _ t = AllBacked t

  Readies-stopped :
      (id : String) (flow : Flow Outcome Outcome) (t : List (Call F))
      → AllBacked t
      → Readies id (stopped flow) t
  Readies-stopped id (next r) t h = h
  Readies-stopped id (stop r) t h = h
  Readies-stopped id panic t h = h

module _ {W F : Type 0} where
  pub continue-Readies :
      (id : String) (flow : Flow Outcome LosantSync)
      (f : LosantSync → Exec W (Call F) Outcome Outcome) (s : Sys W (Call F))
      → Readies id flow s.trace
      → ((ls : LosantSync) → Ready id ls s.trace → AllBacked (f ls s).1.trace)
      → AllBacked (continue flow f s).1.trace
  continue-Readies id (next ls) f s h k = k ls h
  continue-Readies id (stop r) f s h k = h
  continue-Readies id panic f s h k = h

  stopped-Readies :
      {A : Type 0} (id : String) (flow : Flow Outcome Outcome)
      (f : A → Exec W (Call F) Outcome LosantSync) (s : Sys W (Call F))
      → AllBacked s.trace
      → Readies id (continue (stopped flow) f s).0 (continue (stopped flow) f s).1.trace
  stopped-Readies id (next r) f s h = h
  stopped-Readies id (stop r) f s h = h
  stopped-Readies id panic f s h = h

  call-Readies :
      {A : Type 0} (id : String) (flow : Flow Outcome A)
      (f : A → Exec W (Call F) Outcome LosantSync) (s : Sys W (Call F))
      → AllBacked s.trace
      → ((a : A) → Readies id (f a s).0 (f a s).1.trace)
      → Readies id (continue flow f s).0 (continue flow f s).1.trace
  call-Readies id (next a) f s h k = k a
  call-Readies id (stop r) f s h k = h
  call-Readies id panic f s h k = h

  value-Readies :
      {A : Type 0} (id : String) (r : Fallible A)
      (handle : GoError → Exec W (Call F) Outcome Outcome)
      (f : A → Exec W (Call F) Outcome LosantSync) (s : Sys W (Call F))
      → ((e : GoError) → AllBacked (handle e s).1.trace)
      → ((a : A) → Readies id (f a s).0 (f a s).1.trace)
      → Readies id ((value r handle >>= f) s).0 ((value r handle >>= f) s).1.trace
  value-Readies id (ok a) handle f s bad good = good a
  value-Readies id (err e) handle f s bad good =
      stopped-Readies id (handle e s).0 f (handle e s).1 (bad e)

module _ {W F : Type 0} (env : Env W F) (lc : LosantClient W) where
  pub ensure_node_devices-Readies :
      (id : String) (nodes : Assoc (NodeHealth F)) (ls : LosantSync) (s : Sys W (Call F))
      → Ready id ls s.trace
      → Readies id
          (ensure_node_devices env lc id nodes ls s).0
          (ensure_node_devices env lc id nodes ls s).1.trace
  unfolding ensure_node_devices
  ensure_node_devices-Readies id [] ls s h = h
  ensure_node_devices-Readies id ((node, nh) ∷ nodes) ls s h =
      let r = (lc.ensure_node_device ls.spec node id s.world).0 in
      let s1 : Sys W (Call F) = record {
        world = (lc.ensure_node_device ls.spec node id s.world).1;
        trace = node_ensured node r ∷ s.trace;
      } in
      value-Readies id r _ _ s1 (λ e. set_degraded-AllBacked env ls devices_provisioned _ _ s1 h.3)
        (λ device. ensure_node_devices-Readies id nodes (with_node_device ls node device) s1 h)

  release_workflows-Keeps :
      (id : String) (ls : LosantSync) (m : Assoc EdgeDeploymentStatus)
      (wds : List WorkflowDeployment) (b : Bool) (s : Sys W (Call F))
      → Keeps id s.trace (release_workflows lc ls m wds b s).1.trace
  unfolding release_workflows
  release_workflows-Keeps id ls m [] b s = (λ h. h, λ h. h, λ h. h, λ h. h)
  release_workflows-Keeps id ls m (wd ∷ rest) b s =
      grind (arith, release_workflows-Keeps id ls m rest)

  after_deployments-Keeps :
      (id : String) (ls : LosantSync) (r : Fallible (List EdgeDeploymentStatus))
      (s : Sys W (Call F))
      → Keeps id s.trace (after_deployments lc ls r s).1.trace
  unfolding after_deployments
  after_deployments-Keeps id ls (ok ds) s =
      release_workflows-Keeps id ls (by_flow_id ds []) ls.spec.workflow_deployments true s
  after_deployments-Keeps id ls (err e) s = (λ h. h, λ h. h, λ h. h, λ h. h)

  pub workflows-Keeps :
      (id : String) (ls : LosantSync) (s : Sys W (Call F))
      → Keeps id s.trace (ensure_workflow_deployments lc ls s).1.trace
  unfolding ensure_workflow_deployments
  workflows-Keeps id ls s = grind (arith, after_deployments-Keeps id ls)

  pub after_workflows-Readies :
      (id : String) (ls : LosantSync) (wf : WorkflowResult) (s : Sys W (Call F))
      → Ready id ls s.trace
      → Readies id (after_workflows env ls wf s).0 (after_workflows env ls wf s).1.trace
  unfolding after_workflows set_condition
  after_workflows-Readies id ls wf s h = elim (Option-cases wf.error) [
    | inl e ↦
        rw (e, after_workflows)
          (elim (Bool-cases (is_empty wf.reason)) [ inl e ↦ rw e h | inr n ↦ rw n h ])
    | inr (_, e) ↦
        rw (e, after_workflows)
          (let m = set_degraded env ls workflow_deployed wf.reason wf.message s in
            Readies-stopped id m.0 m.1.trace
              (set_degraded-AllBacked env ls workflow_deployed wf.reason wf.message s h.3))
  ]

  bootstrap-Keeps :
      (kube : Kube W) (clock : Clock) (id : String) (ls : LosantSync) (s : Sys W (Call F))
      → Keeps id s.trace (bootstrap kube clock lc ls id s).1.trace
  unfolding bootstrap write_credentials restart_deployment
  bootstrap-Keeps kube clock id ls s = grind arith

  pub ensure_bootstrapped-Readies :
      (id : String) (ls : LosantSync) (s : Sys W (Call F))
      → Ready id ls s.trace
      → Readies id
          (ensure_bootstrapped env lc ls id s).0
          (ensure_bootstrapped env lc ls id s).1.trace
  unfolding ensure_bootstrapped set_condition
  ensure_bootstrapped-Readies id ls s h =
      let m = bootstrap env.kube env.clock lc ls id s in
      let k = bootstrap-Keeps env.kube env.clock id ls s in
      let kept : Ready id ls m.1.trace = (k.1 h.0, k.2 h.1, h.2, k.0 h.3) in
      elim (Bool-cases (env.meta.is_status_condition_true ls.status.conditions gea_bootstrapped)) [
        | inl e ↦ rw (e, ensure_bootstrapped) h
        | inr n ↦
            rw (n, ensure_bootstrapped)
              (call-Readies id (returned m.0) _ m.1 kept.3 λ done.
                value-Readies id done _ _ m.1
                  (λ e. set_degraded-AllBacked env ls gea_bootstrapped _ _ m.1 kept.3) (λ _. kept))
      ]
