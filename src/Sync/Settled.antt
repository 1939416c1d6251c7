-- ===== src/Sync/Settled.antt =====
-- How a sync that started ends.
use losant_device.Prelude.{String, ◌≡◌, Bool, true, false, List, ◌∷◌, arith}
use losant_device.Go.{GoError, Fallible, ok, err, Time}
use losant_device.Exec.{
  Sys, Exec, Flow, next, stop, panic, continue, stopped, returned, value, ◌>>=◌, Outcome, finished,
  failed,
}
use losant_device.Api.LosantSync.{LosantSync, LosantSyncPhase, active, degraded}
use losant_device.Losant.{Call, LosantClient, status_updated}
use losant_device.Kube.{Kube}
use losant_device.Provisioner.{Clock, bootstrap, write_credentials, restart_deployment}
use losant_device.Sync.{Env, set_condition}
use losant_device.Sync.Schedule.{next_schedule_and_duration, send_degraded, set_degraded}
use losant_device.Sync.Steps.{update_status_then, mark_active}

abbrev pub IsRun : LosantSyncPhase → Type 0
IsRun active = Unit
IsRun degraded = Unit
IsRun _ = ⊥

module _ {F : Type 0} where
  -- The last call wrote the object as Active or Degraded, and the outcome is a result if the
  -- write succeeded, or the write's error.
  abbrev pub Ends : Outcome → List (Call F) → Type 0
  Ends (finished r) (status_updated ls (ok _) ∷ calls) = IsRun ls.status.phase
  Ends (failed e) (status_updated ls (err e') ∷ calls) = (e ≡ e') × IsRun ls.status.phase
  Ends _ _ = ⊥

  abbrev pub Settled : Flow Outcome Outcome → List (Call F) → Type 0
  Settled (next o) calls = Ends o calls
  Settled (stop o) calls = Ends o calls
  Settled panic calls = ⊥

  -- A part goes on, or has ended so.
  abbrev pub Settles : {A : Type 0} → Flow Outcome A → List (Call F) → Type 0
  Settles (next _) calls = Unit
  Settles (stop o) calls = Ends o calls
  Settles panic calls = ⊥

abbrev pub runs : {R A : Type 0} → Flow R A → Bool
runs panic = false
runs _ = true

module _ {F : Type 0} where
  pub Settles-stopped :
      (A : Type 0) (flow : Flow Outcome Outcome) (t : List (Call F))
      → Settled flow t
      → Settles {A = A} (stopped flow) t
  Settles-stopped A (next r) t h = h
  Settles-stopped A (stop r) t h = h
  Settles-stopped A panic t h = elim h [ ]

  pub Settles-returned :
      {A : Type 0} (flow : Flow A A) (t : List (Call F))
      → runs flow ≡ true
      → Settles (returned flow) t
  Settles-returned (next a) t h = tt
  Settles-returned (stop a) t h = tt
  Settles-returned panic t h = ground (arith, h)

module _ {W F A : Type 0} where
  pub continue-Settled :
      (flow : Flow Outcome A) (f : A → Exec W (Call F) Outcome Outcome) (s : Sys W (Call F))
      → Settles flow s.trace
      → ((a : A) → Settled (f a s).0 (f a s).1.trace)
      → Settled (continue flow f s).0 (continue flow f s).1.trace
  continue-Settled (next a) f s h k = k a
  continue-Settled (stop r) f s h k = h
  continue-Settled panic f s h k = elim h [ ]

  stopped-Settled :
      (flow : Flow Outcome Outcome) (f : A → Exec W (Call F) Outcome Outcome) (s : Sys W (Call F))
      → Settled flow s.trace
      → Settled (continue (stopped flow) f s).0 (continue (stopped flow) f s).1.trace
  stopped-Settled (next r) f s h = h
  stopped-Settled (stop r) f s h = h
  stopped-Settled panic f s h = elim h [ ]

  pub value-Settled :
      (r : Fallible A) (handle : GoError → Exec W (Call F) Outcome Outcome)
      (f : A → Exec W (Call F) Outcome Outcome) (s : Sys W (Call F))
      → ((e : GoError) → Settled (handle e s).0 (handle e s).1.trace)
      → ((a : A) → Settled (f a s).0 (f a s).1.trace)
      → Settled ((value r handle >>= f) s).0 ((value r handle >>= f) s).1.trace
  value-Settled (ok a) handle f s bad good = good a
  value-Settled (err e) handle f s bad good =
      stopped-Settled (handle e s).0 f (handle e s).1 (bad e)

  pub stopped-Settles :
      {B : Type 0} (flow : Flow Outcome Outcome) (f : A → Exec W (Call F) Outcome B)
      (s : Sys W (Call F))
      → Settled flow s.trace
      → Settles (continue (stopped flow) f s).0 (continue (stopped flow) f s).1.trace
  stopped-Settles (next r) f s h = h
  stopped-Settles (stop r) f s h = h
  stopped-Settles panic f s h = elim h [ ]

  pub continue-Settles :
      {B : Type 0} (flow : Flow Outcome A) (f : A → Exec W (Call F) Outcome B) (s : Sys W (Call F))
      → Settles flow s.trace
      → ((a : A) → Settles (f a s).0 (f a s).1.trace)
      → Settles (continue flow f s).0 (continue flow f s).1.trace
  continue-Settles (next a) f s h k = k a
  continue-Settles (stop r) f s h k = h
  continue-Settles panic f s h k = elim h [ ]

  pub value-Settles :
      {B : Type 0} (r : Fallible A) (handle : GoError → Exec W (Call F) Outcome Outcome)
      (f : A → Exec W (Call F) Outcome B) (s : Sys W (Call F))
      → ((e : GoError) → Settled (handle e s).0 (handle e s).1.trace)
      → ((a : A) → Settles (f a s).0 (f a s).1.trace)
      → Settles ((value r handle >>= f) s).0 ((value r handle >>= f) s).1.trace
  value-Settles (ok a) handle f s bad good = good a
  value-Settles (err e) handle f s bad good =
      stopped-Settles (handle e s).0 f (handle e s).1 (bad e)

module _ {W F : Type 0} (env : Env W F) where
  pub set_degraded-Settled :
      (ls : LosantSync) (condition reason message : String) (s : Sys W (Call F))
      → Settled
          (set_degraded env ls condition reason message s).0
          (set_degraded env ls condition reason message s).1.trace
  unfolding set_degraded set_condition next_schedule_and_duration send_degraded
  set_degraded-Settled ls condition reason message s = grind arith

  pub mark_active-Settled :
      (ls : LosantSync) (t : Time) (s : Sys W (Call F))
      → Settled (mark_active env ls t s).0 (mark_active env ls t s).1.trace
  unfolding mark_active set_condition update_status_then
  mark_active-Settled ls t s = grind arith

module _ {W F : Type 0} where
  pub bootstrap-runs :
      (kube : Kube W) (clock : Clock) (lc : LosantClient W) (ls : LosantSync) (id : String)
      (s : Sys W (Call F))
      → runs (bootstrap kube clock lc ls id s).0 ≡ true
  unfolding bootstrap write_credentials restart_deployment
  bootstrap-runs kube clock lc ls id s = grind arith
