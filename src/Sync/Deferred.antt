-- ===== src/Sync/Deferred.antt =====
-- When a reconcile leaves Losant and the GEA alone.
use losant_device.Prelude.{
  ◌≡◌, ◌≢◌, Bool, true, false, not, ◌&&◌, Option, none, some, List, [], ◌∷◌, arith,
}
use losant_device.Prelude.Int.{ltb_ℤ}
use losant_device.Go.{Time}
use losant_device.Api.LosantSync.{LosantSync, LosantSyncPhase, unset, active}
use losant_device.Losant.{Call, sync_updated, status_updated, secret_created}
use losant_device.Sync.{Env}
use losant_device.Sync.Steps.{update_status_then}
use losant_device.Sync.Reconcile.{sync_if_due, reconcile_sync, first_reconcile, suspend}
use losant_device.Provisioner.{ensure_credential_placeholder}

-- The phase and the schedule let a sync start at this instant.
abbrev pub schedule_due : LosantSyncPhase → Option Time → Time → Bool
schedule_due unset next now = false
schedule_due active (some next) now = not (ltb_ℤ now next)
schedule_due _ next now = true

-- A sync of this object starts at this instant, if its finalizer is there.
abbrev pub is_due : LosantSync → Time → Bool
is_due ls now =
    not ls.spec.suspend && schedule_due ls.status.phase ls.status.next_scheduled_time now

-- Only Kubernetes is written, and of its Secrets none is overwritten.
abbrev pub AllLocal : {F : Type 0} → List (Call F) → Type 0
AllLocal [] = Unit
AllLocal (sync_updated _ _ ∷ calls) = AllLocal calls
AllLocal (status_updated _ _ ∷ calls) = AllLocal calls
AllLocal (secret_created _ _ ∷ calls) = AllLocal calls
AllLocal (_ ∷ calls) = ⊥

module _ {W F : Type 0} (env : Env W F) where
  sync_if_due-AllLocal :
      (ls : LosantSync) (p : LosantSyncPhase) (t : Option Time) (w : W)
      → schedule_due p t (env.kube.now w).0 ≡ false
      → p ≢ unset
      → AllLocal (sync_if_due env ls p t (record { world = w; trace = [] })).1.trace
  unfolding sync_if_due
  sync_if_due-AllLocal ls p t w early set = grind arith

  -- A reconcile of a LosantSync that is not being deleted makes no call of Losant or of the GEA
  -- and overwrites no Secret while the object is suspended, before it has a phase, or while it is
  -- Active and the clock has not reached its next scheduled time.
  pub reconcile_sync-AllLocal :
      (ls : LosantSync) (w : W)
      → ls.deletion_timestamp ≡ none
      → is_due ls (env.kube.now w).0 ≡ false
      → AllLocal (reconcile_sync env ls (record { world = w; trace = [] })).1.trace
  unfolding reconcile_sync suspend first_reconcile update_status_then ensure_credential_placeholder
  reconcile_sync-AllLocal ls w kept early =
      grind (arith, sync_if_due-AllLocal ls ls.status.phase ls.status.next_scheduled_time w)
