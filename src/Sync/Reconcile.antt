-- ===== src/Sync/Reconcile.antt =====
-- Reconcile of the LosantSync controller: what comes before a sync.
use losant_device.Prelude.{String, ◌^◌, Bool, true, false, Option, some, is_some, if◌then◌else◌}
use losant_device.Prelude.Int.{pos, ◌-ℤ◌, ltb_ℤ}
use losant_device.Go.{Time, is_not_found}
use losant_device.Exec.{
  ◌>>=◌, ◌>>◌, call, read, value, pure, scope, finished, failed, empty_result, requeue_now,
  requeue_in,
}
use losant_device.Api.LosantSync.{
  LosantSync, LosantSyncPhase, unset, provisioning, active, suspended,
}
use losant_device.Losant.{sync_updated}
use losant_device.Provisioner.{ensure_credential_placeholder}
use losant_device.Sync.{Env, Handler, device_finalizer}
use losant_device.Sync.Devices.{handle_deletion}
use losant_device.Sync.Steps.{update_status_then, sync}

module _ {W F : Type 0} (env : Env W F) where
  -- the schedule check; the clock is read once for Before and again for time.Until
  unfoldable pub sync_if_due : LosantSync → LosantSyncPhase → Option Time → Handler W F
  sync_if_due ls active (some next) = do
    now ← read env.kube.now
    if ltb_ℤ now next
        then (do later ← read env.kube.now; pure (finished (requeue_in (next -ℤ later))))
        else sync env ls
  sync_if_due ls _ _ = sync env ls

  -- the first reconcile
  unfoldable pub first_reconcile : LosantSync → Handler W F
  unfolding update_status_then
  first_reconcile ls = do
    now ← read env.kube.now
    let ls = record ls {
      status = record ls.status { phase = provisioning; next_scheduled_time = some now };
    }
    update_status_then env ls (do
      _ ← scope (ensure_credential_placeholder env.kube ls.spec.provisioning_secret_ref.namespace)
      pure (finished (requeue_in (pos (10 ^ 9)))))

  -- a suspended object's phase is written once
  unfoldable pub suspend : LosantSync → LosantSyncPhase → Handler W F
  unfolding update_status_then
  suspend ls suspended = pure (finished empty_result)
  suspend ls _ =
      update_status_then env (record ls { status = record ls.status { phase = suspended } })
        (pure (finished empty_result))

  abbrev pub is_unset : LosantSyncPhase → Bool
  is_unset unset = true
  is_unset _ = false

  -- Reconcile, once the object is read
  unfoldable pub reconcile_sync : LosantSync → Handler W F
  reconcile_sync ls =
      if is_some ls.deletion_timestamp
      then handle_deletion env ls
      else if (env.meta.add_finalizer device_finalizer ls.finalizers).0
      then (do
        let ls = record ls {
          finalizers = (env.meta.add_finalizer device_finalizer ls.finalizers).1;
        }
        written ← call (sync_updated ls) (env.kube.update_losant_sync ls)
        value written (λ e. pure (failed e))
        pure (finished requeue_now))
      else if ls.spec.suspend
      then suspend ls ls.status.phase
      else if is_unset ls.status.phase
      then first_reconcile ls
      else sync_if_due ls ls.status.phase ls.status.next_scheduled_time

  -- Reconcile
  unfoldable pub reconcile : String → Handler W F
  reconcile req = do
    found ← read (env.kube.get_losant_sync req)
    ls ← value found λ e. if is_not_found e then pure (finished empty_result) else pure (failed e)
    reconcile_sync ls
