-- ===== src/Sync/Schedule.antt =====
-- nextScheduleAndDuration and setDegraded.
use losant_device.Prelude.{String, ◌⊕◌, ◌*◌, ◌^◌, some, if◌then◌else◌}
use losant_device.Prelude.Int.{pos, ◌+ℤ◌, ◌-ℤ◌}
use losant_device.Go.{Fallible, ok, err, Time, Duration, wrap, is_empty}
use losant_device.Exec.{◌>>=◌, ◌>>◌, call, read, value, pure, finished, failed, requeue_in}
use losant_device.Api.{condition_false}
use losant_device.Api.LosantSync.{LosantSync, LosantSyncSpec, degraded}
use losant_device.Losant.{status_updated}
use losant_device.Sync.{Env, Handler, Part, set_condition, last_sync_succeeded}

abbrev pub requeue_on_degraded_fallback : Duration
requeue_on_degraded_fallback = pos (60 * 10 ^ 9)

module _ {W F : Type 0} (env : Env W F) where
  -- the branch of a cron expression: the clock is read for Next, and again for time.Until
  abbrev next_by_cron : String → Fallible (Time → Time) → Part W F (Fallible (Time × Duration))
  next_by_cron spec (err e) = pure (err (wrap ("invalid cron expression " ⊕ env.quote spec) e))
  next_by_cron spec (ok next_after) = do
    now ← read env.kube.now
    let next = next_after now
    later ← read env.kube.now
    pure (ok (next, next -ℤ later))

  -- the branch of an interval
  abbrev next_by_interval : String → Fallible Duration → Part W F (Fallible (Time × Duration))
  next_by_interval spec (err e) = pure (err (wrap ("invalid interval " ⊕ env.quote spec) e))
  next_by_interval spec (ok d) = do now ← read env.kube.now; pure (ok (now +ℤ d, d))

  -- nextScheduleAndDuration
  unfoldable pub next_schedule_and_duration : LosantSyncSpec → Part W F (Fallible (Time × Duration))
  next_schedule_and_duration spec =
      if is_empty spec.cron_schedule
      then next_by_interval spec.interval (env.parse_duration spec.interval)
      else next_by_cron spec.cron_schedule (env.parse_cron spec.cron_schedule)

  -- the status update of setDegraded, with the next time where there is one
  unfoldable pub send_degraded : LosantSync → Fallible (Time × Duration) → Handler W F
  send_degraded ls (ok (next, d)) = do
    let ls = record ls { status = record ls.status { next_scheduled_time = some next } }
    written ← call (status_updated ls) (env.kube.update_losant_sync_status ls)
    value written (λ e. pure (failed e))
    pure (finished (requeue_in d))
  send_degraded ls (err _) = do
    written ← call (status_updated ls) (env.kube.update_losant_sync_status ls)
    value written (λ e. pure (failed e))
    pure (finished (requeue_in requeue_on_degraded_fallback))

  -- setDegraded
  unfoldable pub set_degraded : LosantSync → String → String → String → Handler W F
  unfolding set_condition
  set_degraded ls condition_type reason message = do
    let ls = record ls { status = record ls.status { phase = degraded } }
    let ls = set_condition env.meta ls condition_type condition_false reason message
    let ls = set_condition env.meta ls last_sync_succeeded condition_false reason message
    scheduled ← next_schedule_and_duration ls.spec
    send_degraded ls scheduled
