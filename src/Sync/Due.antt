-- ===== src/Sync/Due.antt =====
-- A sync that started writes its end to the status.
use losant_device.Api.LosantSync.{LosantSync}
use losant_device.Sync.Settled.{Settled}
