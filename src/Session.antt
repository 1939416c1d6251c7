-- ===== src/Session.antt =====
-- internal/controller/ranchersession_controller.go: the RancherSession controller. `Env` holds
-- the reconciler's fields and the code that it calls; the functions stand in the other children.
pub mod Env
pub mod Status
pub mod Manifests
pub mod Connect
pub mod Disconnect
pub mod Reconcile
pub mod Phases
pub mod Cleanup
pub mod Stranded
pub mod Expiry
pub mod Connecting
pub mod Polling
pub mod LostCluster
pub mod Registered
pub mod Lifecycle
