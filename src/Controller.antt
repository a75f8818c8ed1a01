-- ===== src/Controller.antt =====
-- internal/controller: the reconciler of VolumeGroup resources.
pub mod Platform
pub mod Conditions
pub mod Convert
pub mod Syncers
pub mod Plan
pub mod Sync
pub mod Status
pub mod Reconcile
pub mod Safety
pub mod Convergence
pub mod Lifecycle
