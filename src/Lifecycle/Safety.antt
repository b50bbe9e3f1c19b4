-- ===== src/Lifecycle/Safety.antt =====
-- Safety of the reconciliation, controllers/prstack_controller.go: panics and the stored status.
pub mod Invariant
pub mod Keeps
pub mod Handlers
pub mod Provisioning
pub mod Deployment
pub mod Expiry
pub mod Reconcile
