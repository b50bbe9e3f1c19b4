-- ===== src/Lifecycle/Progress.antt =====
-- How a stack advances in a world without errors.
pub mod Rules
pub mod Servers
pub mod Resources
pub mod Handlers
pub mod Deployment
pub mod Onward
pub mod Reconcile
