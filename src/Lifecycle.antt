-- ===== src/Lifecycle.antt =====
-- The reconciliation of a PRStack: the handlers of controllers/prstack_controller.go, by the phase
-- that they serve, and `Reconcile`. Log lines are left out; events are calls.
pub mod Expiry
pub mod Provision
pub mod Deploy
pub mod Running
pub mod Cleaning
pub mod Main
pub mod Safety
pub mod Dead
pub mod Verdict
pub mod Progress
pub mod Phases
pub mod Failure
pub mod Distinct
pub mod Strict
