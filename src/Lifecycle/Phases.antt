-- ===== src/Lifecycle/Phases.antt =====
-- The phases as a state machine: which one the stored PRStack may have after a reconciliation.
pub mod Rules
pub mod Resources
pub mod Handlers
pub mod Steps
