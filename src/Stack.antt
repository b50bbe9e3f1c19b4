-- ===== src/Stack.antt =====
-- The objects of a stack's namespace: controllers/stack_provisioning.go, `createMongoDBSecret` of
-- controllers/prstack_controller.go and controllers/backup_pvc.go.
pub mod Secrets
pub mod Ingress
pub mod Workload
pub mod Storage
pub mod Quiet
pub mod Tls
pub mod Databases
pub mod Selectors
