-- ===== src/Service.antt =====
-- The settings of the microservices: controllers/service_config.go.
pub mod Types
pub mod Defaults
pub mod Env
pub mod Names
