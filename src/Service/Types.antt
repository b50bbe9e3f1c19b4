-- ===== src/Service/Types.antt =====
-- The settings of a service: `ServiceConfig` of controllers/service_config.go.
pub mod Front
pub mod Back
use pishop_operator.Base.{ℕ, String, Option}
use pishop_operator.Service.Types.Front.{
  AnalyticsServiceConfig, SecurityServiceConfig, CartServiceConfig, OrderServiceConfig,
  PaymentServiceConfig, CustomerServiceConfig,
}
use pishop_operator.Service.Types.Back.{
  InventoryServiceConfig, NotificationServiceConfig, DiscountServiceConfig, CheckoutServiceConfig,
  AuthServiceConfig, GraphqlServiceConfig, InvoiceServiceConfig, MonolithServiceConfig,
}

pub record ServiceConfig : Type 0 where
  pub service_name : String
  pub environment : String
  pub log_level : String
  pub version : String
  pub server_port : ℕ
  pub read_timeout : String
  pub write_timeout : String
  pub idle_timeout : String
  pub mongo_db_uri : String
  pub mongo_db_database : String
  pub mongo_db_username : String
  pub mongo_db_password : String
  pub mongo_db_timeout : String
  pub mongo_db_max_pool_size : String
  pub mongo_db_min_pool_size : String
  pub redis_url : String
  pub redis_password : String
  pub redis_database : String
  pub redis_timeout : String
  pub nats_url : String
  pub nats_username : String
  pub nats_password : String
  pub nats_token : String
  pub nats_timeout : String
  pub metrics_enabled : String
  pub metrics_port : String
  pub metrics_path : String
  pub tracing_enabled : String
  pub tracing_service_name : String
  pub tracing_endpoint : String
  pub tracing_sample_rate : String
  pub health_enabled : String
  pub health_port : String
  pub health_path : String
  pub events_publish_interval : String
  pub events_batch_size : String
  pub events_retry_attempts : String
  pub events_retry_delay : String
  pub connection_pool_max_connections : String
  pub connection_pool_min_connections : String
  pub connection_pool_connection_timeout : String
  pub connection_pool_idle_timeout : String
  pub connection_pool_max_lifetime : String
  pub rate_limiting_enabled : String
  pub rate_limiting_requests_per : String
  pub rate_limiting_window_size : String
  pub timeout_request_timeout : String
  pub timeout_response_timeout : String
  pub timeout_graceful_shutdown : String
  pub analytics_config : Option AnalyticsServiceConfig
  pub security_config : Option SecurityServiceConfig
  pub cart_config : Option CartServiceConfig
  pub order_config : Option OrderServiceConfig
  pub payment_config : Option PaymentServiceConfig
  pub customer_config : Option CustomerServiceConfig
  pub inventory_config : Option InventoryServiceConfig
  pub notification_config : Option NotificationServiceConfig
  pub discount_config : Option DiscountServiceConfig
  pub checkout_config : Option CheckoutServiceConfig
  pub auth_config : Option AuthServiceConfig
  pub graphql_config : Option GraphqlServiceConfig
  pub invoice_config : Option InvoiceServiceConfig
  pub monolith_config : Option MonolithServiceConfig
