-- ===== src/Service/Defaults.antt =====
-- `GetServiceConfig` of controllers/service_config.go: the settings of a service by its name.
pub mod Front
pub mod Back
use pishop_operator.Base.{String, none, some, if◌then◌else◌, str_eq}
use pishop_operator.Naming.{get_database_name}
use pishop_operator.Service.Types.{ServiceConfig}
use pishop_operator.Service.Defaults.Front.{
  analytics_defaults, security_defaults, cart_defaults, order_defaults, payment_defaults,
  customer_defaults,
}
use pishop_operator.Service.Defaults.Back.{
  inventory_defaults, notification_defaults, discount_defaults, checkout_defaults, auth_defaults,
  graphql_defaults, invoice_defaults, monolith_defaults,
}

-- What every service has.
unfoldable pub base_config : String → String → ServiceConfig
base_config service_name pr_number = record {
  service_name = service_name;
  environment = "pr";
  log_level = "info";
  version = "1.0.0";
  server_port = 8080;
  read_timeout = "30s";
  write_timeout = "30s";
  idle_timeout = "60s";
  mongo_db_uri = "mongodb://mongodb-service:27017";
  mongo_db_database = get_database_name service_name pr_number;
  mongo_db_username = "admin";
  mongo_db_password = "";
  mongo_db_timeout = "10s";
  mongo_db_max_pool_size = "100";
  mongo_db_min_pool_size = "10";
  redis_url = "redis://redis-service:6379";
  redis_password = "";
  redis_database = "0";
  redis_timeout = "10s";
  nats_url = "nats://nats-service:4222";
  nats_username = "";
  nats_password = "";
  nats_token = "";
  nats_timeout = "10s";
  metrics_enabled = "true";
  metrics_port = "8080";
  metrics_path = "/metrics";
  tracing_enabled = "true";
  tracing_service_name = service_name;
  tracing_endpoint = "http://jaeger-service:14268/api/traces";
  tracing_sample_rate = "0.1";
  health_enabled = "true";
  health_port = "8080";
  health_path = "/health";
  events_publish_interval = "30s";
  events_batch_size = "100";
  events_retry_attempts = "3";
  events_retry_delay = "5s";
  connection_pool_max_connections = "100";
  connection_pool_min_connections = "10";
  connection_pool_connection_timeout = "30s";
  connection_pool_idle_timeout = "5m";
  connection_pool_max_lifetime = "1h";
  rate_limiting_enabled = "true";
  rate_limiting_requests_per = "1000";
  rate_limiting_window_size = "60";
  timeout_request_timeout = "30s";
  timeout_response_timeout = "30s";
  timeout_graceful_shutdown = "5s";
  analytics_config = none;
  security_config = none;
  cart_config = none;
  order_config = none;
  payment_config = none;
  customer_config = none;
  inventory_config = none;
  notification_config = none;
  discount_config = none;
  checkout_config = none;
  auth_config = none;
  graphql_config = none;
  invoice_config = none;
  monolith_config = none;
}

-- The switch: at most one of the optional parts is set.
unfoldable pub with_service_part : String → ServiceConfig → ServiceConfig
with_service_part service_name c =
    if str_eq service_name "analytics-service"
    then record c { analytics_config = some analytics_defaults }
    else if str_eq service_name "product-service"
    then record c { security_config = some security_defaults }
    else if str_eq service_name "cart-service"
    then record c { cart_config = some cart_defaults }
    else if str_eq service_name "order-service"
    then record c { order_config = some order_defaults }
    else if str_eq service_name "payment-service"
    then record c { payment_config = some payment_defaults }
    else if str_eq service_name "customer-service"
    then record c { customer_config = some customer_defaults }
    else if str_eq service_name "inventory-service"
    then record c { inventory_config = some inventory_defaults }
    else if str_eq service_name "notification-service"
    then record c { notification_config = some notification_defaults }
    else if str_eq service_name "discount-service"
    then record c { discount_config = some discount_defaults }
    else if str_eq service_name "checkout-service"
    then record c { checkout_config = some checkout_defaults }
    else if str_eq service_name "auth-service"
    then record c { auth_config = some auth_defaults }
    else if str_eq service_name "graphql-service"
    then record c { graphql_config = some graphql_defaults }
    else if str_eq service_name "invoice-service"
    then record c { invoice_config = some invoice_defaults }
    else if str_eq service_name "monolith-service"
    then record c { monolith_config = some monolith_defaults }
    else c

unfoldable pub get_service_config : String → String → ServiceConfig
unfolding base_config with_service_part
get_service_config service_name pr_number =
    with_service_part service_name (base_config service_name pr_number)
