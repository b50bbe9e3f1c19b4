-- ===== src/Service/Defaults/Front.antt =====
-- Default settings of services: cases of the switch of `GetServiceConfig`,
-- controllers/service_config.go.
use pishop_operator.Service.Types.Front.{
  AnalyticsServiceConfig, SecurityServiceConfig, CartServiceConfig, OrderServiceConfig,
  PaymentServiceConfig, CustomerServiceConfig,
}

unfoldable pub analytics_defaults : AnalyticsServiceConfig
analytics_defaults = record {
  data_retention_days = "365";
  batch_processing_enabled = "true";
  batch_size = "1000";
  batch_interval = "5m";
  recommendation_enabled = "true";
  recommendation_cache_size = "10000";
  recommendation_cache_ttl = "1h";
  similarity_threshold = "0.7";
  real_time_enabled = "true";
  real_time_window = "1m";
  report_generation_enabled = "true";
  report_schedule = "0 0 * * *";
  report_retention_days = "90";
}

unfoldable pub security_defaults : SecurityServiceConfig
security_defaults = record {
  tls_enabled = "false";
  tls_cert_file = "";
  tls_key_file = "";
  cors_enabled = "true";
}

unfoldable pub cart_defaults : CartServiceConfig
cart_defaults = record {
  guest_expiration = "24h";
  user_expiration = "30d";
  shared_expiration = "7d";
  max_items = "100";
  max_quantity = "99";
  auto_merge = "true";
  cross_device_sync = "true";
  pricing_enabled = "true";
  tax_enabled = "true";
  discount_enabled = "true";
  currency = "USD";
  tax_rate = "0.08";
  inventory_validation = "true";
  price_validation = "true";
  quantity_validation = "true";
  option_validation = "true";
  expiration_check_interval = "1h";
  cleanup_interval = "6h";
  abandonment_tracking = "true";
  abandonment_threshold = "2h";
}

unfoldable pub order_defaults : OrderServiceConfig
order_defaults = record {
  payment_timeout = "30s";
  inventory_timeout = "10s";
  shipping_timeout = "15s";
  notification_timeout = "5s";
  order_expiration_days = "30";
  max_order_items = "50";
  auto_cancel_timeout = "24h";
  fulfillment_timeout = "7d";
}

unfoldable pub payment_defaults : PaymentServiceConfig
payment_defaults = record {
  stripe_enabled = "false";
  stripe_secret_key = "";
  stripe_publishable_key = "";
  stripe_webhook_secret = "";
  paypal_enabled = "false";
  paypal_client_id = "";
  paypal_client_secret = "";
  paypal_environment = "sandbox";
  payment_timeout = "300s";
  authorization_timeout = "60s";
  capture_timeout = "168h";
  max_retries = "3";
  currency = "USD";
  min_amount = "1";
  max_amount = "99999999";
  nats_cluster_id = "test-cluster";
  nats_client_id = "payment-service";
  nats_reconnect_wait = "2s";
  nats_max_reconnect_attempts = "10";
}

unfoldable pub customer_defaults : CustomerServiceConfig
customer_defaults = record {
  registration_require_email_verification = "true";
  registration_default_marketing_opt_in = "false";
  registration_timeout = "30s";
  registration_max_attempts = "3";
  profile_allow_updates = "true";
  profile_require_validation = "true";
  profile_update_timeout = "30s";
  profile_max_update_attempts = "3";
  address_max_per_customer = "10";
  address_require_validation = "true";
  address_validation_timeout = "30s";
  address_geocoding_enabled = "true";
  address_geocoding_service_url = "http://localhost:8082";
  preferences_allow_updates = "true";
  preferences_update_timeout = "30s";
  preferences_max_update_attempts = "3";
  analytics_enable_activity_tracking = "true";
  analytics_activity_retention_period = "2y";
  analytics_metrics_update_interval = "1h";
  analytics_segment_update_interval = "24h";
  analytics_enable_ml_segmentation = "true";
  analytics_ml_service_url = "http://localhost:8083";
  privacy_enable_data_export = "true";
  privacy_enable_data_deletion = "true";
  privacy_data_export_timeout = "5m";
  privacy_data_deletion_timeout = "5m";
  privacy_require_consent_tracking = "true";
  privacy_consent_retention_period = "7y";
  privacy_enable_opt_out_requests = "true";
  privacy_opt_out_processing_timeout = "5m";
}
