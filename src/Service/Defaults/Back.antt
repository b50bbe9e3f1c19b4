-- ===== src/Service/Defaults/Back.antt =====
-- Default settings of services: cases of the switch of `GetServiceConfig`,
-- controllers/service_config.go.
use pishop_operator.Service.Types.Back.{
  InventoryServiceConfig, NotificationServiceConfig, DiscountServiceConfig, CheckoutServiceConfig,
  AuthServiceConfig, GraphqlServiceConfig, InvoiceServiceConfig, MonolithServiceConfig,
}

unfoldable pub inventory_defaults : InventoryServiceConfig
inventory_defaults = record {
  low_stock_alert_enabled = "true";
  low_stock_alert_check_interval = "1h";
  low_stock_alert_default_threshold = "10";
  low_stock_alert_batch_size = "100";
  reservation_default_cart_ttl = "15m";
  reservation_default_order_ttl = "30m";
  reservation_max_retries = "3";
  cleanup_enabled = "true";
  cleanup_interval = "1h";
  cleanup_batch_size = "1000";
}

unfoldable pub notification_defaults : NotificationServiceConfig
notification_defaults = record {
  email_provider = "smtp";
  smtp_host = "smtp.gmail.com";
  smtp_port = "587";
  smtp_username = "";
  smtp_password = "";
  sms_provider = "twilio";
  twilio_account_sid = "";
  twilio_auth_token = "";
  push_notification_enabled = "true";
  email_enabled = "true";
  sms_enabled = "true";
  template_path = "/templates";
}

unfoldable pub discount_defaults : DiscountServiceConfig
discount_defaults = record {
  max_discount_percentage = "50";
  min_order_amount = "10.00";
  max_usage_per_customer = "1";
  max_usage_total = "1000";
  expiration_check_interval = "1h";
  auto_expire_enabled = "true";
  stackable_discounts = "false";
  exclusive_discounts = "true";
}

unfoldable pub checkout_defaults : CheckoutServiceConfig
checkout_defaults = record {
  checkout_timeout = "10m";
  payment_timeout = "30s";
  inventory_timeout = "10s";
  shipping_timeout = "15s";
  tax_calculation_enabled = "true";
  shipping_calculation_enabled = "true";
  guest_checkout_enabled = "true";
  auto_apply_discounts = "true";
  require_shipping_address = "true";
}

unfoldable pub auth_defaults : AuthServiceConfig
auth_defaults = record {
  jwt_secret = "";
  jwt_expiration = "1h";
  refresh_token_expiration = "7d";
  password_min_length = "8";
  require_email_verification = "true";
  max_login_attempts = "5";
  lockout_duration = "30m";
  oauth_providers = "google,github";
  session_timeout = "24h";
  token_refresh_enabled = "true";
}

unfoldable pub graphql_defaults : GraphqlServiceConfig
graphql_defaults = record {
  playground_enabled = "true";
  introspection_enabled = "true";
  complexity_limit = "1000";
  query_timeout = "30s";
  max_query_depth = "10";
  max_query_complexity = "1000";
}

unfoldable pub invoice_defaults : InvoiceServiceConfig
invoice_defaults = record {
  default_currency = "USD";
  invoice_prefix = "INV";
  due_date_days = "30";
  late_fee_percentage = "2.5";
  tax_rate = "8.0";
  auto_generate_enabled = "true";
  pdf_template_path = "/templates/invoice.pdf";
  email_enabled = "true";
}

unfoldable pub monolith_defaults : MonolithServiceConfig
monolith_defaults = record {
  embedded_nats_port = "4222";
  embedded_nats_jetstream = "true";
  embedded_nats_data_dir = "/data/nats";
  embedded_nats_log_level = "info";
  embedded_nats_debug = "false";
  embedded_nats_trace = "false";
}
