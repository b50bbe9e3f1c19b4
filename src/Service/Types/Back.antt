-- ===== src/Service/Types/Back.antt =====
-- Settings of the other services: the structs of controllers/service_config.go.
use pishop_operator.Base.{String}

pub record InventoryServiceConfig : Type 0 where
  pub low_stock_alert_enabled : String
  pub low_stock_alert_check_interval : String
  pub low_stock_alert_default_threshold : String
  pub low_stock_alert_batch_size : String
  pub reservation_default_cart_ttl : String
  pub reservation_default_order_ttl : String
  pub reservation_max_retries : String
  pub cleanup_enabled : String
  pub cleanup_interval : String
  pub cleanup_batch_size : String

pub record NotificationServiceConfig : Type 0 where
  pub email_provider : String
  pub smtp_host : String
  pub smtp_port : String
  pub smtp_username : String
  pub smtp_password : String
  pub sms_provider : String
  pub twilio_account_sid : String
  pub twilio_auth_token : String
  pub push_notification_enabled : String
  pub email_enabled : String
  pub sms_enabled : String
  pub template_path : String

pub record DiscountServiceConfig : Type 0 where
  pub max_discount_percentage : String
  pub min_order_amount : String
  pub max_usage_per_customer : String
  pub max_usage_total : String
  pub expiration_check_interval : String
  pub auto_expire_enabled : String
  pub stackable_discounts : String
  pub exclusive_discounts : String

pub record CheckoutServiceConfig : Type 0 where
  pub checkout_timeout : String
  pub payment_timeout : String
  pub inventory_timeout : String
  pub shipping_timeout : String
  pub tax_calculation_enabled : String
  pub shipping_calculation_enabled : String
  pub guest_checkout_enabled : String
  pub auto_apply_discounts : String
  pub require_shipping_address : String

pub record AuthServiceConfig : Type 0 where
  pub jwt_secret : String
  pub jwt_expiration : String
  pub refresh_token_expiration : String
  pub password_min_length : String
  pub require_email_verification : String
  pub max_login_attempts : String
  pub lockout_duration : String
  pub oauth_providers : String
  pub session_timeout : String
  pub token_refresh_enabled : String

pub record GraphqlServiceConfig : Type 0 where
  pub playground_enabled : String
  pub introspection_enabled : String
  pub complexity_limit : String
  pub query_timeout : String
  pub max_query_depth : String
  pub max_query_complexity : String

pub record InvoiceServiceConfig : Type 0 where
  pub default_currency : String
  pub invoice_prefix : String
  pub due_date_days : String
  pub late_fee_percentage : String
  pub tax_rate : String
  pub auto_generate_enabled : String
  pub pdf_template_path : String
  pub email_enabled : String

pub record MonolithServiceConfig : Type 0 where
  pub embedded_nats_port : String
  pub embedded_nats_jetstream : String
  pub embedded_nats_data_dir : String
  pub embedded_nats_log_level : String
  pub embedded_nats_debug : String
  pub embedded_nats_trace : String
