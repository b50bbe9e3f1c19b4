-- ===== src/Service/Types/Front.antt =====
-- Settings of the analytics, product, cart, order, payment and customer services: the structs of
-- controllers/service_config.go.
use pishop_operator.Base.{String}

pub record AnalyticsServiceConfig : Type 0 where
  pub data_retention_days : String
  pub batch_processing_enabled : String
  pub batch_size : String
  pub batch_interval : String
  pub recommendation_enabled : String
  pub recommendation_cache_size : String
  pub recommendation_cache_ttl : String
  pub similarity_threshold : String
  pub real_time_enabled : String
  pub real_time_window : String
  pub report_generation_enabled : String
  pub report_schedule : String
  pub report_retention_days : String

pub record SecurityServiceConfig : Type 0 where
  pub tls_enabled : String
  pub tls_cert_file : String
  pub tls_key_file : String
  pub cors_enabled : String

pub record CartServiceConfig : Type 0 where
  pub guest_expiration : String
  pub user_expiration : String
  pub shared_expiration : String
  pub max_items : String
  pub max_quantity : String
  pub auto_merge : String
  pub cross_device_sync : String
  pub pricing_enabled : String
  pub tax_enabled : String
  pub discount_enabled : String
  pub currency : String
  pub tax_rate : String
  pub inventory_validation : String
  pub price_validation : String
  pub quantity_validation : String
  pub option_validation : String
  pub expiration_check_interval : String
  pub cleanup_interval : String
  pub abandonment_tracking : String
  pub abandonment_threshold : String

pub record OrderServiceConfig : Type 0 where
  pub payment_timeout : String
  pub inventory_timeout : String
  pub shipping_timeout : String
  pub notification_timeout : String
  pub order_expiration_days : String
  pub max_order_items : String
  pub auto_cancel_timeout : String
  pub fulfillment_timeout : String

pub record PaymentServiceConfig : Type 0 where
  pub stripe_enabled : String
  pub stripe_secret_key : String
  pub stripe_publishable_key : String
  pub stripe_webhook_secret : String
  pub paypal_enabled : String
  pub paypal_client_id : String
  pub paypal_client_secret : String
  pub paypal_environment : String
  pub payment_timeout : String
  pub authorization_timeout : String
  pub capture_timeout : String
  pub max_retries : String
  pub currency : String
  pub min_amount : String
  pub max_amount : String
  pub nats_cluster_id : String
  pub nats_client_id : String
  pub nats_reconnect_wait : String
  pub nats_max_reconnect_attempts : String

pub record CustomerServiceConfig : Type 0 where
  pub registration_require_email_verification : String
  pub registration_default_marketing_opt_in : String
  pub registration_timeout : String
  pub registration_max_attempts : String
  pub profile_allow_updates : String
  pub profile_require_validation : String
  pub profile_update_timeout : String
  pub profile_max_update_attempts : String
  pub address_max_per_customer : String
  pub address_require_validation : String
  pub address_validation_timeout : String
  pub address_geocoding_enabled : String
  pub address_geocoding_service_url : String
  pub preferences_allow_updates : String
  pub preferences_update_timeout : String
  pub preferences_max_update_attempts : String
  pub analytics_enable_activity_tracking : String
  pub analytics_activity_retention_period : String
  pub analytics_metrics_update_interval : String
  pub analytics_segment_update_interval : String
  pub analytics_enable_ml_segmentation : String
  pub analytics_ml_service_url : String
  pub privacy_enable_data_export : String
  pub privacy_enable_data_deletion : String
  pub privacy_data_export_timeout : String
  pub privacy_data_deletion_timeout : String
  pub privacy_require_consent_tracking : String
  pub privacy_consent_retention_period : String
  pub privacy_enable_opt_out_requests : String
  pub privacy_opt_out_processing_timeout : String
