-- ===== src/Service/Env/Front.antt =====
-- The variables of a service's own settings: parts of `ToEnvVars`, controllers/service_config.go.
use pishop_operator.Base.{List, ◌∷◌, []}
use pishop_operator.Kube.{EnvVar}
use pishop_operator.Service.Types.Front.{
  AnalyticsServiceConfig, SecurityServiceConfig, CartServiceConfig, OrderServiceConfig,
  PaymentServiceConfig, CustomerServiceConfig,
}
use pishop_operator.Service.Env.Var.{plain, from_secret}

unfoldable pub analytics_env : AnalyticsServiceConfig → List EnvVar
analytics_env c =
    plain "ANALYTICS_DATA_RETENTION_DAYS" c.data_retention_days
    ∷ plain "ANALYTICS_BATCH_PROCESSING_ENABLED" c.batch_processing_enabled
    ∷ plain "ANALYTICS_BATCH_SIZE" c.batch_size
    ∷ plain "ANALYTICS_BATCH_INTERVAL" c.batch_interval
    ∷ plain "ANALYTICS_RECOMMENDATION_ENABLED" c.recommendation_enabled
    ∷ plain "ANALYTICS_RECOMMENDATION_CACHE_SIZE" c.recommendation_cache_size
    ∷ plain "ANALYTICS_RECOMMENDATION_CACHE_TTL" c.recommendation_cache_ttl
    ∷ plain "ANALYTICS_SIMILARITY_THRESHOLD" c.similarity_threshold
    ∷ plain "ANALYTICS_REAL_TIME_ENABLED" c.real_time_enabled
    ∷ plain "ANALYTICS_REAL_TIME_WINDOW" c.real_time_window
    ∷ plain "ANALYTICS_REPORT_GENERATION_ENABLED" c.report_generation_enabled
    ∷ plain "ANALYTICS_REPORT_SCHEDULE" c.report_schedule
    ∷ plain "ANALYTICS_REPORT_RETENTION_DAYS" c.report_retention_days
    ∷ []

unfoldable pub security_env : SecurityServiceConfig → List EnvVar
security_env c =
    plain "SECURITY_TLS_ENABLED" c.tls_enabled
    ∷ plain "SECURITY_TLS_CERT_FILE" c.tls_cert_file
    ∷ plain "SECURITY_TLS_KEY_FILE" c.tls_key_file
    ∷ plain "SECURITY_CORS_ENABLED" c.cors_enabled
    ∷ []

unfoldable pub cart_env : CartServiceConfig → List EnvVar
cart_env c =
    plain "CART_GUEST_EXPIRATION" c.guest_expiration
    ∷ plain "CART_USER_EXPIRATION" c.user_expiration
    ∷ plain "CART_SHARED_EXPIRATION" c.shared_expiration
    ∷ plain "CART_MAX_ITEMS" c.max_items
    ∷ plain "CART_MAX_QUANTITY" c.max_quantity
    ∷ plain "CART_AUTO_MERGE" c.auto_merge
    ∷ plain "CART_CROSS_DEVICE_SYNC" c.cross_device_sync
    ∷ plain "CART_PRICING_ENABLED" c.pricing_enabled
    ∷ plain "CART_TAX_ENABLED" c.tax_enabled
    ∷ plain "CART_DISCOUNT_ENABLED" c.discount_enabled
    ∷ plain "CART_CURRENCY" c.currency
    ∷ plain "CART_TAX_RATE" c.tax_rate
    ∷ plain "CART_INVENTORY_VALIDATION" c.inventory_validation
    ∷ plain "CART_PRICE_VALIDATION" c.price_validation
    ∷ plain "CART_QUANTITY_VALIDATION" c.quantity_validation
    ∷ plain "CART_OPTION_VALIDATION" c.option_validation
    ∷ plain "CART_EXPIRATION_CHECK_INTERVAL" c.expiration_check_interval
    ∷ plain "CART_CLEANUP_INTERVAL" c.cleanup_interval
    ∷ plain "CART_ABANDONMENT_TRACKING" c.abandonment_tracking
    ∷ plain "CART_ABANDONMENT_THRESHOLD" c.abandonment_threshold
    ∷ []

unfoldable pub order_env : OrderServiceConfig → List EnvVar
order_env c =
    plain "PAYMENT_TIMEOUT" c.payment_timeout
    ∷ plain "INVENTORY_TIMEOUT" c.inventory_timeout
    ∷ plain "SHIPPING_TIMEOUT" c.shipping_timeout
    ∷ plain "NOTIFICATION_TIMEOUT" c.notification_timeout
    ∷ plain "ORDER_EXPIRATION_DAYS" c.order_expiration_days
    ∷ plain "ORDER_MAX_ITEMS" c.max_order_items
    ∷ plain "ORDER_AUTO_CANCEL_TIMEOUT" c.auto_cancel_timeout
    ∷ plain "ORDER_FULFILLMENT_TIMEOUT" c.fulfillment_timeout
    ∷ []

unfoldable pub payment_env : PaymentServiceConfig → List EnvVar
payment_env c =
    plain "STRIPE_ENABLED" c.stripe_enabled
    ∷ plain "PAYPAL_ENABLED" c.paypal_enabled
    ∷ plain "PAYPAL_ENVIRONMENT" c.paypal_environment
    ∷ plain "PAYMENT_TIMEOUT" c.payment_timeout
    ∷ plain "PAYMENT_AUTHORIZATION_TIMEOUT" c.authorization_timeout
    ∷ plain "PAYMENT_CAPTURE_TIMEOUT" c.capture_timeout
    ∷ plain "PAYMENT_MAX_RETRIES" c.max_retries
    ∷ plain "PAYMENT_CURRENCY" c.currency
    ∷ plain "PAYMENT_MIN_AMOUNT" c.min_amount
    ∷ plain "PAYMENT_MAX_AMOUNT" c.max_amount
    ∷ plain "NATS_CLUSTER_ID" c.nats_cluster_id
    ∷ plain "NATS_CLIENT_ID" c.nats_client_id
    ∷ plain "NATS_RECONNECT_WAIT" c.nats_reconnect_wait
    ∷ plain "NATS_MAX_RECONNECT_ATTEMPTS" c.nats_max_reconnect_attempts
    ∷ from_secret "STRIPE_SECRET_KEY" "payment-secret" "stripe-secret-key"
    ∷ from_secret "STRIPE_PUBLISHABLE_KEY" "payment-secret" "stripe-publishable-key"
    ∷ from_secret "STRIPE_WEBHOOK_SECRET" "payment-secret" "stripe-webhook-secret"
    ∷ from_secret "PAYPAL_CLIENT_ID" "payment-secret" "paypal-client-id"
    ∷ from_secret "PAYPAL_CLIENT_SECRET" "payment-secret" "paypal-client-secret"
    ∷ []

unfoldable pub customer_env : CustomerServiceConfig → List EnvVar
customer_env c =
    plain "REGISTRATION_REQUIRE_EMAIL_VERIFICATION" c.registration_require_email_verification
    ∷ plain "REGISTRATION_DEFAULT_MARKETING_OPT_IN" c.registration_default_marketing_opt_in
    ∷ plain "REGISTRATION_TIMEOUT" c.registration_timeout
    ∷ plain "REGISTRATION_MAX_ATTEMPTS" c.registration_max_attempts
    ∷ plain "PROFILE_ALLOW_UPDATES" c.profile_allow_updates
    ∷ plain "PROFILE_REQUIRE_VALIDATION" c.profile_require_validation
    ∷ plain "PROFILE_UPDATE_TIMEOUT" c.profile_update_timeout
    ∷ plain "PROFILE_MAX_UPDATE_ATTEMPTS" c.profile_max_update_attempts
    ∷ plain "ADDRESS_MAX_PER_CUSTOMER" c.address_max_per_customer
    ∷ plain "ADDRESS_REQUIRE_VALIDATION" c.address_require_validation
    ∷ plain "ADDRESS_VALIDATION_TIMEOUT" c.address_validation_timeout
    ∷ plain "ADDRESS_GEOCODING_ENABLED" c.address_geocoding_enabled
    ∷ plain "ADDRESS_GEOCODING_SERVICE_URL" c.address_geocoding_service_url
    ∷ plain "PREFERENCES_ALLOW_UPDATES" c.preferences_allow_updates
    ∷ plain "PREFERENCES_UPDATE_TIMEOUT" c.preferences_update_timeout
    ∷ plain "PREFERENCES_MAX_UPDATE_ATTEMPTS" c.preferences_max_update_attempts
    ∷ plain "ANALYTICS_ENABLE_ACTIVITY_TRACKING" c.analytics_enable_activity_tracking
    ∷ plain "ANALYTICS_ACTIVITY_RETENTION_PERIOD" c.analytics_activity_retention_period
    ∷ plain "ANALYTICS_METRICS_UPDATE_INTERVAL" c.analytics_metrics_update_interval
    ∷ plain "ANALYTICS_SEGMENT_UPDATE_INTERVAL" c.analytics_segment_update_interval
    ∷ plain "ANALYTICS_ENABLE_ML_SEGMENTATION" c.analytics_enable_ml_segmentation
    ∷ plain "ANALYTICS_ML_SERVICE_URL" c.analytics_ml_service_url
    ∷ plain "PRIVACY_ENABLE_DATA_EXPORT" c.privacy_enable_data_export
    ∷ plain "PRIVACY_ENABLE_DATA_DELETION" c.privacy_enable_data_deletion
    ∷ plain "PRIVACY_DATA_EXPORT_TIMEOUT" c.privacy_data_export_timeout
    ∷ plain "PRIVACY_DATA_DELETION_TIMEOUT" c.privacy_data_deletion_timeout
    ∷ plain "PRIVACY_REQUIRE_CONSENT_TRACKING" c.privacy_require_consent_tracking
    ∷ plain "PRIVACY_CONSENT_RETENTION_PERIOD" c.privacy_consent_retention_period
    ∷ plain "PRIVACY_ENABLE_OPT_OUT_REQUESTS" c.privacy_enable_opt_out_requests
    ∷ plain "PRIVACY_OPT_OUT_PROCESSING_TIMEOUT" c.privacy_opt_out_processing_timeout
    ∷ []
