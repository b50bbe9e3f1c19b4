-- ===== src/Service/Env/Back.antt =====
-- The variables of a service's own settings: parts of `ToEnvVars`, controllers/service_config.go.
use pishop_operator.Base.{List, ◌∷◌, []}
use pishop_operator.Kube.{EnvVar}
use pishop_operator.Service.Types.Back.{
  InventoryServiceConfig, NotificationServiceConfig, DiscountServiceConfig, CheckoutServiceConfig,
  AuthServiceConfig, GraphqlServiceConfig, InvoiceServiceConfig, MonolithServiceConfig,
}
use pishop_operator.Service.Env.Var.{plain, from_secret}

unfoldable pub inventory_env : InventoryServiceConfig → List EnvVar
inventory_env c =
    plain "LOW_STOCK_ALERT_ENABLED" c.low_stock_alert_enabled
    ∷ plain "LOW_STOCK_ALERT_CHECK_INTERVAL" c.low_stock_alert_check_interval
    ∷ plain "LOW_STOCK_ALERT_DEFAULT_THRESHOLD" c.low_stock_alert_default_threshold
    ∷ plain "LOW_STOCK_ALERT_BATCH_SIZE" c.low_stock_alert_batch_size
    ∷ plain "RESERVATION_DEFAULT_CART_TTL" c.reservation_default_cart_ttl
    ∷ plain "RESERVATION_DEFAULT_ORDER_TTL" c.reservation_default_order_ttl
    ∷ plain "RESERVATION_MAX_RETRIES" c.reservation_max_retries
    ∷ plain "CLEANUP_ENABLED" c.cleanup_enabled
    ∷ plain "CLEANUP_INTERVAL" c.cleanup_interval
    ∷ plain "CLEANUP_BATCH_SIZE" c.cleanup_batch_size
    ∷ []

unfoldable pub notification_env : NotificationServiceConfig → List EnvVar
notification_env c =
    plain "EMAIL_PROVIDER" c.email_provider
    ∷ plain "SMTP_HOST" c.smtp_host
    ∷ plain "SMTP_PORT" c.smtp_port
    ∷ plain "SMS_PROVIDER" c.sms_provider
    ∷ plain "PUSH_NOTIFICATION_ENABLED" c.push_notification_enabled
    ∷ plain "EMAIL_ENABLED" c.email_enabled
    ∷ plain "SMS_ENABLED" c.sms_enabled
    ∷ plain "TEMPLATE_PATH" c.template_path
    ∷ from_secret "SMTP_USERNAME" "notification-secret" "smtp-username"
    ∷ from_secret "SMTP_PASSWORD" "notification-secret" "smtp-password"
    ∷ from_secret "TWILIO_ACCOUNT_SID" "notification-secret" "twilio-account-sid"
    ∷ from_secret "TWILIO_AUTH_TOKEN" "notification-secret" "twilio-auth-token"
    ∷ []

unfoldable pub discount_env : DiscountServiceConfig → List EnvVar
discount_env c =
    plain "MAX_DISCOUNT_PERCENTAGE" c.max_discount_percentage
    ∷ plain "MIN_ORDER_AMOUNT" c.min_order_amount
    ∷ plain "MAX_USAGE_PER_CUSTOMER" c.max_usage_per_customer
    ∷ plain "MAX_USAGE_TOTAL" c.max_usage_total
    ∷ plain "EXPIRATION_CHECK_INTERVAL" c.expiration_check_interval
    ∷ plain "AUTO_EXPIRE_ENABLED" c.auto_expire_enabled
    ∷ plain "STACKABLE_DISCOUNTS" c.stackable_discounts
    ∷ plain "EXCLUSIVE_DISCOUNTS" c.exclusive_discounts
    ∷ []

unfoldable pub checkout_env : CheckoutServiceConfig → List EnvVar
checkout_env c =
    plain "CHECKOUT_TIMEOUT" c.checkout_timeout
    ∷ plain "PAYMENT_TIMEOUT" c.payment_timeout
    ∷ plain "INVENTORY_TIMEOUT" c.inventory_timeout
    ∷ plain "SHIPPING_TIMEOUT" c.shipping_timeout
    ∷ plain "TAX_CALCULATION_ENABLED" c.tax_calculation_enabled
    ∷ plain "SHIPPING_CALCULATION_ENABLED" c.shipping_calculation_enabled
    ∷ plain "GUEST_CHECKOUT_ENABLED" c.guest_checkout_enabled
    ∷ plain "AUTO_APPLY_DISCOUNTS" c.auto_apply_discounts
    ∷ plain "REQUIRE_SHIPPING_ADDRESS" c.require_shipping_address
    ∷ []

unfoldable pub auth_env : AuthServiceConfig → List EnvVar
auth_env c =
    plain "JWT_EXPIRATION" c.jwt_expiration
    ∷ plain "REFRESH_TOKEN_EXPIRATION" c.refresh_token_expiration
    ∷ plain "PASSWORD_MIN_LENGTH" c.password_min_length
    ∷ plain "REQUIRE_EMAIL_VERIFICATION" c.require_email_verification
    ∷ plain "MAX_LOGIN_ATTEMPTS" c.max_login_attempts
    ∷ plain "LOCKOUT_DURATION" c.lockout_duration
    ∷ plain "OAUTH_PROVIDERS" c.oauth_providers
    ∷ plain "SESSION_TIMEOUT" c.session_timeout
    ∷ plain "TOKEN_REFRESH_ENABLED" c.token_refresh_enabled
    ∷ from_secret "JWT_SECRET" "auth-secret" "jwt-secret"
    ∷ []

unfoldable pub graphql_env : GraphqlServiceConfig → List EnvVar
graphql_env c =
    plain "GRAPHQL_PLAYGROUND_ENABLED" c.playground_enabled
    ∷ plain "GRAPHQL_INTROSPECTION_ENABLED" c.introspection_enabled
    ∷ plain "GRAPHQL_COMPLEXITY_LIMIT" c.complexity_limit
    ∷ plain "GRAPHQL_QUERY_TIMEOUT" c.query_timeout
    ∷ plain "GRAPHQL_MAX_QUERY_DEPTH" c.max_query_depth
    ∷ plain "GRAPHQL_MAX_QUERY_COMPLEXITY" c.max_query_complexity
    ∷ []

unfoldable pub invoice_env : InvoiceServiceConfig → List EnvVar
invoice_env c =
    plain "INVOICE_DEFAULT_CURRENCY" c.default_currency
    ∷ plain "INVOICE_PREFIX" c.invoice_prefix
    ∷ plain "INVOICE_DUE_DATE_DAYS" c.due_date_days
    ∷ plain "INVOICE_LATE_FEE_PERCENTAGE" c.late_fee_percentage
    ∷ plain "INVOICE_TAX_RATE" c.tax_rate
    ∷ plain "INVOICE_AUTO_GENERATE_ENABLED" c.auto_generate_enabled
    ∷ plain "INVOICE_PDF_TEMPLATE_PATH" c.pdf_template_path
    ∷ plain "INVOICE_EMAIL_ENABLED" c.email_enabled
    ∷ []

unfoldable pub monolith_env : MonolithServiceConfig → List EnvVar
monolith_env c =
    plain "EMBEDDED_NATS_PORT" c.embedded_nats_port
    ∷ plain "EMBEDDED_NATS_JETSTREAM" c.embedded_nats_jetstream
    ∷ plain "EMBEDDED_NATS_DATA_DIR" c.embedded_nats_data_dir
    ∷ plain "EMBEDDED_NATS_LOG_LEVEL" c.embedded_nats_log_level
    ∷ plain "EMBEDDED_NATS_DEBUG" c.embedded_nats_debug
    ∷ plain "EMBEDDED_NATS_TRACE" c.embedded_nats_trace
    ∷ []
