-- ===== src/Service/Env.antt =====
-- `ToEnvVars` of controllers/service_config.go: the environment of a service's container.
pub mod Var
pub mod Front
pub mod Back
use pishop_operator.Base.{List, ◌∷◌, [], ◌++◌, Option, none, some, if◌then◌else◌, str_eq, itoa}
use pishop_operator.Kube.{EnvVar}
use pishop_operator.Service.Types.{ServiceConfig}
use pishop_operator.Service.Env.Var.{plain, from_secret}
use pishop_operator.Service.Env.Front.{
  analytics_env, security_env, cart_env, order_env, payment_env, customer_env,
}
use pishop_operator.Service.Env.Back.{
  inventory_env, notification_env, discount_env, checkout_env, auth_env, graphql_env, invoice_env,
  monolith_env,
}

-- The variables of an optional part: none where the pointer is nil.
abbrev part_env : {A : Type 0} → (A → List EnvVar) → Option A → List EnvVar
part_env f none = []
part_env f (some c) = f c

-- The first literal, and the two credentials appended to it.
unfoldable pub base_env : ServiceConfig → List EnvVar
base_env sc =
    plain "SERVICE_NAME" sc.service_name
    ∷ plain "ENVIRONMENT" sc.environment
    ∷ plain "LOG_LEVEL" sc.log_level
    ∷ plain "VERSION" sc.version
    ∷ plain "SERVICE_PORT" (itoa sc.server_port)
    ∷ plain "SERVER_READ_TIMEOUT" sc.read_timeout
    ∷ plain "SERVER_WRITE_TIMEOUT" sc.write_timeout
    ∷ plain "SERVER_IDLE_TIMEOUT" sc.idle_timeout
    ∷ plain "MONGODB_URI" sc.mongo_db_uri
    ∷ plain "MONGODB_DATABASE" sc.mongo_db_database
    ∷ plain "MONGODB_TIMEOUT" sc.mongo_db_timeout
    ∷ plain "MONGODB_MAX_POOL_SIZE" sc.mongo_db_max_pool_size
    ∷ plain "MONGODB_MIN_POOL_SIZE" sc.mongo_db_min_pool_size
    ∷ plain "REDIS_URL" sc.redis_url
    ∷ plain "REDIS_DATABASE" sc.redis_database
    ∷ plain "REDIS_TIMEOUT" sc.redis_timeout
    ∷ plain "NATS_URL" sc.nats_url
    ∷ plain "NATS_TIMEOUT" sc.nats_timeout
    ∷ plain "METRICS_ENABLED" sc.metrics_enabled
    ∷ plain "METRICS_PORT" sc.metrics_port
    ∷ plain "METRICS_PATH" sc.metrics_path
    ∷ plain "TRACING_ENABLED" sc.tracing_enabled
    ∷ plain "TRACING_SERVICE_NAME" sc.tracing_service_name
    ∷ plain "TRACING_ENDPOINT" sc.tracing_endpoint
    ∷ plain "TRACING_SAMPLE_RATE" sc.tracing_sample_rate
    ∷ plain "HEALTH_ENABLED" sc.health_enabled
    ∷ plain "HEALTH_PORT" sc.health_port
    ∷ plain "HEALTH_PATH" sc.health_path
    ∷ plain "EVENTS_PUBLISH_INTERVAL" sc.events_publish_interval
    ∷ plain "EVENTS_BATCH_SIZE" sc.events_batch_size
    ∷ plain "EVENTS_RETRY_ATTEMPTS" sc.events_retry_attempts
    ∷ plain "EVENTS_RETRY_DELAY" sc.events_retry_delay
    ∷ plain "CONNECTION_POOL_MAX_CONNECTIONS" sc.connection_pool_max_connections
    ∷ plain "CONNECTION_POOL_MIN_CONNECTIONS" sc.connection_pool_min_connections
    ∷ plain "CONNECTION_POOL_CONNECTION_TIMEOUT" sc.connection_pool_connection_timeout
    ∷ plain "CONNECTION_POOL_IDLE_TIMEOUT" sc.connection_pool_idle_timeout
    ∷ plain "CONNECTION_POOL_MAX_LIFETIME" sc.connection_pool_max_lifetime
    ∷ plain "RATE_LIMITING_ENABLED" sc.rate_limiting_enabled
    ∷ plain "RATE_LIMITING_REQUESTS_PER" sc.rate_limiting_requests_per
    ∷ plain "RATE_LIMITING_WINDOW_SIZE" sc.rate_limiting_window_size
    ∷ plain "REQUEST_TIMEOUT" sc.timeout_request_timeout
    ∷ plain "RESPONSE_TIMEOUT" sc.timeout_response_timeout
    ∷ plain "GRACEFUL_SHUTDOWN" sc.timeout_graceful_shutdown
    ∷ from_secret "MONGODB_USERNAME" "mongodb-secret" "username"
    ∷ from_secret "MONGODB_PASSWORD" "mongodb-secret" "password"
    ∷ []

-- Credentials that are added only where they are configured.
unfoldable pub credential_env : ServiceConfig → List EnvVar
credential_env sc =
    (if str_eq sc.redis_password ""
      then []
      else from_secret "REDIS_PASSWORD" "redis-secret" "password" ∷ [])
    ++ (if str_eq sc.nats_username ""
        then []
        else from_secret "NATS_USERNAME" "nats-secret" "username" ∷ [])
    ++ (if str_eq sc.nats_password ""
        then []
        else from_secret "NATS_PASSWORD" "nats-secret" "password" ∷ [])

-- The parts of the services, in the order of the source.
unfoldable pub service_env : ServiceConfig → List EnvVar
service_env sc =
    part_env analytics_env sc.analytics_config
    ++ (part_env security_env sc.security_config
        ++ (part_env cart_env sc.cart_config
            ++ (part_env order_env sc.order_config
                ++ (part_env payment_env sc.payment_config
                    ++ (part_env customer_env sc.customer_config
                        ++ (part_env inventory_env sc.inventory_config
                            ++ (part_env notification_env sc.notification_config
                                ++ (part_env discount_env sc.discount_config
                                    ++ (part_env checkout_env sc.checkout_config
                                        ++ (part_env auth_env sc.auth_config
                                            ++ (part_env graphql_env sc.graphql_config
                                                ++ (part_env invoice_env sc.invoice_config
                                                    ++ (part_env monolith_env
                                                        sc.monolith_config)))))))))))))

unfoldable pub to_env_vars : ServiceConfig → List EnvVar
unfolding base_env credential_env service_env
to_env_vars sc = base_env sc ++ (credential_env sc ++ service_env sc)
