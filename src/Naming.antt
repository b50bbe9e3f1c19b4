-- ===== src/Naming.antt =====
-- Names derived from a pull request's number: namespaces, databases, users, subjects and prefixes.
-- controllers/constants.go, and the name builders of controllers/prstack_controller.go,
-- controllers/provisioning.go, controllers/cleanup.go and controllers/service_config.go.
pub mod Isolation
pub mod Tables
use Prim.Native.String.{len, slice}
use pishop_operator.Base.{ℕ, String, concat, str_eq, ltb, if◌then◌else◌, ◌-◌, ◌&&◌, List, ◌∷◌, []}

abbrev pub default_services : List String
default_services =
    "product-service" ∷ "cart-service" ∷ "order-service" ∷ "payment-service" ∷ "customer-service"
    ∷ "inventory-service" ∷ "notification-service" ∷ "discount-service" ∷ "checkout-service"
    ∷ "analytics-service" ∷ "auth-service" ∷ "graphql-service" ∷ []

abbrev pub default_services_string : String
default_services_string =
    "product-service,cart-service,order-service,payment-service,customer-service,inventory-service,notification-service,discount-service,checkout-service,analytics-service,auth-service,graphql-service"

-- `fmt.Sprintf(NamespacePattern, prNumber)`
unfoldable pub get_namespace_name : String → String
get_namespace_name pr_number = concat ("pr-" ∷ pr_number ∷ "-shop-pilab-hu" ∷ [])

-- The service's name without its suffix `-service`, if a text is left.
unfoldable pub database_base : String → String
database_base service_name =
    if ltb 8 (len service_name)
      && str_eq (slice service_name (len service_name - 8) (len service_name)) "-service"
    then slice service_name 0 (len service_name - 8)
    else service_name

unfoldable pub get_database_name : String → String → String
get_database_name service_name pr_number =
    concat ("pishop_" ∷ database_base service_name ∷ "_pr_" ∷ pr_number ∷ [])

-- The name that `cleanupMongoDB` drops for a service.
unfoldable pub cleanup_database_name : String → String → String
cleanup_database_name service pr_number = concat ("pishop_" ∷ service ∷ "_pr_" ∷ pr_number ∷ [])

unfoldable pub pr_user : String → String
pr_user pr_number = concat ("pishop_pr_" ∷ pr_number ∷ [])

unfoldable pub subject_prefix : String → String
subject_prefix pr_number = concat ("pishop.pr." ∷ pr_number ∷ [])

unfoldable pub nats_url : String → String
nats_url namespace = concat ("nats://nats." ∷ namespace ∷ ".svc.cluster.local:4222" ∷ [])

unfoldable pub key_prefix : String → String
key_prefix pr_number = concat ("pishop:pr:" ∷ pr_number ∷ ":" ∷ [])

unfoldable pub redis_url : String → String
redis_url namespace = concat ("redis://redis." ∷ namespace ∷ ".svc.cluster.local:6379" ∷ [])

unfoldable pub mongo_url : String → String → String
mongo_url user password =
    concat
      ("mongodb://" ∷ user ∷ ":" ∷ password ∷ "@mongodb.pishop-base.svc.cluster.local:27017" ∷ [])
