-- ===== src/Service/Names.antt =====
-- The names of the variables in a service's environment.
use pishop_operator.Base.{
  String, Bool, true, false, ◌≡◌, refl, map, str_eq, distinct, if◌then◌else◌,
}
use pishop_operator.Kube.{EnvVar}
use pishop_operator.Service.Defaults.{get_service_config}
use pishop_operator.Service.Types.{ServiceConfig}
use pishop_operator.Service.Env.{to_env_vars}
use pishop_operator.Service.Env.Front.{
  analytics_env, security_env, cart_env, order_env, payment_env, customer_env,
}
use pishop_operator.Service.Env.Back.{
  inventory_env, notification_env, discount_env, checkout_env, auth_env, graphql_env, invoice_env,
  monolith_env,
}

abbrev pub Distinct : ServiceConfig → Type 0
Distinct c = distinct (map (λ (v : EnvVar). v.name) (to_env_vars c)) ≡ true

either : (b : Bool) (x y : ServiceConfig) → Distinct x → Distinct y → Distinct (if b then x else y)
either true x y h k = h
either false x y h k = k

-- The environment of a service, whatever its name and the number of its pull request, sets no variable
-- twice.
pub to_env_vars-Distinct : (service number : String) → Distinct (get_service_config service number)
unfolding distinct to_env_vars get_service_config analytics_env security_env cart_env order_env
    payment_env customer_env inventory_env notification_env discount_env checkout_env auth_env
    graphql_env invoice_env monolith_env
to_env_vars-Distinct service number = either (str_eq service "analytics-service") _ _ refl (
    either (str_eq service "product-service") _ _ refl (
      either (str_eq service "cart-service") _ _ refl (
        either (str_eq service "order-service") _ _ refl (
          either (str_eq service "payment-service") _ _ refl (
            either (str_eq service "customer-service") _ _ refl (
              either (str_eq service "inventory-service") _ _ refl (
                either (str_eq service "notification-service") _ _ refl (
                  either (str_eq service "discount-service") _ _ refl (
                    either (str_eq service "checkout-service") _ _ refl (
                      either (str_eq service "auth-service") _ _ refl (
                        either (str_eq service "graphql-service") _ _ refl (
                          either (str_eq service "invoice-service") _ _ refl
                            (either (str_eq service "monolith-service") _ _ refl (refl))))))))))))))
