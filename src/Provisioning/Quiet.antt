-- ===== src/Provisioning/Quiet.antt =====
-- Panics and saves in the methods that create collections and servers.
use pishop_operator.Base.{String, List, ◌∷◌, [], none, ◌≡◌}
use pishop_operator.Client.Rules.{Quiet, quiet}
use pishop_operator.Reconciler.{Reconciler, must_parse}
use pishop_operator.Cluster.Quiet.{create_or_update-Quiet}
use pishop_operator.Provisioning.{create_databases}
use pishop_operator.Provisioning.Queues.{create_nats_resources, create_redis_resources}
use pishop_operator.Provisioning.Collections.{
  create_product_collections, create_cart_collections, create_order_collections,
  create_payment_collections, create_customer_collections, create_inventory_collections,
  create_notification_collections, create_discount_collections, create_checkout_collections,
  create_analytics_collections, create_auth_collections, create_graphql_collections,
  create_service_collections,
}

-- The quantities that the source writes down are accepted by `resource.MustParse`.
pub record ParsesLiterals (r : Reconciler) : Type 0 where
  pub cpu_0m : r.client.parse_quantity "0m" ≡ none
  pub memory_0 : r.client.parse_quantity "0Mi" ≡ none
  pub cpu_500m : r.client.parse_quantity "500m" ≡ none
  pub memory_512 : r.client.parse_quantity "512Mi" ≡ none
  pub memory_1 : r.client.parse_quantity "1Gi" ≡ none

pub must_parse-Quiet :
    (r : Reconciler) (q : String) → r.client.parse_quantity q ≡ none → Quiet (must_parse r q)
unfolding must_parse
must_parse-Quiet r q e = rw e (search quiet)

module _ (r : Reconciler) where
  module _ (database : String) where
    product-Quiet : Quiet (create_product_collections r database)
    unfolding create_product_collections
    product-Quiet = search quiet

    cart-Quiet : Quiet (create_cart_collections r database)
    unfolding create_cart_collections
    cart-Quiet = search quiet

    order-Quiet : Quiet (create_order_collections r database)
    unfolding create_order_collections
    order-Quiet = search quiet

    payment-Quiet : Quiet (create_payment_collections r database)
    unfolding create_payment_collections
    payment-Quiet = search quiet

    customer-Quiet : Quiet (create_customer_collections r database)
    unfolding create_customer_collections
    customer-Quiet = search quiet

    inventory-Quiet : Quiet (create_inventory_collections r database)
    unfolding create_inventory_collections
    inventory-Quiet = search quiet

    notification-Quiet : Quiet (create_notification_collections r database)
    unfolding create_notification_collections
    notification-Quiet = search quiet

    discount-Quiet : Quiet (create_discount_collections r database)
    unfolding create_discount_collections
    discount-Quiet = search quiet

    checkout-Quiet : Quiet (create_checkout_collections r database)
    unfolding create_checkout_collections
    checkout-Quiet = search quiet

    analytics-Quiet : Quiet (create_analytics_collections r database)
    unfolding create_analytics_collections
    analytics-Quiet = search quiet

    auth-Quiet : Quiet (create_auth_collections r database)
    unfolding create_auth_collections
    auth-Quiet = search quiet

    graphql-Quiet : Quiet (create_graphql_collections r database)
    unfolding create_graphql_collections
    graphql-Quiet = search quiet

    create_service_collections-Quiet :
        (service : String) → Quiet (create_service_collections r database service)
    unfolding create_service_collections
    create_service_collections-Quiet service =
        search
          (
            quiet, product-Quiet, cart-Quiet, order-Quiet, payment-Quiet, customer-Quiet,
            inventory-Quiet, notification-Quiet, discount-Quiet, checkout-Quiet, analytics-Quiet,
            auth-Quiet, graphql-Quiet,
          )
          depth 14

  pub create_databases-Quiet :
      (number : String) (services : List String) → Quiet (create_databases r number services)
  unfolding create_databases
  create_databases-Quiet number [] = search quiet
  create_databases-Quiet number (service ∷ services) =
      let ih = create_databases-Quiet number services in
      search (quiet, create_service_collections-Quiet, ih)

  module _ (parses : ParsesLiterals r) where
    pub must_parse_literals-Quiet :
        Quiet (must_parse r "0m")
        × Quiet (must_parse r "0Mi")
        × Quiet (must_parse r "500m")
        × Quiet (must_parse r "512Mi")
        × Quiet (must_parse r "1Gi")
    must_parse_literals-Quiet = (
      must_parse-Quiet r _ parses.cpu_0m,
      must_parse-Quiet r _ parses.memory_0,
      must_parse-Quiet r _ parses.cpu_500m,
      must_parse-Quiet r _ parses.memory_512,
      must_parse-Quiet r _ parses.memory_1,
    )

    pub create_nats_resources-Quiet :
        (namespace : String) → Quiet (create_nats_resources r namespace)
    unfolding create_nats_resources
    create_nats_resources-Quiet namespace =
        search
          (
            quiet, create_or_update-Quiet, must_parse-Quiet, parses.cpu_0m, parses.memory_0,
            parses.cpu_500m, parses.memory_512,
          )
          depth 12

    pub create_redis_resources-Quiet :
        (namespace : String) → Quiet (create_redis_resources r namespace)
    unfolding create_redis_resources
    create_redis_resources-Quiet namespace =
        search
          (
            quiet, create_or_update-Quiet, must_parse-Quiet, parses.cpu_0m, parses.memory_0,
            parses.cpu_500m, parses.memory_512,
          )
          depth 12
