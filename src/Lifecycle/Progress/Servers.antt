-- ===== src/Lifecycle/Progress/Servers.antt =====
-- The methods that create collections and servers, in a world without errors.
use pishop_operator.Base.{String, List, ◌∷◌, [], All}
use pishop_operator.Kube.{Object, Kind}
use pishop_operator.Client.{Call, perform}
use pishop_operator.Reconciler.{Reconciler}
use pishop_operator.Naming.{default_services, get_database_name}
use pishop_operator.Cluster.{create_or_update, create_namespace}
use pishop_operator.Provisioning.{create_databases}
use pishop_operator.Provisioning.Queues.{create_nats_resources, create_redis_resources}
use pishop_operator.Provisioning.Collections.{
  create_product_collections, create_cart_collections, create_order_collections,
  create_payment_collections, create_customer_collections, create_inventory_collections,
  create_notification_collections, create_discount_collections, create_checkout_collections,
  create_analytics_collections, create_auth_collections, create_graphql_collections,
  create_service_collections,
}
use pishop_operator.Lifecycle.Progress.Rules.{
  IsFirm, Smooth-upsert, Smooth-namespace, Works, Smooth, Smooth-call, smooth,
}

module _ (r : Reconciler) (works : Works r) where
  call-Smooth : (c : Call) → IsFirm c → Smooth (perform r.client c)
  call-Smooth c firm = Smooth-call r works c firm

  ruleset servers = (smooth, call-Smooth, tt)

  pub create_or_update-Smooth : (o : Object) → Smooth (create_or_update r o)
  unfolding create_or_update
  create_or_update-Smooth o = Smooth-upsert r works o

  pub create_namespace-Smooth : (name : String) → Smooth (create_namespace r name)
  unfolding create_namespace
  create_namespace-Smooth name =
      Smooth-namespace r works Kind.namespace_kind "" name (Object.namespace name)

  module _ (database : String) where
    product-Smooth : Smooth (create_product_collections r database)
    unfolding create_product_collections
    product-Smooth = search servers depth 12

    cart-Smooth : Smooth (create_cart_collections r database)
    unfolding create_cart_collections
    cart-Smooth = search servers depth 12

    order-Smooth : Smooth (create_order_collections r database)
    unfolding create_order_collections
    order-Smooth = search servers depth 12

    payment-Smooth : Smooth (create_payment_collections r database)
    unfolding create_payment_collections
    payment-Smooth = search servers depth 12

    customer-Smooth : Smooth (create_customer_collections r database)
    unfolding create_customer_collections
    customer-Smooth = search servers depth 12

    inventory-Smooth : Smooth (create_inventory_collections r database)
    unfolding create_inventory_collections
    inventory-Smooth = search servers depth 12

    notification-Smooth : Smooth (create_notification_collections r database)
    unfolding create_notification_collections
    notification-Smooth = search servers depth 12

    discount-Smooth : Smooth (create_discount_collections r database)
    unfolding create_discount_collections
    discount-Smooth = search servers depth 12

    checkout-Smooth : Smooth (create_checkout_collections r database)
    unfolding create_checkout_collections
    checkout-Smooth = search servers depth 12

    analytics-Smooth : Smooth (create_analytics_collections r database)
    unfolding create_analytics_collections
    analytics-Smooth = search servers depth 12

    auth-Smooth : Smooth (create_auth_collections r database)
    unfolding create_auth_collections
    auth-Smooth = search servers depth 12

    graphql-Smooth : Smooth (create_graphql_collections r database)
    unfolding create_graphql_collections
    graphql-Smooth = search servers depth 12

  abbrev Collects : String → Type 0
  Collects service = (database : String) → Smooth (create_service_collections r database service)

  Collects-table : All Collects default_services
  unfolding create_service_collections
  Collects-table = (
    product-Smooth,
    (
      cart-Smooth,
      (
        order-Smooth,
        (
          payment-Smooth,
          (
            customer-Smooth,
            (
              inventory-Smooth,
              (
                notification-Smooth,
                (
                  discount-Smooth,
                  (checkout-Smooth, (analytics-Smooth, (auth-Smooth, (graphql-Smooth, tt)))),
                ),
              ),
            ),
          ),
        ),
      ),
    ),
  )

  create_databases-Smooth :
      (number : String) (services : List String)
      → All Collects services
      → Smooth (create_databases r number services)
  unfolding create_databases
  create_databases-Smooth number [] h = search servers
  create_databases-Smooth number (service ∷ services) h =
      let ih = create_databases-Smooth number services h.1 in
      let first = h.0 (get_database_name service number) in search (servers, first, ih)

  pub default_databases-Smooth :
      (number : String) → Smooth (create_databases r number default_services)
  default_databases-Smooth number = create_databases-Smooth number default_services Collects-table

  pub create_nats_resources-Smooth :
      (namespace : String) → Smooth (create_nats_resources r namespace)
  unfolding create_nats_resources
  create_nats_resources-Smooth namespace = search (servers, create_or_update-Smooth) depth 12

  pub create_redis_resources-Smooth :
      (namespace : String) → Smooth (create_redis_resources r namespace)
  unfolding create_redis_resources
  create_redis_resources-Smooth namespace = search (servers, create_or_update-Smooth) depth 12
