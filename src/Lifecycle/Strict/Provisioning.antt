-- ===== src/Lifecycle/Strict/Provisioning.antt =====
-- Errors of the calls in the methods of the provisioning.
use pishop_operator.Base.{String, List, ◌∷◌, [], Option, none, some, Bool, refl}
use pishop_operator.Kube.{Kind, Object}
use pishop_operator.Client.{
  Call, Error, ◌>>=◌, ◌>>◌, pure, perform, is_not_found, is_already_exists, update_status,
}
use pishop_operator.Reconciler.{Reconciler, Reply, ReconcileResult, call, save_status}
use pishop_operator.Naming.{get_database_name}
use pishop_operator.Conditions.{
  set_condition, set_condition_now, set_progressing_condition, record_provisioning_error,
}
use pishop_operator.Cluster.{create_or_update, create_namespace}
use pishop_operator.Provisioning.{
  generate_secure_password, create_databases, provision_connected, provision_mongo_db,
  provision_nats, provision_redis,
}
use pishop_operator.Provisioning.Collections.{
  create_product_collections, create_cart_collections, create_order_collections,
  create_payment_collections, create_customer_collections, create_inventory_collections,
  create_notification_collections, create_discount_collections, create_checkout_collections,
  create_analytics_collections, create_auth_collections, create_graphql_collections,
  create_service_collections,
}
use pishop_operator.Stack.Secrets.{create_mongo_db_secret}
use pishop_operator.Lifecycle.Provision.{finish_provisioning, handle_provisioning}
use pishop_operator.Lifecycle.Progress.Rules.{WhenDone-bind}
use pishop_operator.Lifecycle.Strict.{
  IsExcused, CleanAfter, add, Spotless, Spotless-pure, Spotless-modify, Spotless-put,
  Spotless-record, Spotless-bind, Spotless-maybe, Spotless-if, Spotless-get, Strict, Strict-bind,
  Strict-get, Strict-pure, Strict-if, Strict-maybe, Strict-reply, Strict-attempt, Strict-call,
  Strict-excused, Fails, Fails-bind, Fails-some, Fails-Strict, itself,
}

module _ (r : Reconciler) where
  ruleset spotless = (
    Spotless-pure, Spotless-modify, Spotless-put, Spotless-record, Spotless-maybe, Spotless-if,
    Spotless-get, Spotless-bind, tt,
  )

  ignored-Spotless : (c : Call) → ((e : Error) → IsExcused c e) → Spotless r (perform r.client c)
  ignored-Spotless c h = search (spotless, h)

  event-Spotless :
      (w : Bool) (reason message : String)
      → Spotless r (perform r.client (Call.event w reason message))
  event-Spotless w reason message = ignored-Spotless (Call.event w reason message) λ e. tt

  indexes-Spotless :
      (d c : String) (ms : _) → Spotless r (perform r.client (Call.create_indexes d c ms))
  indexes-Spotless d c ms = ignored-Spotless (Call.create_indexes d c ms) λ e. tt

  drop_user-Spotless : (u : String) → Spotless r (perform r.client (Call.drop_user u))
  drop_user-Spotless u = ignored-Spotless (Call.drop_user u) λ e. tt

  some-Strict : (e : Error) → Strict r (itself r) (pure (some e))
  some-Strict e = Fails-Strict r (itself r) (pure (some e)) (Fails-some r e)

  ruleset strict = (
    some-Strict, Strict-maybe, Strict-attempt, Strict-get, Strict-if, Strict-call, Strict-pure,
    Strict-bind, Fails-some, event-Spotless, indexes-Spotless, drop_user-Spotless, Spotless-pure,
    Spotless-modify, Spotless-bind, tt,
  )

  create_or_update-Strict : (o : Object) → Strict r (itself r) (create_or_update r o)
  unfolding create_or_update
  create_or_update-Strict o =
      Strict-excused r (Call.create o) is_already_exists (λ e. e) (call r (Call.update o))
        (pure none) (λ e h. h) (Strict-call r (Call.update o)) (Strict-pure r (itself r) none)

  create_namespace-Strict : (name : String) → Strict r (itself r) (create_namespace r name)
  unfolding create_namespace
  create_namespace-Strict name =
      Strict-excused r (Call.get Kind.namespace_kind "" name) is_not_found (λ e. e)
        (call r (Call.create (Object.namespace name))) (pure none) (λ e h. h)
        (Strict-call r (Call.create (Object.namespace name))) (Strict-pure r (itself r) none)

  create_mongo_db_secret-Strict : Strict r (itself r) (create_mongo_db_secret r)
  unfolding create_mongo_db_secret
  create_mongo_db_secret-Strict = search (strict, create_or_update-Strict) depth 10

  module _ (database : String) where
    product-Strict : Strict r (itself r) (create_product_collections r database)
    unfolding create_product_collections
    product-Strict = search strict depth 14

    cart-Strict : Strict r (itself r) (create_cart_collections r database)
    unfolding create_cart_collections
    cart-Strict = search strict depth 14

    order-Strict : Strict r (itself r) (create_order_collections r database)
    unfolding create_order_collections
    order-Strict = search strict depth 14

    payment-Strict : Strict r (itself r) (create_payment_collections r database)
    unfolding create_payment_collections
    payment-Strict = search strict depth 14

    customer-Strict : Strict r (itself r) (create_customer_collections r database)
    unfolding create_customer_collections
    customer-Strict = search strict depth 14

    inventory-Strict : Strict r (itself r) (create_inventory_collections r database)
    unfolding create_inventory_collections
    inventory-Strict = search strict depth 14

    notification-Strict : Strict r (itself r) (create_notification_collections r database)
    unfolding create_notification_collections
    notification-Strict = search strict depth 14

    discount-Strict : Strict r (itself r) (create_discount_collections r database)
    unfolding create_discount_collections
    discount-Strict = search strict depth 14

    checkout-Strict : Strict r (itself r) (create_checkout_collections r database)
    unfolding create_checkout_collections
    checkout-Strict = search strict depth 14

    analytics-Strict : Strict r (itself r) (create_analytics_collections r database)
    unfolding create_analytics_collections
    analytics-Strict = search strict depth 14

    auth-Strict : Strict r (itself r) (create_auth_collections r database)
    unfolding create_auth_collections
    auth-Strict = search strict depth 14

    graphql-Strict : Strict r (itself r) (create_graphql_collections r database)
    unfolding create_graphql_collections
    graphql-Strict = search strict depth 14

    create_service_collections-Strict :
        (service : String) → Strict r (itself r) (create_service_collections r database service)
    unfolding create_service_collections
    create_service_collections-Strict service =
        search
          (
            some-Strict, Strict-if, product-Strict, cart-Strict, order-Strict, payment-Strict,
            customer-Strict, inventory-Strict, notification-Strict, discount-Strict,
            checkout-Strict, analytics-Strict, auth-Strict, graphql-Strict,
          )
          depth 16

  create_databases-Strict :
      (number : String) (services : List String)
      → Strict r (itself r) (create_databases r number services)
  unfolding create_databases
  create_databases-Strict number [] = search strict
  create_databases-Strict number (service ∷ services) =
      Strict-attempt r (itself r) _ _ _
        (create_service_collections-Strict (get_database_name service number) service)
        (λ e. Fails-some r _) (create_databases-Strict number services)

  save_status-Strict : Strict r (itself r) (save_status r)
  unfolding save_status
  save_status-Strict = Strict-get r (itself r) _ λ x.
      Strict-reply r (itself r) (update_status x) _ _
        (λ l.
          Strict-bind r (itself r) _ _ (Spotless-put r (r.client.stack l))
            λ _. Strict-pure r (itself r) none)
        (λ e. Fails-some r e)

  provision_connected-Strict : Strict r (itself r) (provision_connected r)
  unfolding provision_connected generate_secure_password
  provision_connected-Strict =
      let reply = Strict-reply r (itself r) in
      search (strict, reply, save_status-Strict, create_databases-Strict) depth 18

  provision_mongo_db-Strict : Strict r (itself r) (provision_mongo_db r)
  unfolding provision_mongo_db
  provision_mongo_db-Strict =
      Strict-get r (itself r) _
        λ x. Strict-attempt r (itself r) _ _ _ (Strict-call r _) (λ e. Fails-some r _) disconnected
    where
      disconnected :
          Strict r
            (itself r)
            (provision_connected r >>= λ err. call r Call.mongo_disconnect >> pure err)
      disconnected = record {
        run = λ s.
            WhenDone-bind (CleanAfter r (itself r) s) (CleanAfter r (itself r) s)
              (provision_connected r) _ s (provision_connected-Strict.run s)
              λ o t g e. add Call.mongo_disconnect (λ _ _. tt) (g e);
      }

  provision_nats-Strict : Strict r (itself r) (provision_nats r)
  unfolding provision_nats
  provision_nats-Strict = search strict

  provision_redis-Strict : Strict r (itself r) (provision_redis r)
  unfolding provision_redis
  provision_redis-Strict = search strict

  set_progressing_condition-Spotless :
      (reason message : String) → Spotless r (set_progressing_condition r reason message)
  unfolding set_progressing_condition set_condition_now set_condition
  set_progressing_condition-Spotless reason message = search spotless depth 12

  abbrev pub reply_error : Reply → Option Error
  reply_error reply = reply.1

  reply-Fails : (x : ReconcileResult) (e : Error) → Fails r reply_error (pure (x, some e))
  reply-Fails x e = record { run = λ s. refl }

  record_provisioning_error-Fails :
      (component : String) (e : Error)
      → Fails r reply_error (record_provisioning_error r component e)
  unfolding record_provisioning_error
  record_provisioning_error-Fails component e = search (Fails-bind, reply-Fails)

  finish_provisioning-Strict : Strict r reply_error (finish_provisioning r)
  unfolding finish_provisioning
  finish_provisioning-Strict =
      search (strict, save_status-Strict, reply-Fails, set_progressing_condition-Spotless) depth 12

  -- The provisioning returns no error only where no call had one but those that are passed over.
  pub handle_provisioning-Strict : Strict r reply_error (handle_provisioning r)
  unfolding handle_provisioning
  handle_provisioning-Strict =
      search
        (
          strict, set_progressing_condition-Spotless, create_namespace-Strict,
          provision_mongo_db-Strict, create_mongo_db_secret-Strict, provision_nats-Strict,
          provision_redis-Strict, record_provisioning_error-Fails, finish_provisioning-Strict,
        )
        depth 16
