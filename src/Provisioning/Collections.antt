-- ===== src/Provisioning/Collections.antt =====
-- The collections and indexes of each service's database: `createServiceCollections` and the twelve
-- functions that it calls, controllers/provisioning.go. A key is ascending; most errors are dropped.
use pishop_operator.Base.{
  String, ◌∷◌, [], Option, none, some, true, false, concat, if◌then◌else◌, str_eq,
}
use pishop_operator.Client.{Error, Reason, Call, IndexModel, Go, ◌>>◌, pure, attempt, errorf}
use pishop_operator.Reconciler.{Reconciler, call}

abbrev index : String → IndexModel
index k = record { key = k; unique = false }

abbrev unique_index : String → IndexModel
unique_index k = record { key = k; unique = true }

module _ (r : Reconciler) (database : String) where
  unfoldable pub create_product_collections : Go (Option Error)
  create_product_collections = do
    attempt
        (call r (
          Call.create_indexes database "products" (
            unique_index "slug"
            ∷ unique_index "sku"
            ∷ index "category_id"
            ∷ index "is_active"
            ∷ [])))
        (λ e. pure (some e))
        do
          call r (Call.create_indexes database "categories" (unique_index "slug" ∷ []))
          call r (Call.create_indexes database "collections" (unique_index "slug" ∷ []))
          pure none

  unfoldable pub create_cart_collections : Go (Option Error)
  create_cart_collections = do
    call r (Call.create_indexes database "carts" (unique_index "user_id" ∷ index "session_id" ∷ []))
    call r (Call.create_indexes database "cart_items" (index "cart_id" ∷ []))
    pure none

  unfoldable pub create_order_collections : Go (Option Error)
  create_order_collections = do
    call r (
        Call.create_indexes database "orders" (
          unique_index "order_number" ∷ index "user_id" ∷ index "status" ∷ index "created_at" ∷ []))
    call r (Call.create_indexes database "order_items" (index "order_id" ∷ []))
    call r (Call.create_indexes database "order_status_history" (index "order_id" ∷ []))
    pure none

  unfoldable pub create_payment_collections : Go (Option Error)
  create_payment_collections = do
    call r (
        Call.create_indexes database "payments"
          (index "order_id" ∷ index "user_id" ∷ index "status" ∷ []))
    call r (Call.create_indexes database "payment_methods" (index "user_id" ∷ []))
    call r (Call.create_indexes database "payment_transactions" (index "payment_id" ∷ []))
    pure none

  unfoldable pub create_customer_collections : Go (Option Error)
  create_customer_collections = do
    call r (
        Call.create_indexes database "customers"
          (unique_index "email" ∷ unique_index "user_id" ∷ []))
    call r (Call.create_indexes database "customer_addresses" (index "customer_id" ∷ []))
    call r (Call.create_indexes database "customer_preferences" (index "customer_id" ∷ []))
    pure none

  unfoldable pub create_inventory_collections : Go (Option Error)
  create_inventory_collections = do
    call r (
        Call.create_indexes database "inventory_items"
          (unique_index "product_id" ∷ index "sku" ∷ []))
    call r (
        Call.create_indexes database "stock_movements"
          (index "product_id" ∷ index "created_at" ∷ []))
    call r (Call.create_indexes database "reservations" (index "product_id" ∷ []))
    pure none

  unfoldable pub create_notification_collections : Go (Option Error)
  create_notification_collections = do
    call r (
        Call.create_indexes database "notifications"
          (index "user_id" ∷ index "type" ∷ index "status" ∷ index "created_at" ∷ []))
    call r (Call.create_indexes database "notification_templates" (index "type" ∷ []))
    call r (Call.create_indexes database "notification_preferences" (index "user_id" ∷ []))
    pure none

  unfoldable pub create_discount_collections : Go (Option Error)
  create_discount_collections = do
    call r (
        Call.create_indexes database "discounts"
          (unique_index "code" ∷ index "is_active" ∷ index "valid_from" ∷ index "valid_until" ∷ []))
    call r (Call.create_indexes database "discount_usage" (index "discount_id" ∷ []))
    call r (Call.create_indexes database "promotion_codes" (unique_index "code" ∷ []))
    pure none

  unfoldable pub create_checkout_collections : Go (Option Error)
  create_checkout_collections = do
    call r (
        Call.create_indexes database "checkout_sessions"
          (unique_index "session_id" ∷ index "user_id" ∷ index "status" ∷ []))
    call r (Call.create_indexes database "checkout_steps" (index "session_id" ∷ []))
    call r (Call.create_indexes database "shipping_options" (index "is_active" ∷ []))
    pure none

  unfoldable pub create_analytics_collections : Go (Option Error)
  create_analytics_collections = do
    attempt
        (call r (
          Call.create_indexes database "analytics"
            (index "created_at" ∷ index "event_type" ∷ index "user_id" ∷ [])))
        (λ e. pure (some (errorf "failed to create analytics indexes: " e))) do pure none

  unfoldable pub create_auth_collections : Go (Option Error)
  create_auth_collections = do
    attempt
        (call r (
          Call.create_indexes database "users"
            (unique_index "email" ∷ unique_index "username" ∷ index "created_at" ∷ [])))
        (λ e. pure (some (errorf "failed to create auth indexes: " e))) do pure none

  unfoldable pub create_graphql_collections : Go (Option Error)
  create_graphql_collections = do
    attempt
        (call r
          (Call.create_indexes database "queries" (index "created_at" ∷ index "operation" ∷ [])))
        (λ e. pure (some (errorf "failed to create graphql indexes: " e))) do pure none

  -- Both switches of the source: a service's collection name selects the function of that name.
  unfoldable pub create_service_collections : String → Go (Option Error)
  create_service_collections service =
      if str_eq service "product-service"
      then create_product_collections
      else if str_eq service "cart-service"
      then create_cart_collections
      else if str_eq service "order-service"
      then create_order_collections
      else if str_eq service "payment-service"
      then create_payment_collections
      else if str_eq service "customer-service"
      then create_customer_collections
      else if str_eq service "inventory-service"
      then create_inventory_collections
      else if str_eq service "notification-service"
      then create_notification_collections
      else if str_eq service "discount-service"
      then create_discount_collections
      else if str_eq service "checkout-service"
      then create_checkout_collections
      else if str_eq service "analytics-service"
      then create_analytics_collections
      else if str_eq service "auth-service"
      then create_auth_collections
      else if str_eq service "graphql-service"
      then create_graphql_collections
      else pure (
          some (record {
            reason = Reason.unspecified;
            text = concat ("unknown service: " ∷ service ∷ []);
          }))
