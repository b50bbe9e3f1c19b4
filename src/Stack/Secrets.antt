-- ===== src/Stack/Secrets.antt =====
-- Credentials and addresses: `createMongoDBSecret` of controllers/prstack_controller.go,
-- `createMongoDBResources` and `createRegistrySecret` of controllers/stack_provisioning.go, and the
-- maps of controllers/service_config.go.
use Prim.Native.String.{len, slice}
use pishop_operator.Base.{
  String, List, ◌∷◌, [], ◌-◌, Option, none, some, ◌||◌, concat, leb, ◌&&◌, str_eq, if◌then◌else◌,
}
use pishop_operator.Kube.{Entries, Object}
use pishop_operator.Api.{MongoDbCredentials, NatsConfig, RedisConfig}
use pishop_operator.Client.{
  maybe, Error, Reason, Go, ◌>>=◌, pure, crash, attempt, get_object, wrap, errorf,
}
use pishop_operator.Naming.{default_services, get_database_name}
use pishop_operator.Reconciler.{Reconciler, namespace_of}
use pishop_operator.Cluster.{create_or_update, put_entry}

-- `strings.Join`
unfoldable pub join : String → List String → String
join separator [] = ""
join separator (s ∷ []) = s
join separator (s ∷ t ∷ l) = concat (s ∷ separator ∷ join separator (t ∷ l) ∷ [])

-- `strings.TrimSuffix`
unfoldable pub trim_suffix : String → String → String
trim_suffix s suffix =
    if leb (len suffix) (len s) && str_eq (slice s (len s - len suffix) (len s)) suffix
    then slice s 0 (len s - len suffix)
    else s

database_entries : String → List String → Entries → Entries
database_entries pr_number [] m = m
database_entries pr_number (service ∷ services) m = database_entries pr_number services (
    put_entry (concat (trim_suffix service "-service" ∷ "-database" ∷ []))
      (get_database_name service pr_number) m)

unfoldable pub get_database_config_map_data : String → Entries
unfolding database_entries
get_database_config_map_data pr_number =
    database_entries pr_number default_services (("uri", "") ∷ ("timeout", "10") ∷ [])

uri_entries : String → String → List String → Entries → Entries
uri_entries connection_string pr_number [] m = m
uri_entries connection_string pr_number (service ∷ services) m =
    uri_entries connection_string pr_number services (
      put_entry (concat (trim_suffix service "-service" ∷ "-db-uri" ∷ []))
        (concat (connection_string ∷ "/" ∷ pr_number ∷ [])) m)

unfoldable pub get_database_uris : String → String → Entries
unfolding uri_entries
get_database_uris connection_string pr_number =
    uri_entries connection_string pr_number default_services
      (("uri", connection_string) ∷ ("username", "") ∷ ("password", "") ∷ [])

unfoldable pub mongo_db_secret_entries : MongoDbCredentials → String → Entries
mongo_db_secret_entries m pr_number =
    ("uri", m.connection_string)
    ∷ ("username", m.user)
    ∷ ("password", m.password)
    ∷ ("product-db-uri", uri "products")
    ∷ ("cart-db-uri", uri "cart")
    ∷ ("order-db-uri", uri "orders")
    ∷ ("payment-db-uri", uri "payments")
    ∷ ("customer-db-uri", uri "customers")
    ∷ ("inventory-db-uri", uri "inventory")
    ∷ ("notification-db-uri", uri "notifications")
    ∷ ("discount-db-uri", uri "discounts")
    ∷ ("checkout-db-uri", uri "checkout")
    ∷ ("analytics-db-uri", uri "analytics")
    ∷ ("auth-db-uri", uri "auth")
    ∷ ("graphql-db-uri", uri "graphql")
    ∷ []
  where
    uri : String → String
    uri name = concat (m.connection_string ∷ "/pishop_" ∷ name ∷ "_pr_" ∷ pr_number ∷ [])

-- An object's metadata with neither labels nor annotations.
abbrev plain_secret : String → String → String → Entries → Object
plain_secret name namespace secret_type entries = Object.secret (record {
  meta = record { name = name; namespace = namespace; labels = []; annotations = [] };
  secret_type = secret_type;
  entries = entries;
})

abbrev plain_config_map : String → String → Entries → Object
plain_config_map name namespace entries = Object.config_map (record {
  meta = record { name = name; namespace = namespace; labels = []; annotations = [] };
  entries = entries;
})

-- A field of a pointer that is nil is a panic.
abbrev pub deref {ℓ} : {A : Type 0} {B : Type ℓ} → Option A → (A → Go B) → Go B
deref none k = crash
deref (some a) k = k a

module _ (r : Reconciler) where
  unfoldable pub create_mongo_db_secret : Go (Option Error)
  create_mongo_db_secret = do
    x ← get_object
    maybe x.status.mongo_db
        (pure (
          some (record {
            reason = Reason.unspecified;
            text = "MongoDB credentials not available in status";
          })))
        (λ m.
          attempt
            (create_or_update r (
              plain_secret "mongodb-secret" (namespace_of x) "" (
                ("username", m.user)
                ∷ ("password", m.password)
                ∷ ("connectionString", m.connection_string)
                ∷ ("databases", join "," m.databases)
                ∷ [])))
            (λ e. pure (some (wrap "failed to create MongoDB secret: " e))) (pure none))

  unfoldable pub redis_config : String → Option RedisConfig → Go (Option Error)
  redis_config namespace redis = deref redis λ c.
      attempt
        (create_or_update r
          (plain_config_map "redis-config" namespace (("url", c.connection_string) ∷ [])))
        (λ e. pure (some (errorf "failed to create Redis ConfigMap: " e))) (pure none)

  unfoldable pub nats_config : String → Option NatsConfig → Go (Option Error) → Go (Option Error)
  nats_config namespace nats rest = deref nats λ n.
      attempt
        (create_or_update r
          (plain_config_map "nats-config" namespace (("url", n.connection_string) ∷ [])))
        (λ e. pure (some (errorf "failed to create NATS ConfigMap: " e))) rest

  unfoldable pub mongo_db_config :
      String → String → Option MongoDbCredentials → Go (Option Error) → Go (Option Error)
  mongo_db_config namespace pr_number mongo_db rest = deref mongo_db λ m.
      attempt
        (create_or_update r (
          plain_config_map "mongodb-config" namespace
            (put_entry "uri" m.connection_string (get_database_config_map_data pr_number))))
        (λ e. pure (some (errorf "failed to create MongoDB ConfigMap: " e)))
        (attempt
          (create_or_update r (
            plain_secret "mongodb-secret" namespace "Opaque" (mongo_db_secret_entries m pr_number)))
          (λ e. pure (some (errorf "failed to create MongoDB Secret: " e))) rest)

  -- Credentials that are missing are nil pointers.
  unfoldable pub create_mongo_db_resources : String → Go (Option Error)
  unfolding redis_config nats_config mongo_db_config
  create_mongo_db_resources namespace = do
    x ← get_object
    mongo_db_config namespace x.spec.pr_number x.status.mongo_db
        (nats_config namespace x.status.nats (redis_config namespace x.status.redis))

  unfoldable pub create_registry_secret : String → Go (Option Error)
  create_registry_secret namespace =
      if str_eq r.github_username "" || str_eq r.github_token ""
      then pure none
      else let auth =
          r.client.encode_base64 (concat (r.github_username ∷ ":" ∷ r.github_token ∷ [])) in
        let (err, json) = r.client.marshal_registry (
          ("username", r.github_username)
          ∷ ("email", r.github_email)
          ∷ ("password", r.github_token)
          ∷ ("auth", auth)
          ∷ []) in
        attempt (pure err) (λ e. pure (some (errorf "failed to marshal docker config: " e)))
          (attempt
            (create_or_update r (
              plain_secret "ghcr-secret" namespace "kubernetes.io/dockerconfigjson"
                ((".dockerconfigjson", json) ∷ [])))
            (λ e. pure (some (errorf "failed to create registry secret: " e))) (pure none))
