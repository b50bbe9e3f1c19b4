-- ===== src/Provisioning.antt =====
-- Provisioning of the infrastructure: `provisionMongoDB`, `provisionNATS`, `provisionRedis` and
-- `generateSecurePassword` of controllers/provisioning.go.
pub mod Collections
pub mod Queues
pub mod Quiet
use pishop_operator.Base.{
  ℕ, String, List, ◌∷◌, [], Option, none, some, Bool, true, false, concat, if◌then◌else◌, str_eq,
  map,
}
use pishop_operator.Api.{PrStack, MongoDbCredentials}
use pishop_operator.Client.{
  maybe, is_not_found, is_already_exists, Error, Reason, Call, Go, ◌>>=◌, ◌>>◌, pure, attempt,
  record_call, get_object, modify, wrap, errorf,
}
use pishop_operator.Reconciler.{Reconciler, call, save_status}
use pishop_operator.Naming.{
  default_services, get_namespace_name, get_database_name, pr_user, mongo_url, subject_prefix,
  nats_url, key_prefix, redis_url,
}
use pishop_operator.Provisioning.Collections.{create_service_collections}

module _ (r : Reconciler) where
  -- Sixteen random bytes in base64, or the error of the random source.
  unfoldable pub generate_secure_password : {A : Type 0} → (Error → Go A) → (String → Go A) → Go A
  generate_secure_password fail rest = do
    l ← record_call (Call.read_random 16)
    maybe (r.client.error l) (rest (r.client.encode_base64_url (r.client.random l)))
        (λ e. fail (wrap "failed to generate random bytes for password: " e))

  -- The second loop: the collections of each service's database.
  unfoldable pub create_databases : String → List String → Go (Option Error)
  create_databases pr_number [] = pure none
  create_databases pr_number (service ∷ services) =
      let rest = create_databases pr_number services in
      attempt (create_service_collections r (get_database_name service pr_number) service)
        (λ e.
          pure
            (some (errorf (concat ("failed to create collections for " ∷ service ∷ ": " ∷ [])) e)))
        rest

  -- What follows once the driver is connected; the caller disconnects on every way out.
  unfoldable pub provision_connected : Go (Option Error)
  unfolding generate_secure_password
  provision_connected = do
    x ← get_object
    let number = x.spec.pr_number
    attempt (call r Call.mongo_ping) (λ e. pure (some (errorf "failed to ping MongoDB: " e)))
        do
          let user = pr_user number
          generate_secure_password
              (λ e. pure (some (errorf "failed to generate secure password: " e)))
              λ password. do
                let databases = map (λ s. get_database_name s number) default_services
                let roles = map (λ d. ("readWrite", d)) databases
                call r (Call.drop_user user)
                attempt (call r (Call.create_user user password roles))
                    (λ e. pure (some (errorf "failed to create user: " e)))
                    do
                      attempt (create_databases number default_services) (λ e. pure (some e))
                          do
                            modify λ y. record y {
                              status = record (y.status) {
                                mongo_db = some (record {
                                  user = user;
                                  password = password;
                                  connection_string = mongo_url user password;
                                  databases = databases;
                                });
                              };
                            }
                            attempt (save_status r)
                                (λ e. pure (some (errorf "failed to update PRStack status: " e)))
                                (pure none)

  -- The connection string of the stack, or else that of the operator.
  abbrev pub mongo_uri_of : PrStack → String
  mongo_uri_of x = if str_eq x.spec.mongo_uri "" then r.mongo_uri else x.spec.mongo_uri

  unfoldable pub provision_mongo_db : Go (Option Error)
  unfolding provision_connected
  provision_mongo_db = do
    x ← get_object
    attempt (call r (Call.mongo_connect (mongo_uri_of x)))
        (λ e. pure (some (errorf "failed to connect to MongoDB: " e)))
        do err ← provision_connected; call r Call.mongo_disconnect; pure err

  unfoldable pub provision_nats : Go (Option Error)
  provision_nats = do
    modify λ x. record x {
      status = record (x.status) {
        nats = some (record {
          subject_prefix = subject_prefix x.spec.pr_number;
          connection_string = nats_url (get_namespace_name x.spec.pr_number);
        });
      };
    }
    pure none

  unfoldable pub provision_redis : Go (Option Error)
  provision_redis = do
    modify λ x. record x {
      status = record (x.status) {
        redis = some (record {
          key_prefix = key_prefix x.spec.pr_number;
          connection_string = redis_url (get_namespace_name x.spec.pr_number);
        });
      };
    }
    pure none
