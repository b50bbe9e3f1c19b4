-- ===== src/Stack/Databases.antt =====
-- The databases that a stack's configuration names, against those that are provisioned:
-- `getDatabaseConfigMapData`, `GetServiceConfig` and the secret of `createMongoDBResources`.
use Prim.Native.String.{◌++◌}
use text.Mathlib.TextLemmas.{append_cancel_left, append-nil, append_assoc}
use text.Mathlib.TextEquality.{eq_iff}
use pishop_operator.Base.{
  Option, none, if◌then◌else◌, String, List, [], ◌∷◌, some, Bool, true, not, ◌≡◌, ◌≢◌, refl, sym,
  ap, ◌∙◌, arith, concat, str_eq, All, All-Elem, Elem, every, every-All,
}
use pishop_operator.Api.{MongoDbCredentials}
use pishop_operator.Naming.{default_services, database_base, get_database_name}
use pishop_operator.Naming.Isolation.{AllDigits, database_form_inj}
use pishop_operator.Cluster.{put_entry, find_entry}
use pishop_operator.Service.Defaults.{get_service_config}
use pishop_operator.Service.Env.{to_env_vars}
use pishop_operator.Kube.{EnvVar}
use pishop_operator.Stack.Secrets.{
  trim_suffix, get_database_config_map_data, mongo_db_secret_entries,
}

-- The key of a service in the config map, and in the secret.
abbrev pub database_key : String → String
database_key service = concat (trim_suffix service "-service" ∷ "-database" ∷ [])

abbrev pub uri_key : String → String
uri_key service = concat (trim_suffix service "-service" ∷ "-db-uri" ∷ [])

-- The value of a container's variable.
unfoldable pub find_variable : String → List EnvVar → Option String
find_variable n [] = none
find_variable n (v ∷ vs) = if str_eq v.name n then some v.value else find_variable n vs

module _ (number : String) where
  abbrev Agrees : String → Type 0
  Agrees service =
      (find_entry (database_key service) (get_database_config_map_data number)
        ≡ some (get_database_name service number))
      × (find_variable "MONGODB_DATABASE" (to_env_vars (get_service_config service number))
          ≡ some (get_database_name service number))

  Agrees-table : All Agrees default_services
  unfolding find_entry find_variable to_env_vars get_database_config_map_data get_service_config
      put_entry trim_suffix get_database_name database_base
  Agrees-table = (
    (refl, refl),
    (
      (refl, refl),
      (
        (refl, refl),
        (
          (refl, refl),
          (
            (refl, refl),
            (
              (refl, refl),
              (
                (refl, refl),
                ((refl, refl), ((refl, refl), ((refl, refl), ((refl, refl), ((refl, refl), tt))))),
              ),
            ),
          ),
        ),
      ),
    ),
  )

-- For every default service, the config map holds under the service's key, and the variable
-- MONGODB_DATABASE of its container has as its value, the name that `getDatabaseName` gives to its
-- database.
pub get_database_config_map_data-agrees :
    (service number : String)
    → Elem service default_services
    → (find_entry (database_key service) (get_database_config_map_data number)
        ≡ some (get_database_name service number))
      × (find_variable "MONGODB_DATABASE" (to_env_vars (get_service_config service number))
          ≡ some (get_database_name service number))
get_database_config_map_data-agrees service number h =
    All-Elem (Agrees number) default_services service (Agrees-table number) h

-- The services whose database is named in the plural in the secret.
abbrev pub plural_services : List String
plural_services =
    "product-service" ∷ "order-service" ∷ "payment-service" ∷ "customer-service"
    ∷ "notification-service" ∷ "discount-service" ∷ []

plural_differs : String → String → Bool
plural_differs name service = not (str_eq name (database_base service))

plural_name : String → String
plural_name service = concat (trim_suffix service "-service" ∷ "s" ∷ [])

plural_table :
    every (λ s. every (plural_differs (plural_name s)) default_services) plural_services ≡ true
unfolding every plural_differs plural_name trim_suffix database_base
plural_table = refl

plural-ne :
    (name service : String) → plural_differs name service ≡ true → name ≢ database_base service
unfolding plural_differs
plural-ne name service h e = ground (arith, eq_iff name (database_base service))

plural_uri : MongoDbCredentials → String → String → String
plural_uri m number service =
    concat (m.connection_string ∷ "/pishop_" ∷ plural_name service ∷ "_pr_" ∷ number ∷ [])

plural_entries :
    (m : MongoDbCredentials) (number : String)
    → All
        (λ s.
          find_entry (uri_key s) (mongo_db_secret_entries m number) ≡ some (plural_uri m number s))
        plural_services
unfolding find_entry mongo_db_secret_entries trim_suffix plural_uri plural_name
plural_entries m number = (refl, (refl, (refl, (refl, (refl, (refl, tt))))))

-- The address of a database at a server.
abbrev pub address : MongoDbCredentials → String → String
address m database = concat (m.connection_string ∷ "/" ∷ database ∷ [])

slash_form :
    (name number : String)
    → "/pishop_" ++ (name ++ ("_pr_" ++ (number ++ "")))
      ≡ "/" ++ concat ("pishop_" ∷ name ∷ "_pr_" ∷ number ∷ [])
slash_form name number = append_assoc "/" "pishop_" _

-- For six of the default services the address that the secret holds is not that of a database that was
-- created for a default service, for whatever number, if the numbers are all digits.
pub mongo_db_secret_entries-misses :
    (m : MongoDbCredentials) (s t p q : String)
    → Elem s plural_services
    → Elem t default_services
    → AllDigits p
    → AllDigits q
    → find_entry (uri_key s) (mongo_db_secret_entries m p)
      ≢ some (address m (get_database_name t q))
unfolding get_database_name plural_uri
mongo_db_secret_entries-misses m s t p q hs ht hp hq e =
    let found =
      All-Elem (λ s. find_entry (uri_key s) (mongo_db_secret_entries m p) ≡ some (plural_uri m p s))
        plural_services s (plural_entries m p) hs in
    let uris : plural_uri m p s ≡ address m (get_database_name t q) = cc in
    let names : concat ("pishop_" ∷ plural_name s ∷ "_pr_" ∷ p ∷ []) ≡ get_database_name t q =
      append_cancel_left "/" _ _ (
        sym (slash_form (plural_name s) p)
        ∙ append_cancel_left m.connection_string _ _ uris
        ∙ ap (λ u. "/" ++ u) (append-nil _)) in
    let row =
      All-Elem (λ s. every (plural_differs (plural_name s)) default_services ≡ true) plural_services
        s
        (every-All (λ s. every (plural_differs (plural_name s)) default_services) plural_services
          plural_table)
        hs in
    let cell =
      All-Elem (λ u. plural_differs (plural_name s) u ≡ true) default_services t
        (every-All (plural_differs (plural_name s)) default_services row) ht in
    plural-ne (plural_name s) t cell
      (database_form_inj (plural_name s) (database_base t) p q hp hq names).0
