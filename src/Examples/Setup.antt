-- ===== src/Examples/Setup.antt =====
-- The results on configuration, validation and set-up, applied at concrete inputs.
use text.Mathlib.TextEquality.{eq_iff}
use pishop_operator.Base.{
  String, ◌∷◌, [], Option, none, some, str_eq, if◌then◌else◌, ◌≡◌, ◌≢◌, ◌↔◌, refl, Elem, inl, arith,
}
use pishop_operator.Api.{Phase, PrStack, MongoDbCredentials}
use pishop_operator.Client.{Error}
use pishop_operator.Client.Rules.{Ends}
use pishop_operator.Naming.{default_services, get_database_name}
use pishop_operator.Regex.{match_string, derivative, nullable, in_class}
use pishop_operator.Validation.{
  image_tag_pattern, pr_number_pattern, validate_pr_stack, validation_errors, combine,
  validate_pr_number, validate_image_tag, error_text,
}
use pishop_operator.Validation.Accepts.{IsValid, validate_pr_stack-IsValid}
use pishop_operator.Validation.Safety.{validate_pr_stack-reconcile}
use pishop_operator.Lifecycle.Main.{reconcile}
use pishop_operator.Lifecycle.Safety.Invariant.{WellFormed}
use pishop_operator.Cleanup.{cleanup_all_resources}
use pishop_operator.Cleanup.Confined.{IsOwn, Adds}
use pishop_operator.Cleanup.Disjoint.{IsRemoval, cleanup_all_resources-Spares}
use pishop_operator.Service.Defaults.{get_service_config}
use pishop_operator.Service.Names.{Distinct, to_env_vars-Distinct}
use pishop_operator.Stack.Secrets.{get_database_config_map_data, mongo_db_secret_entries}
use pishop_operator.Cluster.{find_entry}
use pishop_operator.Service.Env.{to_env_vars}
use pishop_operator.Stack.Databases.{
  find_variable, database_key, uri_key, address, get_database_config_map_data-agrees,
  mongo_db_secret_entries-misses,
}
use pishop_operator.Stack.Ingress.{create_ingress}
use pishop_operator.Operator.{
  Environment, Arguments, read_options, new_reconciler, Step, new_manager, set_up, add_healthz,
  add_readyz, start, returned, main,
}
use pishop_operator.Operator.Start.{NoErrors, read_options-tls, main-returned}
use pishop_operator.Samples.{
  sample_stack, sample_state, sample_client, sample_reconciler, sample_parses, sample_server,
  stored_in, sample-WellFormed,
}

abbrev accept_all : String → Option Error
accept_all q = none

validate_pr_stack-IsValid_example :
    (validate_pr_stack accept_all (sample_stack Phase.running) ≡ none)
    ↔ IsValid accept_all (sample_stack Phase.running)
validate_pr_stack-IsValid_example =
    validate_pr_stack-IsValid accept_all (sample_stack Phase.running)

abbrev other_stack : PrStack
other_stack = record (sample_stack Phase.running) {
  spec = record (sample_stack Phase.running).spec { pr_number = "7" };
}

numbers_differ : ◌≢◌ {A = String} "42" "7"
numbers_differ e = ground (arith, eq_iff "42" "7", e)

flag_differs : ◌≢◌ {A = String} "base-domain" "cert-manager-issuer"
flag_differs e = ground (arith, eq_iff "base-domain" "cert-manager-issuer", e)

cleanup_all_resources-Spares_example :
    Ends
      (λ _ t.
        Adds (λ c. IsRemoval c → ¬ IsOwn other_stack c) (sample_state Phase.cleaning).log t.log)
      (cleanup_all_resources sample_reconciler (sample_state Phase.cleaning))
cleanup_all_resources-Spares_example =
    cleanup_all_resources-Spares sample_reconciler (sample_state Phase.cleaning) other_stack
      (omega arith) (omega arith) numbers_differ

to_env_vars-Distinct_example : Distinct (get_service_config "cart-service" "42")
to_env_vars-Distinct_example = to_env_vars-Distinct "cart-service" "42"

sample_valid : validate_pr_stack sample_client.parse_quantity (sample_stack Phase.deploying) ≡ none
unfolding validate_pr_stack validation_errors combine validate_pr_number validate_image_tag
    pr_number_pattern image_tag_pattern match_string derivative nullable in_class error_text
sample_valid = refl

validate_pr_stack-reconcile_example :
    Ends
      (λ _ t. WellFormed (sample_server.stored t.log).status)
      (reconcile sample_reconciler (sample_state Phase.deploying))
unfolding sample_server stored_in
validate_pr_stack-reconcile_example =
    validate_pr_stack-reconcile sample_reconciler sample_server sample_parses
      (sample_state Phase.deploying) (sample-WellFormed Phase.deploying) sample_valid

product_is_default : Elem "product-service" default_services
product_is_default = inl refl

get_database_config_map_data-agrees_example :
    (find_entry (database_key "product-service") (get_database_config_map_data "42")
      ≡ some (get_database_name "product-service" "42"))
    × (find_variable "MONGODB_DATABASE" (to_env_vars (get_service_config "product-service" "42"))
        ≡ some (get_database_name "product-service" "42"))
get_database_config_map_data-agrees_example =
    get_database_config_map_data-agrees "product-service" "42" product_is_default

abbrev sample_credentials : MongoDbCredentials
sample_credentials = record {
  user = "pishop_pr_42";
  password = "p";
  connection_string = "mongodb://m";
  databases = [];
}

mongo_db_secret_entries-misses_example :
    find_entry (uri_key "product-service") (mongo_db_secret_entries sample_credentials "42")
    ≢ some (address sample_credentials (get_database_name "product-service" "42"))
mongo_db_secret_entries-misses_example =
    mongo_db_secret_entries-misses sample_credentials "product-service" "product-service" "42" "42"
      (inl refl) product_is_default (omega arith) (omega arith)

abbrev sample_environment : Environment
sample_environment k = if str_eq k "MONGO_URI" then "mongodb://m" else ""

abbrev sample_arguments : Arguments
sample_arguments = ("base-domain", "example.org") ∷ []

no_error : Step → Option Error
no_error s = none

read_options-tls_example :
    (create_ingress
      (new_reconciler sample_client (read_options sample_environment sample_arguments))
      (sample_stack Phase.running)
      "n"
      "cart-service"
      "cart").tls
    ≢ []
read_options-tls_example =
    read_options-tls sample_client sample_environment sample_arguments (sample_stack Phase.running)
      "n" "cart-service" "cart" (flag_differs, tt)

main-returned_example :
    (main no_error sample_client sample_environment sample_arguments
      ≡ returned (
          new_manager (read_options sample_environment sample_arguments)
          ∷ set_up (new_reconciler sample_client (read_options sample_environment sample_arguments))
          ∷ add_healthz
          ∷ add_readyz
          ∷ start
          ∷ []))
    ↔ (((read_options sample_environment sample_arguments).mongo_uri ≢ "")
        × (NoErrors
              (no_error (new_manager (read_options sample_environment sample_arguments)))
              (no_error (
                set_up (
                  new_reconciler sample_client (read_options sample_environment sample_arguments))))
              (no_error add_healthz)
              (no_error add_readyz)
            × (no_error start ≡ none)))
main-returned_example = main-returned no_error sample_client sample_environment sample_arguments
