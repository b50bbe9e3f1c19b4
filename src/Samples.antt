-- ===== src/Samples.antt =====
-- A world to run the operator in: an API server that accepts every call, a clock that stands still,
-- and a PRStack of one service. The results of the other files are applied to it.
pub mod Fresh
use pishop_operator.Base.{◌∷◌, [], none, some, true, ◌≡◌, refl}
use pishop_operator.Kube.{Deployment}
use pishop_operator.Api.{PrStack, PrStackSpec, PrStackStatus, Phase}
use pishop_operator.Client.{Client, Call, Log, State, update_stack, update_status}
use pishop_operator.Client.Rules.{IsSilent}
use pishop_operator.Reconciler.{Reconciler}
use pishop_operator.Provisioning.Quiet.{ParsesLiterals}
use pishop_operator.Lifecycle.Safety.Invariant.{WellFormed, Server, Safe, SameStatus-refl}

abbrev pub sample_spec : PrStackSpec
sample_spec = record {
  pr_number = "42";
  image_tag = "abc123";
  custom_domain = "";
  ingress_tls_secret_name = "";
  active = true;
  deployed_at = some 5;
  mongo_uri = "";
  mongo_username = "";
  mongo_password = "";
  nats_url = "";
  redis_url = "";
  services = "cart-service" ∷ [];
  environment = "";
  resource_limits = none;
  backup_config = none;
}

abbrev pub sample_status : Phase → PrStackStatus
sample_status p = record {
  phase = p;
  message = "";
  created_at = some 1;
  last_active_at = some 2;
  last_deployed_at = none;
  mongo_db = some (record { user = "u"; password = "p"; connection_string = "c"; databases = [] });
  nats = some (record { subject_prefix = "s"; connection_string = "n" });
  redis = some (record { key_prefix = "k"; connection_string = "r" });
  services = [];
  conditions = [];
  backup = none;
}

abbrev pub sample_stack : Phase → PrStack
sample_stack p = record {
  name = "pr-42";
  finalizers = [];
  deletion_timestamp = none;
  spec = sample_spec;
  status = sample_status p;
}

-- The PRStack that the server holds.
unfoldable pub stored_in : Log → PrStack
stored_in [] = sample_stack Phase.deploying
stored_in (update_stack x ∷ l) = record x { status = (stored_in l).status }
stored_in (update_status x ∷ l) = x
stored_in (c ∷ l) = stored_in l

abbrev pub sample_deployment : Deployment
sample_deployment = record {
  meta = record {
    name = "cart-service";
    namespace = "pr-42-shop-pilab-hu";
    labels = [];
    annotations = [];
  };
  replicas = some 1;
  selector = [];
  template = record {
    labels = [];
    annotations = [];
    restart_policy = "";
    image_pull_secrets = [];
    containers = [];
    volumes = [];
  };
}

abbrev pub sample_client : Client
sample_client = record {
  error = λ l. none;
  stack = stored_in;
  deployments = λ l. sample_deployment ∷ [];
  clock = λ l. 9000000000000;
  random = λ l. [];
  parse_quantity = λ q. none;
  age_text = λ n. "2h0m0s";
  rfc3339_text = λ t. "2026-01-01T00:00:00Z";
  stamp_text = λ t. "20260101-000000";
  encode_base64 = λ s. s;
  encode_base64_url = λ l. "";
  marshal_registry = λ m. (none, "");
}

abbrev pub sample_reconciler : Reconciler
sample_reconciler = record {
  client = sample_client;
  mongo_uri = "mongodb://m";
  mongo_username = "";
  mongo_password = "";
  github_token = "";
  github_username = "";
  github_email = "";
  base_domain = "shop.pilab.hu";
  ingress_class_name = "";
  cert_manager_issuer = "";
  traefik_entrypoints = "";
  traefik_tls_enabled = "";
}

abbrev pub sample_parses : ParsesLiterals sample_reconciler
sample_parses = record {
  cpu_0m = refl;
  memory_0 = refl;
  cpu_500m = refl;
  memory_512 = refl;
  memory_1 = refl;
}

pub stored_in-silent :
    (c : Call) (l : Log) → IsSilent c → (stored_in (c ∷ l)).status ≡ (stored_in l).status
unfolding stored_in
stored_in-silent c l h =
    elim c as (λ c. IsSilent c → (stored_in (c ∷ l)).status ≡ (stored_in l).status) [
      | update_stack x ↦ λ h. absurd h
      | update_status x ↦ λ h. absurd h
      | _ ↦ λ h. refl
    ]
      h

unfoldable pub sample_server : Server sample_client
unfolding stored_in
sample_server = record {
  stored = stored_in;
  fetched = λ l e. refl;
  status_saved = λ x l e. (refl, refl, SameStatus-refl x.status);
  stack_saved = λ x l e. (refl, refl, refl);
  refused = λ c l e. cc;
  silent = stored_in-silent;
}

pub sample-WellFormed : (p : Phase) → WellFormed (sample_status p)
sample-WellFormed p = record { deploying_ready = λ e. (refl, refl, refl); timed = λ e. refl }

abbrev pub sample_state : Phase → State
sample_state p = record { stack = sample_stack p; log = [] }

pub sample-Safe : (p : Phase) → Safe sample_server sample_reconciler true (sample_state p)
unfolding sample_server stored_in
sample-Safe p = record {
  sound = sample-WellFormed p;
  stored_sound = sample-WellFormed Phase.deploying;
  limits = tt;
  created = λ e. refl;
}
