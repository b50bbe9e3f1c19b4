-- ===== src/Operator.antt =====
-- The program's start: operator/main.go. The environment is a function from names to values, empty
-- where a variable is not set, and the command line is the flags given on it, in order.
pub mod Start
use pishop_operator.Base.{
  String, List, [], ◌∷◌, Option, none, some, Bool, true, false, ◌||◌, ◌≡◌, refl, if◌then◌else◌,
  str_eq, is_some,
}
use pishop_operator.Client.{Client, Error}
use pishop_operator.Reconciler.{Reconciler}

-- `os.Getenv`
abbrev pub Environment : Type 0
Environment = String → String

unfoldable pub get_env_or_default : Environment → String → String → String
get_env_or_default env key default_value = if str_eq (env key) "" then default_value else env key

-- The flags given, by name and value, once the package flag has accepted them.
abbrev pub Arguments : Type 0
Arguments = List (String × String)

-- A flag's value: the last one given, or its default.
unfoldable pub string_var : Arguments → String → String → String
string_var [] name value = value
string_var ((n, v) ∷ args) name value = string_var args name (if str_eq n name then v else value)

-- `strconv.ParseBool`, on the texts that it takes.
abbrev parse_bool : String → Bool
parse_bool v =
    str_eq v "1"
    || str_eq v "t"
    || str_eq v "T"
    || str_eq v "TRUE"
    || str_eq v "true"
    || str_eq v "True"

-- A flag of type bool; `-name` alone is `-name=true`.
unfoldable pub bool_var : Arguments → String → Bool → Bool
bool_var [] name value = value
bool_var ((n, v) ∷ args) name value =
    bool_var args name (if str_eq n name then parse_bool v else value)

pub record Options : Type 0 where
  pub metrics_addr : String
  pub probe_addr : String
  pub enable_leader_election : Bool
  pub mongo_uri : String
  pub mongo_username : String
  pub mongo_password : String
  pub github_username : String
  pub github_token : String
  pub github_email : String
  pub base_domain : String
  pub ingress_class_name : String
  pub cert_manager_issuer : String
  pub traefik_entrypoints : String
  pub traefik_tls_enabled : String

unfoldable pub read_options : Environment → Arguments → Options
unfolding string_var bool_var get_env_or_default
read_options env args = record {
  metrics_addr = string_var args "metrics-bind-address" ":8080";
  probe_addr = string_var args "health-probe-bind-address" ":8081";
  enable_leader_election = bool_var args "leader-elect" false;
  mongo_uri = string_var args "mongo-uri" (env "MONGO_URI");
  mongo_username =
      string_var args "mongo-username" (get_env_or_default env "MONGO_USERNAME" "admin");
  mongo_password =
      string_var args "mongo-password" (get_env_or_default env "MONGO_PASSWORD" "password");
  github_username = string_var args "github-username" (env "GITHUB_USERNAME");
  github_token = string_var args "github-token" (env "GITHUB_TOKEN");
  github_email = string_var args "github-email" (env "GITHUB_EMAIL");
  base_domain =
      string_var args "base-domain" (get_env_or_default env "BASE_DOMAIN" "shop.pilab.hu");
  ingress_class_name =
      string_var args "ingress-class-name" (get_env_or_default env "INGRESS_CLASS_NAME" "traefik");
  cert_manager_issuer =
      string_var args "cert-manager-issuer"
        (get_env_or_default env "CERT_MANAGER_ISSUER" "letsencrypt-staging");
  traefik_entrypoints =
      string_var args "traefik-entrypoints"
        (get_env_or_default env "TRAEFIK_ENTRYPOINTS" "websecure");
  traefik_tls_enabled =
      string_var args "traefik-tls-enabled" (get_env_or_default env "TRAEFIK_TLS_ENABLED" "true");
}

-- The reconciler that `main` builds, with the manager's client.
unfoldable pub new_reconciler : Client → Options → Reconciler
new_reconciler client o = record {
  client = client;
  mongo_uri = o.mongo_uri;
  mongo_username = o.mongo_username;
  mongo_password = o.mongo_password;
  github_token = o.github_token;
  github_username = o.github_username;
  github_email = o.github_email;
  base_domain = o.base_domain;
  ingress_class_name = o.ingress_class_name;
  cert_manager_issuer = o.cert_manager_issuer;
  traefik_entrypoints = o.traefik_entrypoints;
  traefik_tls_enabled = o.traefik_tls_enabled;
}

-- The steps that `main` takes with controller-runtime.
pub data Step : Type 0 where
  new_manager : Options → Step
  set_up : Reconciler → Step
  add_healthz : Step
  add_readyz : Step
  start : Step

-- How the program ended, and the steps that it took, in order: by `os.Exit(1)`, or at the end of `main`.
pub data Ended : Type 0 where
  exited : List Step → Ended
  returned : List Step → Ended

abbrev pub after_step : Step → Ended → Ended
after_step s (exited steps) = exited (s ∷ steps)
after_step s (returned steps) = returned (s ∷ steps)

-- controller-runtime, by the error of each step.
module _ (outcome : Step → Option Error) (client : Client) where
  -- `if err := step; err != nil { os.Exit(1) }`, and then the rest.
  abbrev try : Step → Ended → Ended
  try s rest = after_step s (elim (outcome s) [ none ↦ rest | some e ↦ exited [] ])

  unfoldable pub main : Environment → Arguments → Ended
  unfolding read_options new_reconciler
  main env args =
      let options = read_options env args in
      if str_eq options.mongo_uri ""
      then exited []
      else try (new_manager options) (
          try (set_up (new_reconciler client options))
            (try add_healthz (try add_readyz (try start (returned [])))))
