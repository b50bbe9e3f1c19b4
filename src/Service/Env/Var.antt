-- ===== src/Service/Env/Var.antt =====
-- Environment variables as `ToEnvVars` of controllers/service_config.go writes them.
use pishop_operator.Base.{String, none, some}
use pishop_operator.Kube.{EnvVar}

-- The two forms of an environment variable: a value, or a key of a secret.
abbrev pub plain : String → String → EnvVar
plain name value = record { name = name; value = value; value_from = none }

abbrev pub from_secret : String → String → String → EnvVar
from_secret name secret key = record {
  name = name;
  value = "";
  value_from = some (record { secret = secret; key = key });
}
