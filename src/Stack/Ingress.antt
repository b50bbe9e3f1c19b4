-- ===== src/Stack/Ingress.antt =====
-- `createIngress` of controllers/stack_provisioning.go.
use pishop_operator.Base.{String, ◌∷◌, [], ◌++◌, Bool, not, ◌||◌, concat, if◌then◌else◌, str_eq}
use pishop_operator.Kube.{Entries, Ingress}
use pishop_operator.Api.{PrStack}
use pishop_operator.Reconciler.{Reconciler, get_domain}

-- A configured value, or its default where it is empty.
abbrev pub or_default : String → String → String
or_default value default = if str_eq value "" then default else value

-- An entry that is set only where its value is not empty.
abbrev optional_entry : String → String → Entries
optional_entry k v = if str_eq v "" then [] else (k, v) ∷ []

module _ (r : Reconciler) (x : PrStack) where
  -- `enableTLS`
  unfoldable pub enable_tls : Bool
  enable_tls =
      not (str_eq x.spec.ingress_tls_secret_name "") || not (str_eq r.cert_manager_issuer "")

  unfoldable pub tls_secret_name : String → String
  tls_secret_name service_name =
      if not (str_eq x.spec.ingress_tls_secret_name "")
      then x.spec.ingress_tls_secret_name
      else if not (str_eq r.cert_manager_issuer "")
      then concat (service_name ∷ "-tls" ∷ [])
      else ""

  unfoldable pub create_ingress : String → String → String → Ingress
  create_ingress namespace service_name path_prefix = record {
    meta = record {
      name = service_name;
      namespace = namespace;
      labels = [];
      annotations =
          optional_entry "cert-manager.io/cluster-issuer" r.cert_manager_issuer
          ++ (optional_entry "traefik.ingress.kubernetes.io/router.entrypoints"
                (or_default r.traefik_entrypoints "websecure")
              ++ optional_entry "traefik.ingress.kubernetes.io/router.tls"
                  (or_default r.traefik_tls_enabled "true"));
    };
    class_name = or_default r.ingress_class_name "traefik";
    host = get_domain r x;
    path = concat ("/" ∷ path_prefix ∷ []);
    backend_service = service_name;
    backend_port = 8080;
    tls =
        if enable_tls
        then record { hosts = get_domain r x ∷ []; secret_name = tls_secret_name service_name } ∷ []
        else [];
  }
