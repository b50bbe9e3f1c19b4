-- ===== src/Stack/Workload.antt =====
-- A microservice's deployment, service and ingress: `createServiceDeployment`, `getImageTag` and
-- `getResourceRequirements` of controllers/stack_provisioning.go, and `GetServicePorts` of
-- controllers/service_config.go.
use pishop_operator.Base.{
  ℕ, String, List, ◌∷◌, [], ◌++◌, Option, none, some, concat, if◌then◌else◌, str_eq,
}
use pishop_operator.Kube.{Entries, ContainerPort, ResourceRequirements, Deployment, Service, Object}
use pishop_operator.Api.{PrStack, ResourceLimits}
use pishop_operator.Client.{Error, Go, ◌>>=◌, pure, attempt, get_object, errorf}
use pishop_operator.Reconciler.{Reconciler, must_parse}
use pishop_operator.Cluster.{create_or_update}
use pishop_operator.Service.Defaults.{get_service_config}
use pishop_operator.Service.Env.{to_env_vars}
use pishop_operator.Stack.Ingress.{create_ingress}

unfoldable pub get_image_tag : PrStack → String → String
get_image_tag x service_name =
    if str_eq x.spec.image_tag ""
    then concat ("ghcr.io/pilab-dev/" ∷ service_name ∷ ":pr-" ∷ x.spec.pr_number ∷ [])
    else concat ("ghcr.io/pilab-dev/" ∷ service_name ∷ ":" ∷ x.spec.image_tag ∷ [])

unfoldable pub get_service_ports : List ContainerPort
get_service_ports = record { container_port = 8080; name = "http" } ∷ []

-- At most one replica.
unfoldable pub desired_replicas : PrStack → ℕ
desired_replicas x = if x.spec.active then 1 else 0

abbrev pub service_labels : String → String → Entries
service_labels service_name pr_number =
    ("app", service_name)
    ∷ ("component", "microservice")
    ∷ ("environment", "pr")
    ∷ ("tier", "pr")
    ∷ ("pr-number", pr_number)
    ∷ []

-- What `createServiceDeployment` builds, from the requirements found.
unfoldable pub service_deployment : PrStack → String → String → ResourceRequirements → Deployment
service_deployment x namespace service_name resources = record {
  meta = record {
    name = service_name;
    namespace = namespace;
    labels = service_labels service_name x.spec.pr_number;
    annotations = [];
  };
  replicas = some (desired_replicas x);
  selector = ("app", service_name) ∷ [];
  template = record {
    labels = service_labels service_name x.spec.pr_number;
    annotations = [];
    restart_policy = "";
    image_pull_secrets = "ghcr-secret" ∷ [];
    containers =
        record {
          name = service_name;
          image = get_image_tag x service_name;
          command = [];
          args = [];
          ports = get_service_ports;
          env = to_env_vars (get_service_config service_name x.spec.pr_number);
          volume_mounts = [];
          resources = resources;
          liveness_probe = some (record {
            path = "/health";
            port = 8080;
            initial_delay_seconds = 30;
            period_seconds = 10;
          });
          readiness_probe = some (record {
            path = "/ready";
            port = 8080;
            initial_delay_seconds = 5;
            period_seconds = 5;
          });
        }
        ∷ [];
    volumes = [];
  };
}

unfoldable pub service_object : PrStack → String → String → Service
service_object x namespace service_name = record {
  meta = record {
    name = service_name;
    namespace = namespace;
    labels =
        ("app", service_name)
        ∷ ("environment", "pr")
        ∷ ("tier", "pr")
        ∷ ("pr-number", x.spec.pr_number)
        ∷ [];
    annotations =
        ("prometheus.io/scrape", "true")
        ∷ ("prometheus.io/port", "8080")
        ∷ ("prometheus.io/path", "/metrics")
        ∷ [];
  };
  selector = ("app", service_name) ∷ [];
  ports = record { name = "http"; port = 8080; target_port = 8080; protocol = "" } ∷ [];
}

module _ (r : Reconciler) where
  -- `limits[key] = resource.MustParse(text)`, where a text is given.
  unfoldable pub limit_entry : String → String → Go Entries
  limit_entry key text =
      if str_eq text "" then pure [] else (must_parse r text >>= λ q. pure ((key, q) ∷ []))

  unfoldable pub limits_of : Option ResourceLimits → Go Entries
  unfolding limit_entry
  limits_of none = do
    cpu ← must_parse r "500m"
    memory ← must_parse r "512Mi"
    pure (("cpu", cpu) ∷ ("memory", memory) ∷ [])
  limits_of (some l) = do
    cpu ← limit_entry "cpu" l.cpu_limit
    memory ← limit_entry "memory" l.memory_limit
    pure (cpu ++ memory)

  unfoldable pub get_resource_requirements : PrStack → Go ResourceRequirements
  unfolding limits_of
  get_resource_requirements x = do
    limits ← limits_of x.spec.resource_limits
    cpu ← must_parse r "0m"
    memory ← must_parse r "0Mi"
    pure (record { limits = limits; requests = ("cpu", cpu) ∷ ("memory", memory) ∷ [] })

  -- `createServiceDeployment` of the stack given.
  unfoldable pub create_objects : PrStack → String → String → Go (Option Error)
  create_objects x namespace service_name = do
    resources ← get_resource_requirements x
    attempt
        (create_or_update r
          (Object.deployment (service_deployment x namespace service_name resources)))
        (λ e. pure (
          some (errorf (concat ("failed to create deployment for " ∷ service_name ∷ ": " ∷ [])) e)))
        (attempt (create_or_update r (Object.service (service_object x namespace service_name)))
          (λ e.
            pure (
              some
                (errorf (concat ("failed to create service for " ∷ service_name ∷ ": " ∷ [])) e)))
          (if str_eq service_name "graphql-service"
            then attempt
                (create_or_update r
                  (Object.ingress (create_ingress r x namespace service_name "graphql")))
                (λ e. pure (
                  some (
                    errorf (concat ("failed to create ingress for " ∷ service_name ∷ ": " ∷ []))
                      e)))
                (pure none)
            else pure none))

  unfoldable pub create_service_deployment : String → String → Go (Option Error)
  create_service_deployment namespace service_name = do
    x ← get_object
    create_objects x namespace service_name
