-- ===== src/Stack/Selectors.antt =====
-- The objects of one microservice, against each other: `createServiceDeployment` and `createIngress`.
use pishop_operator.Base.{ℕ, String, Option, some, ◌≡◌, refl, map, Elem, inl, All}
use pishop_operator.Kube.{
  Entries, ContainerPort, ServicePort, Container, Probe, ResourceRequirements, Deployment, Service,
  Ingress,
}
use pishop_operator.Api.{PrStack}
use pishop_operator.Reconciler.{Reconciler}
use pishop_operator.Stack.Ingress.{create_ingress}
use pishop_operator.Stack.Workload.{service_deployment, service_object, get_service_ports}

-- Every entry of the selector is one of the labels.
abbrev pub Selects : Entries → Entries → Type 0
Selects selector labels = All (λ (e : String × String). Elem e labels) selector

-- The container listens on the port.
abbrev pub Listens : Container → ℕ → Type 0
Listens c port = Elem port (map (λ (p : ContainerPort). p.container_port) c.ports)

-- The container is probed on a port that it listens on.
abbrev pub Probed : Container → Option Probe → Type 0
Probed c probe = (p : Probe) × ((probe ≡ some p) × Listens c p.port)

-- A service and an ingress reach the pods of a deployment.
pub record Routes (d : Deployment) (s : Service) (i : Ingress) : Type 0 where
  pub own : Selects d.selector d.template.labels
  pub pods : (s.meta.namespace ≡ d.meta.namespace) × Selects s.selector d.template.labels
  pub ports :
      All (λ (p : ServicePort). All (λ c. Listens c p.target_port) d.template.containers) s.ports
  pub probes :
      All
        (λ (c : Container). Probed c c.liveness_probe × Probed c c.readiness_probe)
        d.template.containers
  pub backend : (i.meta.namespace ≡ s.meta.namespace) × (i.backend_service ≡ s.meta.name)
  pub backend_port : Elem i.backend_port (map (λ (p : ServicePort). p.port) s.ports)

-- For every service of a stack, the deployment's selector and that of the service choose its pods, the
-- service forwards to a port that the containers listen on, as the probes ask on one, and an ingress
-- for the service leads to it on a port that it has.
pub service_deployment-Routes :
    (r : Reconciler) (x : PrStack) (namespace name path : String) (resources : ResourceRequirements)
    → Routes
        (service_deployment x namespace name resources)
        (service_object x namespace name)
        (create_ingress r x namespace name path)
unfolding service_deployment service_object create_ingress get_service_ports
service_deployment-Routes r x namespace name path resources = record {
  own = (inl refl, tt);
  pods = (refl, (inl refl, tt));
  ports = ((inl refl, tt), tt);
  probes = (((_, (refl, inl refl)), (_, (refl, inl refl))), tt);
  backend = (refl, refl);
  backend_port = inl refl;
}
