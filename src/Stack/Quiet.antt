-- ===== src/Stack/Quiet.antt =====
-- Panics and saves in the methods that create a stack's objects.
use pishop_operator.Base.{
  String, ◌∷◌, [], Option, none, some, ◌≡◌, Bool, true, false, is_some, str_eq, refl, if◌then◌else◌,
}
use pishop_operator.Api.{
  ResourceLimits, PrStack, PrStackStatus, MongoDbCredentials, NatsConfig, RedisConfig,
}
use pishop_operator.Kube.{Entries}
use pishop_operator.Client.{Go, pure, ◌>>=◌, Error, State}
use pishop_operator.Client.Rules.{Quiet, quiet, Ends, Quietly}
use pishop_operator.Reconciler.{Reconciler, must_parse}
use pishop_operator.Cluster.Quiet.{create_or_update-Quiet}
use pishop_operator.Provisioning.Quiet.{ParsesLiterals, must_parse-Quiet}
use pishop_operator.Stack.Secrets.{
  create_mongo_db_secret, create_registry_secret, create_mongo_db_resources, redis_config,
  nats_config, mongo_db_config, deref,
}
use pishop_operator.Stack.Storage.{create_claim, create_backup_pvc, ensure_backup_storage}
use pishop_operator.Stack.Workload.{
  limit_entry, limits_of, get_resource_requirements, create_objects, create_service_deployment,
}

-- The stack has the addresses that the ConfigMaps are made of.
abbrev pub HasCredentials : PrStackStatus → Type 0
HasCredentials x = (is_some x.mongo_db ≡ true) × (is_some x.nats ≡ true) × (is_some x.redis ≡ true)

module _ (r : Reconciler) where
  pub create_mongo_db_secret-Quiet : Quiet (create_mongo_db_secret r)
  unfolding create_mongo_db_secret
  create_mongo_db_secret-Quiet = search (quiet, create_or_update-Quiet)

  pub create_registry_secret-Quiet :
      (namespace : String) → Quiet (create_registry_secret r namespace)
  unfolding create_registry_secret
  create_registry_secret-Quiet namespace = search (quiet, create_or_update-Quiet)

  create_backup_pvc-Quiet : (namespace : String) → Quiet (create_backup_pvc r namespace)
  unfolding create_backup_pvc create_claim
  create_backup_pvc-Quiet namespace = search quiet depth 8

  pub ensure_backup_storage-Quiet : (namespace : String) → Quiet (ensure_backup_storage r namespace)
  unfolding ensure_backup_storage
  ensure_backup_storage-Quiet namespace = search (quiet, create_backup_pvc-Quiet)

  -- A limit that is given is a quantity.
  abbrev pub IsLimit : String → Type 0
  IsLimit text = str_eq text "" ≡ false → r.client.parse_quantity text ≡ none

  -- The limits that the deployments use are quantities: what `validateResourceLimits` asks of them.
  abbrev pub HasLimits : Option ResourceLimits → Type 0
  HasLimits none = Unit
  HasLimits (some l) = IsLimit l.cpu_limit × IsLimit l.memory_limit

  limit_entry-Quiet : (key text : String) → IsLimit text → Quiet (limit_entry r key text)
  unfolding limit_entry
  limit_entry-Quiet key text h = by_test (str_eq text "") h
    where
      by_test :
          (b : Bool)
          → (b ≡ false → r.client.parse_quantity text ≡ none)
          → Quiet {A = Entries}
              (if b then pure [] else (must_parse r text >>= λ q. pure ((key, q) ∷ [])))
      by_test true k = search quiet
      by_test false k = let ok = must_parse-Quiet r text (k refl) in search (quiet, ok)

  module _ (parses : ParsesLiterals r) where
    limits_of-Quiet : (l : Option ResourceLimits) → HasLimits l → Quiet (limits_of r l)
    unfolding limits_of
    limits_of-Quiet none h = search (quiet, must_parse-Quiet, parses.cpu_500m, parses.memory_512)
    limits_of-Quiet (some l) h =
        let cpu = limit_entry-Quiet "cpu" l.cpu_limit h.0 in
        let memory = limit_entry-Quiet "memory" l.memory_limit h.1 in search (quiet, cpu, memory)

    get_resource_requirements-Quiet :
        (x : PrStack) → HasLimits x.spec.resource_limits → Quiet (get_resource_requirements r x)
    unfolding get_resource_requirements
    get_resource_requirements-Quiet x h =
        let limits = limits_of-Quiet x.spec.resource_limits h in
        search (quiet, limits, must_parse-Quiet, parses.cpu_0m, parses.memory_0)

    create_objects-Quiet :
        (x : PrStack) (namespace name : String)
        → HasLimits x.spec.resource_limits
        → Quiet (create_objects r x namespace name)
    unfolding create_objects
    create_objects-Quiet x namespace name h =
        let requirements = get_resource_requirements-Quiet x h in
        search (quiet, create_or_update-Quiet, requirements) depth 8

    -- The objects of one service, for a stack whose limits are quantities.
    pub create_service_deployment-Quiet :
        (namespace name : String) (s : State)
        → HasLimits s.stack.spec.resource_limits
        → Ends (λ _ t. Quietly s t) (create_service_deployment r namespace name s)
    unfolding create_service_deployment
    create_service_deployment-Quiet namespace name s h =
        create_objects-Quiet s.stack namespace name h s

  deref-Quiet {ℓ} :
      {A : Type 0} {B : Type ℓ} (o : Option A) (k : A → Go B)
      → is_some o ≡ true
      → ((a : A) → Quiet (k a))
      → Quiet (deref o k)
  deref-Quiet none k h q = cc
  deref-Quiet (some a) k h q = q a

  redis_config-Quiet :
      (namespace : String) (o : Option RedisConfig)
      → is_some o ≡ true
      → Quiet (redis_config r namespace o)
  unfolding redis_config
  redis_config-Quiet namespace o h = deref-Quiet o _ h λ c. search (quiet, create_or_update-Quiet)

  nats_config-Quiet :
      (namespace : String) (o : Option NatsConfig) (rest : Go (Option Error))
      → is_some o ≡ true
      → Quiet rest
      → Quiet (nats_config r namespace o rest)
  unfolding nats_config
  nats_config-Quiet namespace o rest h q =
      deref-Quiet o _ h λ c. search (quiet, create_or_update-Quiet, q)

  mongo_db_config-Quiet :
      (namespace number : String) (o : Option MongoDbCredentials) (rest : Go (Option Error))
      → is_some o ≡ true
      → Quiet rest
      → Quiet (mongo_db_config r namespace number o rest)
  unfolding mongo_db_config
  mongo_db_config-Quiet namespace number o rest h q =
      deref-Quiet o _ h λ c. search (quiet, create_or_update-Quiet, q)

  -- With its credentials at hand, the stack's configuration is written without a panic.
  pub create_mongo_db_resources-Quiet :
      (namespace : String) (s : State)
      → HasCredentials s.stack.status
      → Ends (λ _ t. Quietly s t) (create_mongo_db_resources r namespace s)
  unfolding create_mongo_db_resources
  create_mongo_db_resources-Quiet namespace s h =
      mongo_db_config-Quiet namespace _ _ _ h.0
        (nats_config-Quiet namespace _ _ h.1 (redis_config-Quiet namespace _ h.2)) s
