-- ===== src/Cleanup.antt =====
-- Removal of what a stack holds: controllers/cleanup.go.
pub mod Quiet
pub mod Confined
pub mod Disjoint
pub mod Verdict
use pishop_operator.Base.{String, List, ◌∷◌, [], Option, none, some}
use pishop_operator.Kube.{Kind}
use pishop_operator.Client.{Error, Call, Go, ◌>>=◌, ◌>>◌, pure, attempt, get_object, errorf}
use pishop_operator.Reconciler.{Reconciler, call, namespace_of}
use pishop_operator.Naming.{default_services, cleanup_database_name, pr_user}
use pishop_operator.Provisioning.{mongo_uri_of}

module _ (r : Reconciler) where
  -- `if r.Get(...) == nil { if err := r.Delete(...); err != nil { return err } }`
  unfoldable pub delete_if_found : Kind → String → String → Go (Option Error)
  delete_if_found kind namespace name =
      attempt (call r (Call.get kind namespace name)) (λ e. pure none)
        (call r (Call.delete kind namespace name))

  unfoldable pub cleanup_services : Go (Option Error)
  unfolding delete_if_found
  cleanup_services = do x ← get_object; delete_if_found Kind.namespace_kind "" (namespace_of x)

  -- Errors of a drop are only logged.
  unfoldable pub drop_databases : String → List String → Go (Unit {0})
  drop_databases pr_number [] = pure tt
  drop_databases pr_number (service ∷ services) =
      let rest = drop_databases pr_number services in
      call r (Call.drop_database (cleanup_database_name service pr_number)) >> rest

  unfoldable pub cleanup_mongo_db : Go (Option Error)
  cleanup_mongo_db = do
    x ← get_object
    attempt (call r (Call.mongo_connect (mongo_uri_of r x)))
        (λ e. pure (some (errorf "failed to connect to MongoDB: " e)))
        (attempt (call r Call.mongo_ping)
          (λ e. call r Call.mongo_disconnect >> pure (some (errorf "failed to ping MongoDB: " e)))
          do
            drop_databases x.spec.pr_number default_services
            call r (Call.drop_user (pr_user x.spec.pr_number))
            call r Call.mongo_disconnect
            pure none)

  -- The deployment and the service of one server.
  unfoldable pub cleanup_server : String → Go (Option Error)
  unfolding delete_if_found
  cleanup_server name = do
    x ← get_object
    attempt (delete_if_found Kind.deployment_kind (namespace_of x) name) (λ e. pure (some e))
        (delete_if_found Kind.service_kind (namespace_of x) name)

  unfoldable pub cleanup_nats : Go (Option Error)
  unfolding cleanup_server
  cleanup_nats = cleanup_server "nats"

  unfoldable pub cleanup_redis : Go (Option Error)
  unfolding cleanup_server
  cleanup_redis = cleanup_server "redis"

  -- Only the error of the namespace's deletion is returned.
  unfoldable pub cleanup_all_resources : Go (Option Error)
  cleanup_all_resources = do cleanup_mongo_db; cleanup_nats; cleanup_redis; cleanup_services
