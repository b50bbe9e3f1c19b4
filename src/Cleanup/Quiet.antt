-- ===== src/Cleanup/Quiet.antt =====
-- Panics and saves in the methods of `Cleanup`.
use pishop_operator.Base.{String, List, ◌∷◌, []}
use pishop_operator.Kube.{Kind}
use pishop_operator.Client.Rules.{Quiet, quiet}
use pishop_operator.Reconciler.{Reconciler}
use pishop_operator.Cleanup.{
  delete_if_found, cleanup_services, drop_databases, cleanup_mongo_db, cleanup_server, cleanup_nats,
  cleanup_redis, cleanup_all_resources,
}

module _ (r : Reconciler) where
  delete_if_found-Quiet :
      (kind : Kind) (namespace name : String) → Quiet (delete_if_found r kind namespace name)
  unfolding delete_if_found
  delete_if_found-Quiet kind namespace name = search quiet

  pub cleanup_services-Quiet : Quiet (cleanup_services r)
  unfolding cleanup_services
  cleanup_services-Quiet = search (quiet, delete_if_found-Quiet)

  drop_databases-Quiet :
      (number : String) (services : List String) → Quiet (drop_databases r number services)
  unfolding drop_databases
  drop_databases-Quiet number [] = search quiet
  drop_databases-Quiet number (s ∷ ss) =
      let ih = drop_databases-Quiet number ss in search (quiet, ih)

  pub cleanup_mongo_db-Quiet : Quiet (cleanup_mongo_db r)
  unfolding cleanup_mongo_db
  cleanup_mongo_db-Quiet = search (quiet, drop_databases-Quiet) depth 8

  cleanup_server-Quiet : (name : String) → Quiet (cleanup_server r name)
  unfolding cleanup_server
  cleanup_server-Quiet name = search (quiet, delete_if_found-Quiet)

  pub cleanup_nats-Quiet : Quiet (cleanup_nats r)
  unfolding cleanup_nats
  cleanup_nats-Quiet = cleanup_server-Quiet "nats"

  pub cleanup_redis-Quiet : Quiet (cleanup_redis r)
  unfolding cleanup_redis
  cleanup_redis-Quiet = cleanup_server-Quiet "redis"

  pub cleanup_all_resources-Quiet : Quiet (cleanup_all_resources r)
  unfolding cleanup_all_resources
  cleanup_all_resources-Quiet = search (
    quiet, cleanup_services-Quiet, cleanup_mongo_db-Quiet, cleanup_nats-Quiet, cleanup_redis-Quiet,
  )
