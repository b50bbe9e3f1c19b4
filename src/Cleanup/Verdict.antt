-- ===== src/Cleanup/Verdict.antt =====
-- The error that the cleanup returns: `cleanupAllResources` and `cleanupServices`.
use pishop_operator.Base.{String, ◌∷◌, Option, none, some, ◌≡◌, refl, ◌∙◌}
use mathlib.Core.Path.{subst}
use pishop_operator.Kube.{Kind}
use pishop_operator.Client.{Client, Error, Call, Log, State, pure, maybe}
use pishop_operator.Client.Rules.{Ends, Ends-bind}
use pishop_operator.Reconciler.{Reconciler, namespace_of, call}
use pishop_operator.Cleanup.{
  delete_if_found, cleanup_mongo_db, cleanup_nats, cleanup_redis, cleanup_services,
  cleanup_all_resources,
}
use pishop_operator.Cleanup.Quiet.{cleanup_mongo_db-Quiet, cleanup_nats-Quiet, cleanup_redis-Quiet}

-- How the cleanup ended: the namespace was not to be read, with whatever error, or it was and its
-- deletion was asked for.
pub data Concluded (client : Client) (namespace : String) : Option Error → Log → Type 0 where
  missed :
      (l : Log) (e : Error)
      → client.error (Call.get Kind.namespace_kind "" namespace ∷ l) ≡ some e
      → Concluded client namespace none (Call.get Kind.namespace_kind "" namespace ∷ l)
  asked :
      (l : Log)
      → client.error (Call.get Kind.namespace_kind "" namespace ∷ l) ≡ none
      → Concluded client namespace
          (client.error (
            Call.delete Kind.namespace_kind "" namespace
            ∷ Call.get Kind.namespace_kind "" namespace
            ∷ l))
          (Call.delete Kind.namespace_kind "" namespace
            ∷ Call.get Kind.namespace_kind "" namespace
            ∷ l)

module _ (r : Reconciler) where
  delete-Concluded :
      (namespace : String) (s : State)
      → Ends
          (λ o t. Concluded r.client namespace o t.log)
          (delete_if_found r Kind.namespace_kind "" namespace s)
  unfolding delete_if_found
  delete-Concluded namespace s = by_error (r.client.error l) refl
    where
      l : Log
      l = Call.get Kind.namespace_kind "" namespace ∷ s.log

      by_error :
          (o : Option Error)
          → r.client.error l ≡ o
          → Ends
              (λ o t. Concluded r.client namespace o t.log)
              (maybe o
                (call r (Call.delete Kind.namespace_kind "" namespace))
                (λ e. pure none)
                (record s { log = l }))
      by_error none e = asked s.log e
      by_error (some x) e = missed s.log x e

  services-Concluded :
      (s : State)
      → Ends (λ o t. Concluded r.client (namespace_of s.stack) o t.log) (cleanup_services r s)
  unfolding cleanup_services
  services-Concluded s = delete-Concluded (namespace_of s.stack) s

  -- The errors of the database and of the servers do not count: the cleanup ends without a panic in the
  -- deletion of the stack's namespace and returns that call's error, or, where the namespace cannot be
  -- read, for whatever reason, it returns no error.
  pub cleanup_all_resources-Concluded :
      (s : State)
      → Ends (λ o t. Concluded r.client (namespace_of s.stack) o t.log) (cleanup_all_resources r s)
  unfolding cleanup_all_resources
  cleanup_all_resources-Concluded s =
      Ends-bind _ _ (cleanup_mongo_db r) _ s (cleanup_mongo_db-Quiet r s) λ _ t p.
        Ends-bind _ _ (cleanup_nats r) _ t (cleanup_nats-Quiet r t) λ _ u q.
          Ends-bind _ _ (cleanup_redis r) _ u (cleanup_redis-Quiet r u) λ _ v k.
            let same : v.stack ≡ s.stack = k.same ∙ q.same ∙ p.same in
            subst
              (λ x.
                Ends (λ o t. Concluded r.client (namespace_of x) o t.log) (cleanup_services r v))
              same (services-Concluded v)
