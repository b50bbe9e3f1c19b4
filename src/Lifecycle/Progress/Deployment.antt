-- ===== src/Lifecycle/Progress/Deployment.antt =====
-- The deployment in a world without errors: `handleDeployment`.
use pishop_operator.Base.{
  ℕ, suc, String, List, ◌∷◌, [], Option, none, some, ◌≡◌, refl, sym, ◌∙◌, length, arith,
}
use mathlib.Core.Path.{subst}
use pishop_operator.Api.{PrStack, Phase}
use pishop_operator.Client.{Error, State, Go, ◌>>◌, pure, attempt, maybe}
use pishop_operator.Reconciler.{
  Reconciler, Reply, no_result, after, requeue_interval_long, save_status, namespace_of,
}
use pishop_operator.Stack.Storage.{ensure_backup_storage}
use pishop_operator.Lifecycle.Deploy.{
  split, services_or_default, fail_deployment, services_to_deploy, deploy_each, conclude,
  deploy_services, handle_deployment,
}
use pishop_operator.Lifecycle.Verdict.{verdict, conclude-Sets}
use pishop_operator.Lifecycle.Safety.Invariant.{Server}
use pishop_operator.Lifecycle.Progress.Rules.{
  Works, WhenDone, WhenDone-bind, Ends-done, NoError, Smooth, Leads,
}
use pishop_operator.Lifecycle.Progress.Servers.{
  create_nats_resources-Smooth, create_redis_resources-Smooth,
}
use pishop_operator.Lifecycle.Progress.Resources.{
  HasStorage, create_registry_secret-Smooth, create_mongo_db_resources-Smooth,
  ensure_backup_storage-NoError, deploy_each-none,
}
use pishop_operator.Lifecycle.Progress.Handlers.{Reaches, save-Reaches}

module _ (r : Reconciler) (server : Server r.client) (works : Works r) where
  -- There is always a service to deploy.
  services_to_deploy-some : (x : PrStack) → (n : ℕ) × (length (services_to_deploy x) ≡ suc n)
  unfolding services_to_deploy split
  services_to_deploy-some x = by_list x.spec.services
    where
      by_list : (l : List String) → (n : ℕ) × (length (services_or_default l) ≡ suc n)
      by_list [] = (11, refl)
      by_list (s ∷ ss) = (length ss, refl)

  verdict-none : (n : ℕ) → verdict 0 (suc n) ≡ Phase.running
  unfolding verdict
  verdict-none n = ground arith

  decided :
      (x : PrStack) (failures : ℕ)
      → failures ≡ 0
      → verdict failures (length (services_to_deploy x)) ≡ Phase.running
  decided x failures e = let (n, f) = services_to_deploy-some x in rw (e, f) (verdict-none n)

  -- What `handleDeployment` does after its loop.
  abbrev save_verdict : Go Reply
  save_verdict =
      attempt (save_status r) (λ e. pure {A = Reply} (no_result, some e))
        (pure (after requeue_interval_long, none))

  conclude-Reaches :
      (x : PrStack) (reported failures : ℕ) (u : State)
      → failures ≡ 0
      → WhenDone (Reaches r server works Phase.running) (
          (conclude r x.spec.pr_number failures (length (services_to_deploy x)) reported
              >> save_verdict)
            u)
  conclude-Reaches x reported failures u e =
      let n = length (services_to_deploy x) in
      let m = conclude r x.spec.pr_number failures n reported in
      WhenDone-bind
        (λ _ v.
          (v.stack.status.phase ≡ verdict failures n)
          × (v.stack.status.services ≡ u.stack.status.services))
        (Reaches r server works Phase.running) m (λ _. save_verdict) u
        (Ends-done
          (λ _ v.
            (v.stack.status.phase ≡ verdict failures n)
            × (v.stack.status.services ≡ u.stack.status.services))
          (m u) ((conclude-Sets r x.spec.pr_number failures n reported).run u))
        λ _ v p. save-Reaches r server works Phase.running _ _ v (p.0 ∙ decided x failures e)

  deploy_services-Reaches : Leads (Reaches r server works Phase.running) (deploy_services r)
  unfolding deploy_services
  deploy_services-Reaches = record {
    run = λ s.
        WhenDone-bind (λ p _. p.1 ≡ 0) (Reaches r server works Phase.running)
          (deploy_each r (namespace_of s.stack) (services_to_deploy s.stack)) _ s
          ((deploy_each-none r works (namespace_of s.stack) (services_to_deploy s.stack)).run s)
          λ (statuses, failures) t e. conclude-Reaches s.stack (length statuses) failures _ e;
  }

  -- A step that leaves the object, and the rest.
  Smooth-then :
      (m : Go (Option Error)) (fail : Error → Go Reply) (rest : Go Reply) (s : State)
      → Smooth m
      → ((t : State) → t.stack ≡ s.stack → WhenDone (Reaches r server works Phase.running) (rest t))
      → WhenDone (Reaches r server works Phase.running) (attempt m fail rest s)
  Smooth-then m fail rest s h k =
      WhenDone-bind (λ o t. (o ≡ none) × (t.stack ≡ s.stack)) (Reaches r server works Phase.running)
        m _ s (h.run s)
        λ o t (e, f).
          subst (λ o. WhenDone (Reaches r server works Phase.running) (maybe o rest fail t)) (sym e)
            (k t f)

  pub handle_deployment-Reaches :
      (s : State)
      → HasStorage r s.stack
      → WhenDone (Reaches r server works Phase.running) (handle_deployment r s)
  unfolding handle_deployment
  handle_deployment-Reaches s h =
      let namespace = namespace_of s.stack in
      Smooth-then _ _ _ _ (create_registry_secret-Smooth r works namespace) λ t1 e1.
        Smooth-then _ _ _ t1 (create_mongo_db_resources-Smooth r works namespace) λ t2 e2.
          Smooth-then _ _ _ t2 (create_nats_resources-Smooth r works namespace) λ t3 e3.
            Smooth-then _ _ _ t3 (create_redis_resources-Smooth r works namespace) λ t4 e4.
              let same : t4.stack ≡ s.stack = e4 ∙ e3 ∙ e2 ∙ e1 in
              WhenDone-bind NoError (Reaches r server works Phase.running)
                (ensure_backup_storage r namespace) _ t4
                (ensure_backup_storage-NoError r works namespace t4
                  (subst (HasStorage r) (sym same) h))
                λ o u f.
                  subst
                    (λ o. WhenDone (Reaches r server works Phase.running) (
                      maybe o (deploy_services r)
                        (fail_deployment r "Failed to create backup storage") u))
                    (sym f) (deploy_services-Reaches.run u)
