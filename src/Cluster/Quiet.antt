-- ===== src/Cluster/Quiet.antt =====
-- Panics and saves in the methods of `Cluster`.
use pishop_operator.Base.{ℕ, String, List, ◌∷◌, [], true, some, ◌≡◌}
use pishop_operator.Kube.{Object, Deployment}
use pishop_operator.Client.{State}
use pishop_operator.Client.Rules.{Quiet, quiet, Ends, Quietly}
use pishop_operator.Reconciler.{Reconciler, namespace_of}
use pishop_operator.Api.{PrStack}
use mathlib.Core.Path.{subst, sym}
use native.Mathlib.Omega.{arith}
use pishop_operator.Cluster.{
  create_or_update, create_namespace, scale_each, scale_deployments, rollout_each, rollout_items,
  rollout_in, rollout_deployments, should_rollout_deployments,
}

pub rollout_has_time :
    (x : PrStack) → should_rollout_deployments x ≡ true → (t : ℕ) × (x.spec.deployed_at ≡ some t)
unfolding should_rollout_deployments
rollout_has_time x h = ground arith

module _ (r : Reconciler) where
  pub create_or_update-Quiet : (o : Object) → Quiet (create_or_update r o)
  unfolding create_or_update
  create_or_update-Quiet o = search quiet

  pub create_namespace-Quiet : (name : String) → Quiet (create_namespace r name)
  unfolding create_namespace
  create_namespace-Quiet name = search quiet

  scale_each-Quiet : (n : ℕ) (ds : List Deployment) → Quiet (scale_each r n ds)
  unfolding scale_each
  scale_each-Quiet n [] = search quiet
  scale_each-Quiet n (d ∷ ds) = let ih = scale_each-Quiet n ds in search (quiet, ih)

  pub scale_deployments-Quiet :
      (namespace : String) (n : ℕ) → Quiet (scale_deployments r namespace n)
  unfolding scale_deployments
  scale_deployments-Quiet namespace n = search (quiet, scale_each-Quiet)

  rollout_each-Quiet :
      (key time : String) (ds : List Deployment) → Quiet (rollout_each r key time ds)
  unfolding rollout_each
  rollout_each-Quiet key time [] = search quiet
  rollout_each-Quiet key time (d ∷ ds) =
      let ih = rollout_each-Quiet key time ds in search (quiet, ih)

  rollout_items-Quiet : (t : ℕ) (ds : List Deployment) → Quiet (rollout_items r (some t) ds)
  unfolding rollout_items
  rollout_items-Quiet t [] = search quiet
  rollout_items-Quiet t (d ∷ ds) = search rollout_each-Quiet

  rollout_in-Quiet : (namespace : String) (t : ℕ) → Quiet (rollout_in r namespace (some t))
  unfolding rollout_in
  rollout_in-Quiet namespace t = search (quiet, rollout_items-Quiet)

  -- A rollout that was asked for has a time, so it does not panic.
  pub rollout_deployments-Quiet :
      (s : State)
      → should_rollout_deployments s.stack ≡ true
      → Ends (λ _ t. Quietly s t) (rollout_deployments r s)
  unfolding rollout_deployments
  rollout_deployments-Quiet s h =
      let (t, e) = rollout_has_time s.stack h in
      subst (λ o. Ends (λ _ t. Quietly s t) (rollout_in r (namespace_of s.stack) o s)) (sym e)
        (rollout_in-Quiet (namespace_of s.stack) t s)
