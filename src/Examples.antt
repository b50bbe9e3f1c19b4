-- ===== src/Examples.antt =====
-- The results of the other files, applied at concrete inputs.
pub mod Setup
pub mod Runs
use pishop_operator.Base.{String, ◌∷◌, [], true, ◌≡◌, ◌≢◌, refl, Elem, inl, inr, arith}
use pishop_operator.Naming.Isolation.{AllDigits}
use pishop_operator.Api.{Phase, Condition}
use pishop_operator.Client.{Log}
use pishop_operator.Client.Rules.{Ends}
use pishop_operator.Naming.{
  default_services, database_base, get_database_name, cleanup_database_name,
}
use pishop_operator.Naming.Tables.{get_database_name-isolates, cleanup_database_name-misses}
use pishop_operator.Conditions.{set_condition}
use pishop_operator.Conditions.Transition.{Transition, set_condition-Transition}
use pishop_operator.Lifecycle.Provision.{handle_provisioning}
use pishop_operator.Lifecycle.Deploy.{deploy_services, handle_deployment}
use pishop_operator.Lifecycle.Main.{reconcile, reconcile_timed}
use pishop_operator.Lifecycle.Dead.{reconcile_unexpired, reconcile_timed-reconcile_unexpired}
use pishop_operator.Lifecycle.Verdict.{Deployed, deploy_services-Deployed}
use pishop_operator.Lifecycle.Safety.Invariant.{WellFormed, Safe}
use pishop_operator.Lifecycle.Safety.Provisioning.{handle_provisioning-Keeps}
use pishop_operator.Lifecycle.Safety.Deployment.{handle_deployment-Keeps}
use pishop_operator.Lifecycle.Safety.Reconcile.{reconcile-Safe}
use pishop_operator.Lifecycle.Phases.Rules.{After}
use pishop_operator.Lifecycle.Phases.Handlers.{Step}
use pishop_operator.Lifecycle.Phases.Steps.{reconcile-Step}
use pishop_operator.Client.{Call}
use pishop_operator.Cluster.{scale_deployments}
use pishop_operator.Cluster.Scaling.{scale_calls, Scaled, scale_deployments-Scaled}
use pishop_operator.Cleanup.{cleanup_all_resources}
use pishop_operator.Cleanup.Confined.{Own, cleanup_all_resources-Own}
use pishop_operator.Samples.{
  sample_stack, sample_state, sample_client, sample_reconciler, sample_parses, sample_server,
  stored_in, sample-WellFormed, sample-Safe,
}

reconcile-Safe_example :
    Ends
      (λ _ t. WellFormed (sample_server.stored t.log).status)
      (reconcile sample_reconciler (sample_state Phase.deploying))
unfolding sample_server stored_in
reconcile-Safe_example =
    reconcile-Safe sample_reconciler sample_server sample_parses (sample_state Phase.deploying)
      (sample-WellFormed Phase.deploying) tt

reconcile-Step_example :
    After
      (λ t. Step Phase.deploying (sample_server.stored t.log).status.phase)
      (reconcile sample_reconciler (sample_state Phase.deploying))
unfolding sample_server stored_in
reconcile-Step_example =
    reconcile-Step sample_reconciler sample_server (sample_state Phase.deploying)

handle_provisioning-Keeps_example :
    Ends
      (λ _ t. Safe sample_server sample_reconciler true t)
      (handle_provisioning sample_reconciler (sample_state Phase.provisioning))
handle_provisioning-Keeps_example =
    handle_provisioning-Keeps sample_reconciler sample_server true (sample_state Phase.provisioning)
      (sample-Safe Phase.provisioning)

handle_deployment-Keeps_example :
    Ends
      (λ _ t. Safe sample_server sample_reconciler true t)
      (handle_deployment sample_reconciler (sample_state Phase.deploying))
handle_deployment-Keeps_example =
    handle_deployment-Keeps sample_reconciler sample_server true sample_parses
      (sample_state Phase.deploying) (sample-Safe Phase.deploying) refl

deploy_services-Deployed_example :
    Ends
      (λ _ t. Deployed sample_reconciler (sample_state Phase.deploying) t.stack)
      (deploy_services sample_reconciler (sample_state Phase.deploying))
deploy_services-Deployed_example =
    deploy_services-Deployed sample_reconciler sample_server true sample_parses
      (sample_state Phase.deploying) (sample-Safe Phase.deploying)

reconcile_timed-reconcile_unexpired_example :
    reconcile_timed sample_reconciler 9000000000000 (sample_state Phase.running)
    ≡ reconcile_unexpired sample_reconciler 9000000000000 (sample_state Phase.running)
reconcile_timed-reconcile_unexpired_example =
    reconcile_timed-reconcile_unexpired sample_reconciler 9000000000000 (sample_state Phase.running)
      refl

cart_is_default : Elem "cart-service" default_services
cart_is_default = inr (inl refl)

digits : AllDigits "42"
digits = omega arith

get_database_name-isolates_example :
    ◌≡◌ {A = String} "cart-service" "cart-service" × ◌≡◌ {A = String} "42" "42"
get_database_name-isolates_example =
    get_database_name-isolates "cart-service" "cart-service" "42" "42" cart_is_default
      cart_is_default digits digits refl

cleanup_database_name-misses_example :
    cleanup_database_name "cart-service" "42" ≢ get_database_name "cart-service" "42"
cleanup_database_name-misses_example =
    cleanup_database_name-misses "cart-service" "cart-service" "42" "42" cart_is_default
      cart_is_default digits digits

abbrev ready : Condition
ready = record {
  type = "Ready";
  status = "True";
  reason = "StackRunning";
  message = "";
  last_transition_time = 7;
}

set_condition-Transition_example :
    Ends
      (λ _ t. Transition ready [] t.stack.status.conditions)
      (set_condition sample_reconciler ready (sample_state Phase.running))
set_condition-Transition_example =
    set_condition-Transition sample_reconciler ready (sample_state Phase.running)

product_database : get_database_name "product-service" "42" ≡ "pishop_product_pr_42"
unfolding get_database_name database_base
product_database = refl

abbrev listing : Call
listing = Call.list_deployments "pr-42-shop-pilab-hu"

scale_deployments-Scaled_example :
    Ends
      (λ o t.
        Scaled sample_reconciler
          (scale_calls 0 (sample_client.deployments (listing ∷ [])))
          (record (sample_state Phase.running) { log = listing ∷ [] })
          o
          t)
      (scale_deployments sample_reconciler "pr-42-shop-pilab-hu" 0 (sample_state Phase.running))
scale_deployments-Scaled_example =
    scale_deployments-Scaled sample_reconciler 0 "pr-42-shop-pilab-hu" (sample_state Phase.running)
      refl

cleanup_all_resources-Own_example :
    Ends
      (λ _ t. Own (sample_stack Phase.cleaning) (sample_state Phase.cleaning) t)
      (cleanup_all_resources sample_reconciler (sample_state Phase.cleaning))
cleanup_all_resources-Own_example =
    cleanup_all_resources-Own sample_reconciler (sample_state Phase.cleaning)
