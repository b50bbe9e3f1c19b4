-- ===== src/Examples/Runs.antt =====
-- The results on runs without errors, on errors and on objects, applied at concrete inputs.
use Prim.Native.String.{len}
use pishop_operator.Base.{distinct, String, [], none, true, ◌≡◌, refl, Elem, ◌⊎◌, ◌≤◌, is_some}
use pishop_operator.Kube.{ResourceRequirements}
use pishop_operator.Api.{Phase}
use pishop_operator.Client.Rules.{Ends}
use pishop_operator.Reconciler.{namespace_of}
use pishop_operator.Naming.{default_services, get_namespace_name, get_database_name}
use pishop_operator.Client.{Call}
use pishop_operator.Cleanup.{cleanup_all_resources}
use pishop_operator.Cleanup.Verdict.{Concluded, cleanup_all_resources-Concluded}
use pishop_operator.Stack.Ingress.{create_ingress}
use pishop_operator.Stack.Workload.{service_deployment, service_object}
use pishop_operator.Stack.Selectors.{Routes, service_deployment-Routes}
use pishop_operator.Regex.{match_string, derivative, nullable, in_class}
use pishop_operator.Validation.{validate_pr_number, pr_number_pattern}
use pishop_operator.Validation.Bounds.{IsDnsLabel, validate_pr_number-IsDnsLabel}
use pishop_operator.Lifecycle.Deploy.{conclude}
use pishop_operator.Lifecycle.Distinct.{HasDistinctTypes, conclude-HasDistinctTypes}
use pishop_operator.Lifecycle.Provision.{handle_provisioning}
use pishop_operator.Lifecycle.Main.{reconcile}
use pishop_operator.Lifecycle.Strict.{Clean}
use pishop_operator.Lifecycle.Failure.{handle_provisioning-Told}
use pishop_operator.Lifecycle.Progress.Rules.{Works}
use pishop_operator.Lifecycle.Progress.Onward.{deploy}
use pishop_operator.Lifecycle.Progress.Reconcile.{reconcile-Advance}
use pishop_operator.Samples.Fresh.{
  fresh_reconciler, fresh_server, fresh_parses, fresh_error-firm, fresh_error-read,
  fresh_error-created,
}
use pishop_operator.Samples.{
  sample_stack, sample_state, sample_client, sample_reconciler, sample_server, stored_in,
  sample-WellFormed, sample-Safe,
}

abbrev fresh_works : Works fresh_reconciler
fresh_works = record {
  answered = fresh_error-firm;
  read = λ k namespace name l e f. fresh_error-read k namespace name l e f;
  made = λ k namespace name o l e f. refl;
  created = fresh_error-created;
  encoded = λ m. refl;
}

reconcile-Advance_example :
    Ends
      (λ reply t. (reply.1 ≡ none) × ((fresh_server.stored t.log).status.phase ≡ Phase.running))
      (reconcile fresh_reconciler (sample_state Phase.deploying))
unfolding fresh_server stored_in
reconcile-Advance_example =
    reconcile-Advance fresh_reconciler fresh_server fresh_works Phase.deploying Phase.running deploy
      fresh_parses (λ l. refl) (sample_state Phase.deploying) refl
      (record { active = refl; alive = refl; storage = refl }) (sample-WellFormed Phase.deploying)
      tt

handle_provisioning-Told_example :
    Ends
      (λ reply t.
        ((reply.1 ≡ none)
          × (((sample_server.stored t.log).status.phase ≡ Phase.deploying)
              × Clean sample_client (sample_state Phase.provisioning).log t.log))
        ⊎ ((is_some reply.1 ≡ true)
            × ((t.stack.status.phase ≡ Phase.failed) ⊎ (t.stack.status.phase ≡ Phase.deploying))))
      (handle_provisioning sample_reconciler (sample_state Phase.provisioning))
handle_provisioning-Told_example =
    handle_provisioning-Told sample_reconciler sample_server (sample_state Phase.provisioning)
      (sample-Safe Phase.provisioning)

cleanup_all_resources-Concluded_example :
    Ends
      (λ o t. Concluded sample_client (namespace_of (sample_stack Phase.cleaning)) o t.log)
      (cleanup_all_resources sample_reconciler (sample_state Phase.cleaning))
cleanup_all_resources-Concluded_example =
    cleanup_all_resources-Concluded sample_reconciler (sample_state Phase.cleaning)

abbrev no_resources : ResourceRequirements
no_resources = record { limits = []; requests = [] }

service_deployment-Routes_example :
    Routes
      (service_deployment (sample_stack Phase.deploying) "n" "cart-service" no_resources)
      (service_object (sample_stack Phase.deploying) "n" "cart-service")
      (create_ingress sample_reconciler (sample_stack Phase.deploying) "n" "cart-service" "cart")
service_deployment-Routes_example =
    service_deployment-Routes sample_reconciler (sample_stack Phase.deploying) "n" "cart-service"
      "cart" no_resources

sample_number : validate_pr_number "42" ≡ none
unfolding validate_pr_number pr_number_pattern match_string derivative nullable in_class
sample_number = refl

validate_pr_number-IsDnsLabel_example :
    IsDnsLabel (get_namespace_name "42")
    × (len (get_namespace_name "42") ≤ 27)
    × ((service : String)
        → Elem service default_services
        → len (get_database_name service "42") ≤ 33)
validate_pr_number-IsDnsLabel_example = validate_pr_number-IsDnsLabel "42" sample_number

abbrev listing : Call
listing = Call.list_deployments "pr-42-shop-pilab-hu"

no_conditions : HasDistinctTypes []
unfolding distinct
no_conditions = refl

conclude-HasDistinctTypes_example :
    Ends
      (λ _ t. HasDistinctTypes t.stack.status.conditions)
      (conclude sample_reconciler "42" 1 3 3 (sample_state Phase.deploying))
conclude-HasDistinctTypes_example =
    conclude-HasDistinctTypes sample_reconciler "42" 1 3 3 (sample_state Phase.deploying)
      no_conditions
