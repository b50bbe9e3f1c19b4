-- ===== src/Lifecycle/Deploy.antt =====
-- The deployment of the services: `handleDeployment`.
use Prim.Native.Char.{code}
use pishop_operator.Base.{
  push, ℕ, suc, String, List, ◌∷◌, [], ◌-◌, ◌==◌, none, some, true, false, concat, ltb,
  if◌then◌else◌, length, itoa, ◌≡◌, refl, Option,
}
use pishop_operator.Api.{PrStack, Phase, ServiceStatus}
use pishop_operator.Client.{Error, Go, ◌>>=◌, ◌>>◌, pure, attempt, get_object, modify}
use pishop_operator.Naming.{default_services, default_services_string}
use pishop_operator.Reconciler.{
  Reconciler, Reply, no_result, after, requeue_interval_medium, requeue_interval_long, emit,
  save_status, set_phase, namespace_of,
}
use pishop_operator.Conditions.{
  set_condition_now, set_ready_condition, set_progressing_condition, update_status_with_error,
}
use pishop_operator.Provisioning.Queues.{create_nats_resources, create_redis_resources}
use pishop_operator.Stack.Secrets.{create_mongo_db_resources, create_registry_secret}
use pishop_operator.Stack.Storage.{ensure_backup_storage}
use pishop_operator.Stack.Workload.{create_service_deployment}

-- `strings.Split` at a separator of one character.
unfoldable pub split : ℕ → String → List String
split separator String.[] = "" ∷ []
split separator (String.◌∷◌ c s) =
    let rest = split separator s in if code c == separator then "" ∷ rest else push c rest

split_default : split b',' default_services_string ≡ default_services
unfolding split
split_default = refl

abbrev pub services_or_default : List String → List String
services_or_default [] = split b',' default_services_string
services_or_default (s ∷ ss) = s ∷ ss

-- The services to deploy: those of the specification, or the default ones.
unfoldable pub services_to_deploy : PrStack → List String
unfolding split
services_to_deploy x = services_or_default x.spec.services

abbrev failed_status : String → Error → ServiceStatus
failed_status name e = record { name = name; status = "Failed"; url = ""; message = e.text }

abbrev running_status : String → ServiceStatus
running_status name = record {
  name = name;
  status = "Running";
  url = "";
  message = "Service deployed successfully";
}

-- What the loop adds for one service: its status in front, and one more failure on an error.
unfoldable pub report : String → Option Error → List ServiceStatus × ℕ → List ServiceStatus × ℕ
report name (some e) (statuses, failures) = (failed_status name e ∷ statuses, suc failures)
report name none (statuses, failures) = (running_status name ∷ statuses, failures)

module _ (r : Reconciler) where
  -- The loop: the status of each service in order, and the number of those that failed.
  unfoldable pub deploy_each : String → List String → Go (List ServiceStatus × ℕ)
  deploy_each namespace [] = pure ([], 0)
  deploy_each namespace (name ∷ names) =
      let rest = deploy_each namespace names in
      create_service_deployment r namespace name >>= λ err.
      rest >>= λ reports. pure (report name err reports)

  unfoldable pub all_failed : String → ℕ → Go (Unit {0})
  all_failed number failures = do
    let text = concat ("All " ∷ itoa failures ∷ " services failed to deploy" ∷ [])
    set_phase Phase.failed text
    set_condition_now r "Ready" "False" "AllServicesFailed" text
    set_condition_now r "Degraded" "True" "AllServicesFailed" "No services are running"
    emit r true "Deployed"
        (concat ("PR #" ∷ number ∷ " stack failed: all services failed to deploy" ∷ []))

  unfoldable pub some_failed : String → ℕ → ℕ → Go (Unit {0})
  some_failed number failures total = do
    let ratio = concat (itoa failures ∷ "/" ∷ itoa total ∷ " services failed" ∷ [])
    set_phase Phase.degraded (concat ("Stack is degraded: " ∷ ratio ∷ []))
    set_condition_now r "Ready" "True" "PartiallyDegraded"
        (concat (itoa (total - failures) ∷ "/" ∷ itoa total ∷ " services running" ∷ []))
    set_condition_now r "Degraded" "True" "ServiceFailures"
        (concat (itoa failures ∷ " services failed to deploy" ∷ []))
    emit r true "Deployed" (concat ("PR #" ∷ number ∷ " stack is degraded: " ∷ ratio ∷ []))

  unfoldable pub none_failed : String → ℕ → Go (Unit {0})
  none_failed number total = do
    set_phase Phase.running "PR stack is running"
    set_ready_condition r "StackRunning"
        (concat ("All " ∷ itoa total ∷ " services deployed successfully" ∷ []))
    set_progressing_condition r "Complete" "Stack deployment completed"
    emit r false "Deployed"
        (concat ("PR #" ∷ number ∷ " stack is now running with " ∷ itoa total ∷ " services" ∷ []))

  -- What the counts decide: Failed, Degraded or Running. The last number is that of the statuses.
  unfoldable pub conclude : String → ℕ → ℕ → ℕ → Go (Unit {0})
  unfolding all_failed some_failed none_failed
  conclude number failures total reported =
      if failures == total
      then all_failed number failures
      else if ltb 0 failures
      then some_failed number failures total
      else none_failed number reported

  -- From the loop over the services to the end.
  unfoldable pub deploy_services : Go Reply
  unfolding conclude
  deploy_services = do
    x ← get_object
    let services = services_to_deploy x
    (statuses, failures) ← deploy_each (namespace_of x) services
    modify λ y. record y { status = record (y.status) { services = statuses } }
    conclude x.spec.pr_number failures (length services) (length statuses)
    attempt (save_status r) (λ e. pure (no_result, some e))
        (pure (after requeue_interval_long, none))

  -- An error of the set-up is recorded in the status and returned.
  unfoldable pub fail_deployment : String → Error → Go Reply
  fail_deployment message e = do
    update_status_with_error r message e
    pure (after requeue_interval_medium, some e)

  unfoldable pub handle_deployment : Go Reply
  unfolding fail_deployment
  handle_deployment = do
    x ← get_object
    let namespace = namespace_of x
    emit r false "Deploying" (concat ("Deploying services for PR #" ∷ x.spec.pr_number ∷ []))
    attempt (create_registry_secret r namespace)
        (fail_deployment "Failed to create registry secret")
        (attempt (create_mongo_db_resources r namespace)
          (fail_deployment "Failed to create MongoDB resources")
          (attempt (create_nats_resources r namespace)
            (fail_deployment "Failed to create NATS resources")
            (attempt (create_redis_resources r namespace)
              (fail_deployment "Failed to create Redis resources")
              (attempt (ensure_backup_storage r namespace)
                (fail_deployment "Failed to create backup storage") deploy_services))))
