-- ===== src/Lifecycle/Safety/Deployment.antt =====
-- Safety of `handleDeployment`, and what its loop reports.
use pishop_operator.Base.{
  ℕ, suc, String, ◌≡◌, ◌≢◌, refl, sym, ap, Bool, false, Option, none, some, List, ◌∷◌, [], map,
  str_eq, concat, if◌then◌else◌,
}
use mathlib.Core.Path.{subst}
use pishop_operator.Api.{PrStack, Phase, ServiceStatus}
use pishop_operator.Client.{Error, Call, State, Outcome, done, panic, Go, ◌>>=◌, attempt, modify}
use pishop_operator.Client.Rules.{
  Ends, Ends-bind, Ends-mono, Ends-attempt, Quietly, Quietly-refl, Quietly-trans, here, more,
}
use pishop_operator.Reconciler.{Reconciler, namespace_of}
use pishop_operator.Provisioning.Quiet.{
  ParsesLiterals, create_nats_resources-Quiet, create_redis_resources-Quiet,
}
use pishop_operator.Stack.Quiet.{
  HasCredentials, HasLimits, create_service_deployment-Quiet, create_mongo_db_resources-Quiet,
  create_registry_secret-Quiet, ensure_backup_storage-Quiet,
}
use pishop_operator.Stack.Secrets.{create_registry_secret, create_mongo_db_resources}
use pishop_operator.Stack.Storage.{ensure_backup_storage}
use pishop_operator.Stack.Workload.{create_service_deployment}
use pishop_operator.Provisioning.Queues.{create_nats_resources, create_redis_resources}
use pishop_operator.Lifecycle.Deploy.{
  report, deploy_each, conclude, deploy_services, fail_deployment, handle_deployment,
}
use pishop_operator.Lifecycle.Safety.Invariant.{Server, Safe}
use pishop_operator.Lifecycle.Safety.Keeps.{
  Keeps, keeps, Quiet→Keeps, Quietly→Safe, Safe-write, set_condition_now-Keeps,
  set_ready_condition-Keeps, set_progressing_condition-Keeps, update_status_with_error-Keeps,
}

-- The number of the services that do not run.
unfoldable pub count_failed : List ServiceStatus → ℕ
count_failed [] = 0
count_failed (s ∷ ss) = if str_eq s.status "Running" then count_failed ss else suc (count_failed ss)

-- What the loop over the services reports of them: each in order, and the number of the failures.
pub record Reports (names : List String) (statuses : List ServiceStatus) (failures : ℕ)
    : Type 0 where
  pub named : map (λ (x : ServiceStatus). x.name) statuses ≡ names
  pub counted : failures ≡ count_failed statuses

-- What was tried for each service in order, from a state on, and how its status reads: Running where its
-- objects were created without an error, and otherwise Failed with the text of the error.
pub data Tried (r : Reconciler) (namespace : String)
    : List String → State → List ServiceStatus → Type 0 where
  ended : (s : State) → Tried r namespace [] s []
  worked :
      (name : String) (names : List String) (s t : State) (z : ServiceStatus)
      (zs : List ServiceStatus)
      → create_service_deployment r namespace name s ≡ done none t
      → z.name ≡ name
      → z.status ≡ "Running"
      → Tried r namespace names t zs
      → Tried r namespace (name ∷ names) s (z ∷ zs)
  failed :
      (name : String) (names : List String) (s t : State) (e : Error) (z : ServiceStatus)
      (zs : List ServiceStatus)
      → create_service_deployment r namespace name s ≡ done (some e) t
      → z.name ≡ name
      → z.status ≡ "Failed"
      → z.message ≡ e.text
      → Tried r namespace names t zs
      → Tried r namespace (name ∷ names) s (z ∷ zs)

report-Tried :
    (r : Reconciler) (namespace name : String) (names : List String) (s t : State)
    (o : Option Error) (zs : List ServiceStatus) (failures : ℕ)
    → create_service_deployment r namespace name s ≡ done o t
    → Tried r namespace names t zs
    → Tried r namespace (name ∷ names) s (report name o (zs, failures)).0
unfolding report
report-Tried r namespace name names s t none zs failures e h =
    worked name names s t _ zs e refl refl h
report-Tried r namespace name names s t (some x) zs failures e h =
    failed name names s t x _ zs e refl refl refl h

-- The method's outcome, remembered.
Ends-recorded {ℓ κ} :
    {A : Type ℓ} {B : Type κ} (P : A → State → Type 0) (Q : B → State → Type 0) (m : Go A)
    (f : A → Go B) (s : State)
    → Ends P (m s)
    → ((a : A) (t : State) → m s ≡ done a t → P a t → Ends Q (f a t))
    → Ends Q ((m >>= f) s)
Ends-recorded {A = A} P Q m f s h k = over (m s) refl h
  where
    over :
        (o : Outcome A)
        → m s ≡ o
        → Ends P o
        → Ends Q (elim o [ done a t ↦ f a t | panic t ↦ panic t ])
    over (done a t) e p = k a t e p
    over (panic t) e p = p

report-Reports :
    (name : String) (err : Option Error) (names : List String) (statuses : List ServiceStatus)
    (failures : ℕ)
    → Reports names statuses failures
    → Reports
        (name ∷ names)
        (report name err (statuses, failures)).0
        (report name err (statuses, failures)).1
unfolding report count_failed
report-Reports name none names statuses failures h = record {
  named = ap (λ l. name ∷ l) h.named;
  counted = h.counted;
}
report-Reports name (some e) names statuses failures h = record {
  named = ap (λ l. name ∷ l) h.named;
  counted = ap suc h.counted;
}

module _ (r : Reconciler) (parses : ParsesLiterals r) where
  abbrev pub Loops : String → List String → State → List ServiceStatus × ℕ → State → Type 0
  Loops namespace names s (statuses, failures) t =
      Quietly s t × (Reports names statuses failures × Tried r namespace names s statuses)

  -- The loop deploys every service, whatever fails, and reports each of them.
  pub deploy_each-Reports :
      (namespace : String) (names : List String) (s : State)
      → HasLimits r s.stack.spec.resource_limits
      → Ends (λ a t. Loops namespace names s a t) (deploy_each r namespace names s)
  unfolding deploy_each count_failed
  deploy_each-Reports namespace [] s h =
      (Quietly-refl s, (record { named = refl; counted = refl }, ended s))
  deploy_each-Reports namespace (name ∷ names) s h =
      Ends-recorded (λ _ t. Quietly s t) _ (create_service_deployment r namespace name) _ s
        (create_service_deployment-Quiet r parses namespace name s h)
        λ err t e p.
          Ends-bind _ _ (deploy_each r namespace names) _ t
            (deploy_each-Reports namespace names t
              (subst (λ (x : PrStack). HasLimits r x.spec.resource_limits) (sym p.same) h))
            λ (statuses, failures) u (q, (told, tried)). (
              Quietly-trans s t u p q,
              (
                report-Reports name err names statuses failures told,
                report-Tried r namespace name names s t err statuses failures e tried,
              ),
            )

degraded-ne : Phase.degraded ≢ Phase.deploying
degraded-ne e = cc

failed-ne : Phase.failed ≢ Phase.deploying
failed-ne e = cc

running-ne : Phase.running ≢ Phase.deploying
running-ne e = cc

module _ (r : Reconciler) (server : Server r.client) (c : Bool) where
  pub conclude-Keeps :
      (number : String) (failures total reported : ℕ)
      → Keeps r server c (conclude r number failures total reported)
  unfolding conclude
  conclude-Keeps number failures total reported =
      search
        (
          keeps, set_condition_now-Keeps, set_ready_condition-Keeps,
          set_progressing_condition-Keeps, degraded-ne, failed-ne, running-ne,
        )
        depth 10

  pub write_services-Keeps :
      (statuses : List ServiceStatus)
      → Keeps r server c
          (modify λ y. record y { status = record (y.status) { services = statuses } })
  write_services-Keeps statuses s h =
      Safe-write r server c s _ refl
        (record { deploying_ready = h.sound.deploying_ready; timed = h.sound.timed }) h.created h

  fail_deployment-Keeps :
      (message : String) (e : Error) → Keeps r server c (fail_deployment r message e)
  unfolding fail_deployment
  fail_deployment-Keeps message e = search (keeps, update_status_with_error-Keeps)

  module _ (parses : ParsesLiterals r) where
    deploy_each-Keeps :
        (namespace : String) (names : List String)
        → Keeps r server c (deploy_each r namespace names)
    deploy_each-Keeps namespace names s h =
        Ends-mono _ _ (deploy_each r namespace names s)
          (deploy_each-Reports r parses namespace names s h.limits)
          λ a t p. Quietly→Safe r server c s t p.0 h

    deploy_services-Keeps : Keeps r server c (deploy_services r)
    unfolding deploy_services
    deploy_services-Keeps =
        search (keeps, deploy_each-Keeps, write_services-Keeps, conclude-Keeps) depth 8

    -- What comes after the configuration is written.
    after_configuration-Keeps :
        (namespace : String)
        → Keeps r server c (
            attempt
              (create_nats_resources r namespace)
              (fail_deployment r "Failed to create NATS resources")
              (attempt
                (create_redis_resources r namespace)
                (fail_deployment r "Failed to create Redis resources")
                (attempt
                  (ensure_backup_storage r namespace)
                  (fail_deployment r "Failed to create backup storage")
                  (deploy_services r))))
    after_configuration-Keeps namespace =
        let nats =
          Quiet→Keeps r server c (create_nats_resources r namespace)
            (create_nats_resources-Quiet r parses namespace) in
        let redis =
          Quiet→Keeps r server c (create_redis_resources r namespace)
            (create_redis_resources-Quiet r parses namespace) in
        let storage =
          Quiet→Keeps r server c (ensure_backup_storage r namespace)
            (ensure_backup_storage-Quiet r namespace) in
        search (keeps, nats, redis, storage, fail_deployment-Keeps, deploy_services-Keeps) depth 8

    -- In the phase Deploying the credentials are there, so nothing panics.
    pub handle_deployment-Keeps :
        (s : State)
        → Safe server r c s
        → s.stack.status.phase ≡ Phase.deploying
        → Ends (λ _ t. Safe server r c t) (handle_deployment r s)
    unfolding handle_deployment
    handle_deployment-Keeps s h e =
        Ends-attempt _ _ (create_registry_secret r namespace)
          (fail_deployment r "Failed to create registry secret") _ started
          (create_registry_secret-Quiet r namespace started)
          (λ x t q.
            fail_deployment-Keeps _ x t
              (Quietly→Safe r server c s t (Quietly-trans s started t start q) h))
          λ t q.
            let from_start = Quietly-trans s started t start q in
            Ends-attempt _ _ (create_mongo_db_resources r namespace)
              (fail_deployment r "Failed to create MongoDB resources") _ t
              (create_mongo_db_resources-Quiet r namespace t (
                subst (λ (x : PrStack). HasCredentials x.status) (sym from_start.same)
                  (h.sound.deploying_ready e)))
              (λ x u p.
                fail_deployment-Keeps _ x u
                  (Quietly→Safe r server c s u (Quietly-trans s t u from_start p) h))
              λ u p.
                after_configuration-Keeps namespace u
                  (Quietly→Safe r server c s u (Quietly-trans s t u from_start p) h)
      where
        namespace : String
        namespace = namespace_of s.stack

        started : State
        started = record s {
          log =
              Call.event false "Deploying"
                (concat ("Deploying services for PR #" ∷ s.stack.spec.pr_number ∷ []))
              ∷ s.log;
        }

        start : Quietly s started
        start = record { same = refl; grown = more _ tt here }
