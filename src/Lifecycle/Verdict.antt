-- ===== src/Lifecycle/Verdict.antt =====
-- The phase that a deployment ends in, and what it reports: `handleDeployment` from its loop on.
use pishop_operator.Base.{
  ℕ, String, List, Option, none, some, Bool, true, false, ◌≡◌, refl, sym, ap, ◌∙◌, map, length, ltb,
  ◌==◌, if◌then◌else◌,
}
use pishop_operator.Api.{PrStack, Phase, ServiceStatus, Condition}
use pishop_operator.Client.{
  Call, State, Outcome, done, panic, Go, ◌>>=◌, ◌>>◌, pure, maybe, record_call, get_object,
}
use pishop_operator.Client.Rules.{Ends, Ends-bind, Ends-attempt}
use mathlib.Core.Path.{subst}
use pishop_operator.Reconciler.{
  Reconciler, Reply, namespace_of, set_phase, save_status, no_result, after, requeue_interval_long,
}
use pishop_operator.Conditions.{
  set_condition, set_condition_now, set_ready_condition, set_progressing_condition, store_condition,
}
use pishop_operator.Provisioning.Quiet.{ParsesLiterals}
use pishop_operator.Lifecycle.Deploy.{
  services_to_deploy, deploy_each, all_failed, some_failed, none_failed, conclude, deploy_services,
}
use pishop_operator.Lifecycle.Safety.Invariant.{SameStatus, Server, Safe}
use pishop_operator.Lifecycle.Safety.Keeps.{Quietly→Safe, save_status-Ends}
use pishop_operator.Lifecycle.Safety.Deployment.{
  Tried, count_failed, deploy_each-Reports, conclude-Keeps, write_services-Keeps,
}

-- What the phase is for: all of the services failed, some did, or none.
unfoldable pub verdict : ℕ → ℕ → Phase
verdict failures total =
    if failures == total
    then Phase.failed
    else if ltb 0 failures
    then Phase.degraded
    else Phase.running

-- The method leaves the phase and the services as they are.
pub record Fixes {ℓ} {A : Type ℓ} (p : Phase) (services : List ServiceStatus) (m : Go A)
    : Type 0 where
  pub run :
      (s : State)
      → s.stack.status.phase ≡ p
      → s.stack.status.services ≡ services
      → Ends (λ _ t. (t.stack.status.phase ≡ p) × (t.stack.status.services ≡ services)) (m s)

module _ (p : Phase) (services : List ServiceStatus) where
  Fixes-pure {ℓ} : {A : Type ℓ} (a : A) → Fixes p services (pure a)
  Fixes-pure a = record { run = λ s e f. (e, f) }

  Fixes-bind {ℓ κ} :
      {A : Type ℓ} {B : Type κ} (m : Go A) (f : A → Go B)
      → Fixes p services m
      → ((a : A) → Fixes p services (f a))
      → Fixes p services (m >>= f)
  Fixes-bind m f h k = record {
    run = λ s e g. Ends-bind _ _ m f s (h.run s e g) λ a t q. (k a).run t q.0 q.1;
  }

  Fixes-maybe {ℓ} :
      {A : Type 0} {B : Type ℓ} (o : Option A) (absent : Go B) (present : A → Go B)
      → Fixes p services absent
      → ((a : A) → Fixes p services (present a))
      → Fixes p services (maybe o absent present)
  Fixes-maybe none absent present h k = h
  Fixes-maybe (some a) absent present h k = k a

  Fixes-if {ℓ} :
      {B : Type ℓ} (b : Bool) (m k : Go B)
      → Fixes p services m
      → Fixes p services k
      → Fixes p services (if b then m else k)
  Fixes-if true m k h h' = h
  Fixes-if false m k h h' = h'

  Fixes-get {ℓ} :
      {A : Type ℓ} (f : PrStack → Go A)
      → ((x : PrStack) → Fixes p services (f x))
      → Fixes p services (get_object >>= f)
  Fixes-get f h = record { run = λ s. (h s.stack).run s }

  Fixes-record : (c : Call) → Fixes p services (record_call c)
  Fixes-record c = record { run = λ s e f. (e, f) }

  Fixes-store : (c : Condition) → Fixes p services (store_condition c)
  Fixes-store c = record { run = λ s e f. (e, f) }

  ruleset fixes =
      (Fixes-pure, Fixes-maybe, Fixes-if, Fixes-get, Fixes-record, Fixes-store, Fixes-bind)

  pub set_condition_now-Fixes :
      (r : Reconciler) (type status reason message : String)
      → Fixes p services (set_condition_now r type status reason message)
  unfolding set_condition_now set_condition
  set_condition_now-Fixes r type status reason message = search fixes depth 10

-- The method sets the phase, and leaves the services.
pub record Sets (p : Phase) (m : Go (Unit {0})) : Type 0 where
  pub run :
      (s : State)
      → Ends
          (λ _ t. (t.stack.status.phase ≡ p) × (t.stack.status.services ≡ s.stack.status.services))
          (m s)

Sets-phase :
    (p : Phase) (m : Go (Unit {0})) (message : String)
    → ((services : List ServiceStatus) → Fixes p services m)
    → Sets p (set_phase p message >> m)
Sets-phase p m message h = record { run = λ s. (h s.stack.status.services).run _ refl refl }

module _ (r : Reconciler) where
  all_failed-Sets :
      (number : String) (failures : ℕ) → Sets Phase.failed (all_failed r number failures)
  unfolding all_failed
  all_failed-Sets number failures = search (Sets-phase, fixes, set_condition_now-Fixes) depth 12

  some_failed-Sets :
      (number : String) (failures total : ℕ)
      → Sets Phase.degraded (some_failed r number failures total)
  unfolding some_failed
  some_failed-Sets number failures total =
      search (Sets-phase, fixes, set_condition_now-Fixes) depth 12

  none_failed-Sets : (number : String) (total : ℕ) → Sets Phase.running (none_failed r number total)
  unfolding none_failed set_ready_condition set_progressing_condition
  none_failed-Sets number total = search (Sets-phase, fixes, set_condition_now-Fixes) depth 12

  pub conclude-Sets :
      (number : String) (failures total reported : ℕ)
      → Sets (verdict failures total) (conclude r number failures total reported)
  unfolding conclude verdict
  conclude-Sets number failures total reported = by_tests (failures == total) (ltb 0 failures)
    where
      by_tests :
          (b c : Bool)
          → Sets (if b then Phase.failed else if c then Phase.degraded else Phase.running) (
              if b
              then all_failed r number failures
              else if c
              then some_failed r number failures total
              else none_failed r number reported)
      by_tests true c = all_failed-Sets number failures
      by_tests false true = some_failed-Sets number failures total
      by_tests false false = none_failed-Sets number reported

-- What the status says after a deployment of the services from a state on: each of them in order, with
-- what came of the attempt to create its objects, and the phase by how many of them do not run.
pub record Deployed (r : Reconciler) (s : State) (y : PrStack) : Type 0 where
  pub reported : map (λ (z : ServiceStatus). z.name) y.status.services ≡ services_to_deploy s.stack
  pub tried : Tried r (namespace_of s.stack) (services_to_deploy s.stack) s y.status.services
  pub decided :
      y.status.phase
      ≡ verdict (count_failed y.status.services) (length (services_to_deploy s.stack))

Deployed-SameStatus :
    (r : Reconciler) (s : State) (y z : PrStack)
    → SameStatus y.status z.status
    → Deployed r s y
    → Deployed r s z
Deployed-SameStatus r s y z same d = record {
  reported = ap (map λ (w : ServiceStatus). w.name) same.same_services ∙ d.reported;
  tried =
      subst (Tried r (namespace_of s.stack) (services_to_deploy s.stack) s) (sym same.same_services)
        d.tried;
  decided =
      same.same_phase
      ∙ d.decided
      ∙ ap (λ l. verdict (count_failed l) (length (services_to_deploy s.stack)))
          (sym same.same_services);
}

Ends-both {ℓ} :
    {A : Type ℓ} (P Q : A → State → Type 0) (o : Outcome A)
    → Ends P o
    → Ends Q o
    → Ends (λ a t. P a t × Q a t) o
Ends-both P Q (done a t) h k = (h, k)
Ends-both P Q (panic t) h k = h

module _ (r : Reconciler) (server : Server r.client) (c : Bool) (parses : ParsesLiterals r) where
  -- From the loop over the services on, a deployment ends without a panic, whatever fails. The status
  -- lists the services that were to be deployed, in order: each as Running if its objects were created
  -- without an error, and as Failed with the text of the error otherwise. The phase is Failed if none of
  -- them runs, Degraded if some do not, and Running otherwise.
  pub deploy_services-Deployed :
      (s : State) → Safe server r c s → Ends (λ _ t. Deployed r s t.stack) (deploy_services r s)
  unfolding deploy_services
  deploy_services-Deployed s h =
      Ends-bind _ _ (deploy_each r namespace names) _ s
        (deploy_each-Reports r parses namespace names s h.limits)
        λ (statuses, failures) t (quiet, (told, tried)).
          let safe =
            write_services-Keeps r server c statuses t (Quietly→Safe r server c s t quiet h) in
          Ends-bind _ _
            (conclude r s.stack.spec.pr_number failures (length names) (length statuses)) _ _
            (Ends-both _ _ _
              (conclude-Keeps r server c s.stack.spec.pr_number failures (length names)
                (length statuses) _ safe)
              ((conclude-Sets r s.stack.spec.pr_number failures (length names)
                  (length statuses)).run
                _))
            λ _ u (safe_now, (phase, services)).
              let judged : Deployed r s u.stack = record {
                reported = ap (map λ (w : ServiceStatus). w.name) services ∙ told.named;
                tried = subst (Tried r namespace names s) (sym services) tried;
                decided =
                    phase
                    ∙ ap (λ n. verdict n (length names))
                        (told.counted ∙ ap count_failed (sym services));
              } in
              Ends-attempt _ _ (save_status r) (λ e. pure {A = Reply} (no_result, some e))
                (pure (after requeue_interval_long, none)) u
                (save_status-Ends r server c u safe_now)
                (λ e v p. Deployed-SameStatus r s u.stack v.stack p.1 judged)
                λ v p. Deployed-SameStatus r s u.stack v.stack p.1 judged
    where
      namespace : String
      namespace = namespace_of s.stack

      names : List String
      names = services_to_deploy s.stack
