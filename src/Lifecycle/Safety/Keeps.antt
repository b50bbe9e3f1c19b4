-- ===== src/Lifecycle/Safety/Keeps.antt =====
-- Methods that keep a run safe: rules, the saves, conditions, messages and phases.
use pishop_operator.Base.{
  String, ◌≡◌, ◌≢◌, refl, sym, ◌∙◌, Bool, true, false, Option, none, some, is_some, if◌then◌else◌,
  List, ◌∷◌,
}
use mathlib.Core.Path.{subst}
use pishop_operator.Api.{PrStack, PrStackSpec, Phase, Condition}
use pishop_operator.Client.{
  Error, Call, State, Go, ◌>>=◌, ◌>>◌, pure, maybe, attempt, get_object, modify, perform,
  record_call, put_object, update_status, update_stack,
}
use pishop_operator.Client.Rules.{
  Ends, Ends-bind, Ends-mono, Quiet, Quietly, IsSilent, here, Quiet-call, Quiet-record,
}
use pishop_operator.Reconciler.{Reconciler, save_status, save_stack, set_phase, set_message}
use pishop_operator.Conditions.{
  set_condition, set_condition_now, set_ready_condition, set_progressing_condition, store_condition,
  update_status_with_error, record_provisioning_error,
}
use pishop_operator.Stack.Quiet.{HasLimits}
use pishop_operator.Lifecycle.Safety.Invariant.{
  WellFormed, SameStatus, SameStatus-refl, SameStatus-WellFormed, Server, Safe, Quietly→Alike,
  Alike-Safe,
}

failed-ne : Phase.failed ≢ Phase.deploying
failed-ne e = cc

module _ (r : Reconciler) (server : Server r.client) (c : Bool) where
  -- The method ends, and a safe state stays safe.
  abbrev pub Keeps {ℓ} : {A : Type ℓ} → Go A → Type 0
  Keeps m = (s : State) → Safe server r c s → Ends (λ _ t. Safe server r c t) (m s)

  pub Keeps-pure {ℓ} : {A : Type ℓ} (a : A) → Keeps (pure a)
  Keeps-pure a s h = h

  pub Keeps-bind {ℓ κ} :
      {A : Type ℓ} {B : Type κ} (m : Go A) (f : A → Go B)
      → Keeps m
      → ((a : A) → Keeps (f a))
      → Keeps (m >>= f)
  Keeps-bind m f h k s safe = Ends-bind _ _ m f s (h s safe) k

  pub Keeps-maybe {ℓ} :
      {A : Type 0} {B : Type ℓ} (o : Option A) (absent : Go B) (present : A → Go B)
      → Keeps absent
      → ((a : A) → Keeps (present a))
      → Keeps (maybe o absent present)
  Keeps-maybe none absent present h k = h
  Keeps-maybe (some a) absent present h k = k a

  pub Keeps-if {ℓ} :
      {B : Type ℓ} (b : Bool) (m k : Go B) → Keeps m → Keeps k → Keeps (if b then m else k)
  Keeps-if true m k h h' = h
  Keeps-if false m k h h' = h'

  pub Keeps-attempt :
      {B : Type 0} (m : Go (Option Error)) (fail : Error → Go B) (rest : Go B)
      → Keeps m
      → ((e : Error) → Keeps (fail e))
      → Keeps rest
      → Keeps (attempt m fail rest)
  Keeps-attempt m fail rest h bad good = Keeps-bind m _ h λ err. Keeps-maybe err rest fail good bad

  pub Keeps-get {ℓ} :
      {A : Type ℓ} (f : PrStack → Go A) → ((x : PrStack) → Keeps (f x)) → Keeps (get_object >>= f)
  Keeps-get f h s = h s.stack s

  pub Quiet→Keeps {ℓ} : {A : Type ℓ} (m : Go A) → Quiet m → Keeps m
  Quiet→Keeps m q s h =
      Ends-mono _ _ (m s) (q s) λ a t p. Alike-Safe server r c s t (Quietly→Alike s t p) h

  pub Quietly→Safe : (s t : State) → Quietly s t → Safe server r c s → Safe server r c t
  Quietly→Safe s t q h = Alike-Safe server r c s t (Quietly→Alike s t q) h

  pub Keeps-call : (k : Call) → IsSilent k → Keeps (perform r.client k)
  Keeps-call k h = Quiet→Keeps (perform r.client k) (Quiet-call r.client k h)

  pub Keeps-record : (k : Call) → IsSilent k → Keeps (record_call k)
  Keeps-record k h = Quiet→Keeps (record_call k) (Quiet-record k h)

  -- A write that leaves the specification and what `WellFormed` speaks of.
  pub Keeps-modify :
      (f : PrStack → PrStack)
      → ((x : PrStack) → (f x).spec ≡ x.spec)
      → ((x : PrStack) → SameStatus x.status (f x).status)
      → Keeps (modify f)
  Keeps-modify f p q s h =
      Alike-Safe server r c s _
        (record { same_spec = p s.stack; same_status = q s.stack; grown = here }) h

  -- A write that keeps the status well formed.
  pub Safe-write :
      (s : State) (x : PrStack)
      → x.spec ≡ s.stack.spec
      → WellFormed x.status
      → (c ≡ true → is_some x.status.created_at ≡ true)
      → Safe server r c s
      → Safe server r c (record s { stack = x })
  Safe-write s x e w k h = record {
    sound = w;
    stored_sound = h.stored_sound;
    limits = subst (λ (y : PrStackSpec). HasLimits r y.resource_limits) (sym e) h.limits;
    created = k;
  }

  pub Keeps-set_message : (m : String) → Keeps (set_message m)
  Keeps-set_message m = Keeps-modify _ (λ x. refl) (λ x. same x)
    where
      same : (x : PrStack) → SameStatus x.status (record (x.status) { message = m })
      same x = record {
        same_phase = refl;
        same_mongo_db = refl;
        same_nats = refl;
        same_redis = refl;
        same_services = refl;
        same_created = refl;
        same_active = refl;
      }

  store_condition-Keeps : (k : Condition) → Keeps (store_condition k)
  store_condition-Keeps k =
      Keeps-modify _ (λ x. refl)
        (λ x. record {
          same_phase = refl;
          same_mongo_db = refl;
          same_nats = refl;
          same_redis = refl;
          same_services = refl;
          same_created = refl;
          same_active = refl;
        })

  -- Any phase but Deploying may be entered.
  pub Keeps-set_phase : (p : Phase) (m : String) → p ≢ Phase.deploying → Keeps (set_phase p m)
  Keeps-set_phase p m ne s h =
      Safe-write s _ refl (record { deploying_ready = λ d. absurd (ne d); timed = h.sound.timed })
        h.created h

  -- Saving the status keeps a safe state safe, whether the server accepts it or not, and what the
  -- server sends back is what was sent.
  pub save_status-Ends :
      (s : State)
      → Safe server r c s
      → Ends (λ _ t. Safe server r c t × SameStatus s.stack.status t.stack.status) (save_status r s)
  unfolding save_status
  save_status-Ends s h = by_error (r.client.error l) refl
    where
      l : List Call
      l = update_status s.stack ∷ s.log

      by_error :
          (e : Option Error)
          → r.client.error l ≡ e
          → Ends
              (λ _ t. Safe server r c t × SameStatus s.stack.status t.stack.status)
              (maybe e
                (put_object (r.client.stack l) >> pure {A = Option Error} none)
                (λ e. pure (some e))
                (record s { log = l }))
      by_error none e =
          let (there, spec, status) = server.status_saved s.stack s.log e in
          let w = SameStatus-WellFormed s.stack.status (r.client.stack l).status status h.sound in
          (
            record {
              sound = w;
              stored_sound = subst (λ x. WellFormed x.status) (sym there) w;
              limits =
                  subst (λ (y : PrStackSpec). HasLimits r y.resource_limits) (sym spec) h.limits;
              created = λ k. status.same_created ∙ h.created k;
            },
            status,
          )
      by_error (some x) e = (
        record {
          sound = h.sound;
          stored_sound = subst WellFormed (sym (server.refused _ s.log e)) h.stored_sound;
          limits = h.limits;
          created = h.created;
        },
        SameStatus-refl s.stack.status,
      )

  pub save_status-Keeps : Keeps (save_status r)
  save_status-Keeps s h = Ends-mono _ _ (save_status r s) (save_status-Ends s h) λ a t p. p.0

  pub ruleset keeps = (
    Keeps-pure, Keeps-maybe, Keeps-if, Keeps-attempt, Keeps-get, Keeps-call, Keeps-record,
    Keeps-bind, Keeps-set_message, Keeps-set_phase, save_status-Keeps, tt,
  )

  set_condition-Keeps : (k : Condition) → Keeps (set_condition r k)
  unfolding set_condition
  set_condition-Keeps k = search (keeps, store_condition-Keeps)

  pub set_condition_now-Keeps :
      (type status reason message : String) → Keeps (set_condition_now r type status reason message)
  unfolding set_condition_now
  set_condition_now-Keeps type status reason message = search (keeps, set_condition-Keeps)

  pub set_ready_condition-Keeps :
      (reason message : String) → Keeps (set_ready_condition r reason message)
  unfolding set_ready_condition
  set_ready_condition-Keeps reason message = search (keeps, set_condition_now-Keeps)

  pub set_progressing_condition-Keeps :
      (reason message : String) → Keeps (set_progressing_condition r reason message)
  unfolding set_progressing_condition
  set_progressing_condition-Keeps reason message = set_condition_now-Keeps _ _ _ _

  pub update_status_with_error-Keeps :
      (message : String) (e : Error) → Keeps (update_status_with_error r message e)
  unfolding update_status_with_error
  update_status_with_error-Keeps message e =
      search (keeps, set_condition_now-Keeps, failed-ne) depth 8

  pub record_provisioning_error-Keeps :
      (component : String) (e : Error) → Keeps (record_provisioning_error r component e)
  unfolding record_provisioning_error
  record_provisioning_error-Keeps component e = search (keeps, update_status_with_error-Keeps)

module _ (r : Reconciler) (server : Server r.client) where
  pub Safe-forget : (c : Bool) (s : State) → Safe server r c s → Safe server r false s
  Safe-forget c s h = record {
    sound = h.sound;
    stored_sound = h.stored_sound;
    limits = h.limits;
    created = λ e. cc;
  }

  -- After an update of the object its status is the one stored.
  pub save_stack-Keeps : Keeps r server false (save_stack r)
  unfolding save_stack
  save_stack-Keeps s h = by_error (r.client.error l) refl
    where
      l : List Call
      l = update_stack s.stack ∷ s.log

      by_error :
          (e : Option Error)
          → r.client.error l ≡ e
          → Ends
              (λ _ t. Safe server r false t)
              (maybe e
                (put_object (r.client.stack l) >> pure {A = Option Error} none)
                (λ e. pure (some e))
                (record s { log = l }))
      by_error none e =
          let (there, spec, status) = server.stack_saved s.stack s.log e in
          let w = subst WellFormed (sym status) h.stored_sound in
          record {
            sound = w;
            stored_sound = subst (λ (x : PrStack). WellFormed x.status) (sym there) w;
            limits = subst (λ (y : PrStackSpec). HasLimits r y.resource_limits) (sym spec) h.limits;
            created = λ k. cc;
          }
      by_error (some x) e = record {
        sound = h.sound;
        stored_sound = subst WellFormed (sym (server.refused _ s.log e)) h.stored_sound;
        limits = h.limits;
        created = h.created;
      }
