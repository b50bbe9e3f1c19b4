-- ===== src/Lifecycle/Phases/Rules.antt =====
-- Methods that stay within a set of phases, whether they end or panic: rules.
use pishop_operator.Base.{
  String, ◌∷◌, ◌≡◌, refl, sym, Bool, true, false, Option, none, some, if◌then◌else◌,
}
use mathlib.Core.Path.{subst}
use pishop_operator.Api.{PrStack, Phase, Condition}
use pishop_operator.Client.{
  Error, Call, Log, State, Outcome, done, panic, Go, ◌>>=◌, ◌>>◌, pure, crash, maybe, attempt,
  get_object, put_object, modify, perform, record_call, update_status, update_stack,
}
use pishop_operator.Client.Rules.{Ends, Quiet, IsSilent, Grows, Quietly, here, more}
use pishop_operator.Reconciler.{Reconciler, save_status, save_stack, set_phase, must_parse}
use pishop_operator.Conditions.{
  set_condition, set_condition_now, set_ready_condition, set_progressing_condition, store_condition,
  update_status_with_error, record_provisioning_error,
}
use pishop_operator.Lifecycle.Safety.Invariant.{Server}
use pishop_operator.Stack.Secrets.{deref}

-- The state that a method leaves, also by a panic.
abbrev pub After {ℓ} : {A : Type ℓ} → (State → Type 0) → Outcome A → Type 0
After P (done a s) = P s
After P (panic s) = P s

pub After-bind {ℓ κ} :
    {A : Type ℓ} {B : Type κ} (P Q : State → Type 0) (m : Go A) (f : A → Go B) (s : State)
    → After P (m s)
    → ((t : State) → P t → Q t)
    → ((a : A) (t : State) → P t → After Q (f a t))
    → After Q ((m >>= f) s)
After-bind {A = A} P Q m f s h j k = over (m s) h
  where
    over : (o : Outcome A) → After P o → After Q (elim o [ done a t ↦ f a t | panic t ↦ panic t ])
    over (done a t) e = k a t e
    over (panic t) e = j t e

module _ (r : Reconciler) (server : Server r.client) (Allowed : Phase → Type 0) where
  -- The phase of the object at hand and that of the one stored are allowed.
  pub record Staged (s : State) : Type 0 where
    pub held : Allowed s.stack.status.phase
    pub kept : Allowed (server.stored s.log).status.phase

  pub record Within {ℓ} {A : Type ℓ} (m : Go A) : Type 0 where
    pub run : (s : State) → Staged s → After Staged (m s)

  pub Within-pure {ℓ} : {A : Type ℓ} (a : A) → Within (pure a)
  Within-pure a = record { run = λ s h. h }

  pub Within-crash {ℓ} : {A : Type ℓ} → Within {A = A} crash
  Within-crash = record { run = λ s h. h }

  pub Within-bind {ℓ κ} :
      {A : Type ℓ} {B : Type κ} (m : Go A) (f : A → Go B)
      → Within m
      → ((a : A) → Within (f a))
      → Within (m >>= f)
  Within-bind m f h k = record {
    run = λ s p. After-bind Staged Staged m f s (h.run s p) (λ t q. q) λ a t q. (k a).run t q;
  }

  pub Within-maybe {ℓ} :
      {A : Type 0} {B : Type ℓ} (o : Option A) (absent : Go B) (present : A → Go B)
      → Within absent
      → ((a : A) → Within (present a))
      → Within (maybe o absent present)
  Within-maybe none absent present h k = h
  Within-maybe (some a) absent present h k = k a

  pub Within-deref {ℓ} :
      {A : Type 0} {B : Type ℓ} (o : Option A) (present : A → Go B)
      → ((a : A) → Within (present a))
      → Within (deref o present)
  Within-deref none present k = Within-crash
  Within-deref (some a) present k = k a

  pub Within-if {ℓ} :
      {B : Type ℓ} (b : Bool) (m k : Go B) → Within m → Within k → Within (if b then m else k)
  Within-if true m k h h' = h
  Within-if false m k h h' = h'

  pub Within-attempt :
      {B : Type 0} (m : Go (Option Error)) (fail : Error → Go B) (rest : Go B)
      → Within m
      → ((e : Error) → Within (fail e))
      → Within rest
      → Within (attempt m fail rest)
  Within-attempt m fail rest h bad good =
      Within-bind m _ h λ err. Within-maybe err rest fail good bad

  pub Within-get {ℓ} :
      {A : Type ℓ} (f : PrStack → Go A) → ((x : PrStack) → Within (f x)) → Within (get_object >>= f)
  Within-get f h = record { run = λ s. (h s.stack).run s }

  Staged-grown :
      {l m : Log}
      → Grows l m
      → Allowed (server.stored l).status.phase
      → Allowed (server.stored m).status.phase
  Staged-grown here k = k
  Staged-grown (more {m = m} c h g) k =
      subst (λ x. Allowed x.phase) (sym (server.silent c m h)) (Staged-grown g k)

  pub Within-record : (c : Call) → IsSilent c → Within (record_call c)
  Within-record c h = record {
    run = λ s p. record { held = p.held; kept = Staged-grown (more c h here) p.kept };
  }

  pub Within-call : (c : Call) → IsSilent c → Within (perform r.client c)
  Within-call c h = record {
    run = λ s p. record { held = p.held; kept = Staged-grown (more c h here) p.kept };
  }

  pub Within-modify :
      (f : PrStack → PrStack)
      → ((x : PrStack) → (f x).status.phase ≡ x.status.phase)
      → Within (modify f)
  Within-modify f e = record {
    run = λ s p. record { held = subst Allowed (sym (e s.stack)) p.held; kept = p.kept };
  }

  pub Within-phase : (p : Phase) (message : String) → Allowed p → Within (set_phase p message)
  Within-phase p message a = record { run = λ s h. record { held = a; kept = h.kept } }

  pub Quiet-Within {ℓ} : {A : Type ℓ} (m : Go A) → Quiet m → Within m
  Quiet-Within {A = A} m q = record { run = λ s p. over s p (m s) (q s) }
    where
      over : (s : State) → Staged s → (o : Outcome A) → Ends (λ _ t. Quietly s t) o → After Staged o
      over s p (done a t) e = record {
        held = subst (λ (x : PrStack). Allowed x.status.phase) (sym e.same) p.held;
        kept = Staged-grown e.grown p.kept;
      }
      over s p (panic t) e = absurd e

  pub Within-save_status : Within (save_status r)
  unfolding save_status
  Within-save_status = record {
    run = λ s p. by_error s p (r.client.error (update_status s.stack ∷ s.log)) refl;
  }
    where
      by_error :
          (s : State)
          → Staged s
          → (e : Option Error) → r.client.error (update_status s.stack ∷ s.log) ≡ e
          → After Staged (
              maybe e
                (put_object (r.client.stack (update_status s.stack ∷ s.log))
                  >> pure {A = Option Error} none)
                (λ e. pure (some e))
                (record s { log = update_status s.stack ∷ s.log }))
      by_error s p none e =
          let (there, spec, status) = server.status_saved s.stack s.log e in
          let same = subst Allowed (sym status.same_phase) p.held in
          record {
            held = same;
            kept = subst (λ (x : PrStack). Allowed x.status.phase) (sym there) same;
          }
      by_error s p (some x) e = record {
        held = p.held;
        kept = subst (λ x. Allowed x.phase) (sym (server.refused _ s.log e)) p.kept;
      }

  pub Within-save_stack : Within (save_stack r)
  unfolding save_stack
  Within-save_stack = record {
    run = λ s p. by_error s p (r.client.error (update_stack s.stack ∷ s.log)) refl;
  }
    where
      by_error :
          (s : State)
          → Staged s
          → (e : Option Error) → r.client.error (update_stack s.stack ∷ s.log) ≡ e
          → After Staged (
              maybe e
                (put_object (r.client.stack (update_stack s.stack ∷ s.log))
                  >> pure {A = Option Error} none)
                (λ e. pure (some e))
                (record s { log = update_stack s.stack ∷ s.log }))
      by_error s p none e =
          let (there, spec, status) = server.stack_saved s.stack s.log e in
          let same = subst (λ x. Allowed x.phase) (sym status) p.kept in
          record {
            held = same;
            kept = subst (λ (x : PrStack). Allowed x.status.phase) (sym there) same;
          }
      by_error s p (some x) e = record {
        held = p.held;
        kept = subst (λ x. Allowed x.phase) (sym (server.refused _ s.log e)) p.kept;
      }

  pub ruleset within = (
    Within-pure, Within-crash, Within-maybe, Within-attempt, Within-deref, Within-if, Within-get,
    Within-call, Within-record, Within-bind, Within-phase, Within-save_status, Within-save_stack,
    tt,
  )

  pub Within-must_parse : (q : String) → Within (must_parse r q)
  unfolding must_parse
  Within-must_parse q = search within

  store_condition-Within : (c : Condition) → Within (store_condition c)
  store_condition-Within c = Within-modify _ λ x. refl

  pub set_condition_now-Within :
      (type status reason message : String)
      → Within (set_condition_now r type status reason message)
  unfolding set_condition_now set_condition
  set_condition_now-Within type status reason message =
      search (within, store_condition-Within) depth 10

  pub set_ready_condition-Within :
      (reason message : String) → Within (set_ready_condition r reason message)
  unfolding set_ready_condition
  set_ready_condition-Within reason message = search (within, set_condition_now-Within)

  pub set_progressing_condition-Within :
      (reason message : String) → Within (set_progressing_condition r reason message)
  unfolding set_progressing_condition
  set_progressing_condition-Within reason message = set_condition_now-Within _ _ _ _

  module _ (fails : Allowed Phase.failed) where
    pub update_status_with_error-Within :
        (message : String) (e : Error) → Within (update_status_with_error r message e)
    unfolding update_status_with_error
    update_status_with_error-Within message e =
        search (within, set_condition_now-Within, fails) depth 8

    pub record_provisioning_error-Within :
        (component : String) (e : Error) → Within (record_provisioning_error r component e)
    unfolding record_provisioning_error
    record_provisioning_error-Within component e = search (within, update_status_with_error-Within)
