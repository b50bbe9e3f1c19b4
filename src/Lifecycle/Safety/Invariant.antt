-- ===== src/Lifecycle/Safety/Invariant.antt =====
-- What a PRStack's status always satisfies, and what the API server does with one.
use pishop_operator.Base.{◌≡◌, refl, sym, ◌∙◌, ap, Bool, true, none, some, is_some, ◌∷◌}
use pishop_operator.Api.{PrStack, PrStackStatus, PrStackSpec, Phase}
use pishop_operator.Client.{Client, Error, Call, Log, State, get_stack, update_stack, update_status}
use pishop_operator.Client.Rules.{IsSilent, Grows, here, more, Quietly}
use pishop_operator.Stack.Quiet.{HasCredentials, HasLimits}
use pishop_operator.Reconciler.{Reconciler}
use mathlib.Core.Path.{subst}

-- A stack that is to be deployed has its credentials, and one that has a time of creation has a time
-- of its last activity.
pub record WellFormed (x : PrStackStatus) : Type 0 where
  pub deploying_ready : x.phase ≡ Phase.deploying → HasCredentials x
  pub timed : is_some x.created_at ≡ true → is_some x.last_active_at ≡ true

-- The parts of a status that come back from the server as they were sent. Of the times this is only
-- that they are there: the server keeps whole seconds.
pub record SameStatus (x y : PrStackStatus) : Type 0 where
  pub same_phase : y.phase ≡ x.phase
  pub same_mongo_db : y.mongo_db ≡ x.mongo_db
  pub same_nats : y.nats ≡ x.nats
  pub same_redis : y.redis ≡ x.redis
  pub same_services : y.services ≡ x.services
  pub same_created : is_some y.created_at ≡ is_some x.created_at
  pub same_active : is_some y.last_active_at ≡ is_some x.last_active_at

pub SameStatus-refl : (x : PrStackStatus) → SameStatus x x
SameStatus-refl x = record {
  same_phase = refl;
  same_mongo_db = refl;
  same_nats = refl;
  same_redis = refl;
  same_services = refl;
  same_created = refl;
  same_active = refl;
}

pub SameStatus-trans : (x y z : PrStackStatus) → SameStatus x y → SameStatus y z → SameStatus x z
SameStatus-trans x y z p q = record {
  same_phase = q.same_phase ∙ p.same_phase;
  same_mongo_db = q.same_mongo_db ∙ p.same_mongo_db;
  same_nats = q.same_nats ∙ p.same_nats;
  same_redis = q.same_redis ∙ p.same_redis;
  same_services = q.same_services ∙ p.same_services;
  same_created = q.same_created ∙ p.same_created;
  same_active = q.same_active ∙ p.same_active;
}

pub SameStatus-WellFormed : (x y : PrStackStatus) → SameStatus x y → WellFormed x → WellFormed y
SameStatus-WellFormed x y e w = record {
  deploying_ready = λ d.
      let (a, b, c) = w.deploying_ready (sym e.same_phase ∙ d) in
      (ap is_some e.same_mongo_db ∙ a, ap is_some e.same_nats ∙ b, ap is_some e.same_redis ∙ c);
  timed = λ d. e.same_active ∙ w.timed (sym e.same_created ∙ d);
}

-- The API server as the controller relies on it: `stored` is the PRStack that it holds after the
-- calls of a log. The status subresource takes the status alone, an update of the object leaves the
-- status, and only this controller writes it.
pub record Server (client : Client) : Type 0 where
  pub stored : Log → PrStack
  pub fetched :
      (l : Log) → client.error (get_stack ∷ l) ≡ none → client.stack (get_stack ∷ l) ≡ stored l
  pub status_saved :
      (x : PrStack) (l : Log)
      → client.error (update_status x ∷ l) ≡ none
      → (stored (update_status x ∷ l) ≡ client.stack (update_status x ∷ l))
        × ((client.stack (update_status x ∷ l)).spec ≡ x.spec)
        × SameStatus x.status (client.stack (update_status x ∷ l)).status
  pub stack_saved :
      (x : PrStack) (l : Log)
      → client.error (update_stack x ∷ l) ≡ none
      → (stored (update_stack x ∷ l) ≡ client.stack (update_stack x ∷ l))
        × ((client.stack (update_stack x ∷ l)).spec ≡ x.spec)
        × ((client.stack (update_stack x ∷ l)).status ≡ (stored l).status)
  pub refused :
      (c : Call) (l : Log) {e : Error}
      → client.error (c ∷ l) ≡ some e
      → (stored (c ∷ l)).status ≡ (stored l).status
  pub silent : (c : Call) (l : Log) → IsSilent c → (stored (c ∷ l)).status ≡ (stored l).status

-- The state of a run: the object at hand and the one stored are well formed, and the limits are
-- quantities. With `c` the object has a time of creation.
pub record Safe {client : Client} (server : Server client) (r : Reconciler) (c : Bool) (s : State)
    : Type 0 where
  pub sound : WellFormed s.stack.status
  pub stored_sound : WellFormed (server.stored s.log).status
  pub limits : HasLimits r s.stack.spec.resource_limits
  pub created : c ≡ true → is_some s.stack.status.created_at ≡ true

-- A method's effect where it changes no more than messages, conditions and the log.
pub record Alike (s t : State) : Type 0 where
  pub same_spec : t.stack.spec ≡ s.stack.spec
  pub same_status : SameStatus s.stack.status t.stack.status
  pub grown : Grows s.log t.log

pub Quietly→Alike : (s t : State) → Quietly s t → Alike s t
Quietly→Alike s t q = record {
  same_spec = ap (λ (x : PrStack). x.spec) q.same;
  same_status =
      subst (λ x. SameStatus s.stack.status x.status) (sym q.same) (SameStatus-refl s.stack.status);
  grown = q.grown;
}

module _ {client : Client} (server : Server client) where
  pub Grows-WellFormed :
      {l m : Log}
      → Grows l m
      → WellFormed (server.stored l).status
      → WellFormed (server.stored m).status
  Grows-WellFormed here w = w
  Grows-WellFormed (more {m = m} c h g) w =
      subst WellFormed (sym (server.silent c m h)) (Grows-WellFormed g w)

  pub Alike-Safe :
      (r : Reconciler) (c : Bool) (s t : State) → Alike s t → Safe server r c s → Safe server r c t
  Alike-Safe r c s t a h = record {
    sound = SameStatus-WellFormed s.stack.status t.stack.status a.same_status h.sound;
    stored_sound = Grows-WellFormed a.grown h.stored_sound;
    limits = subst (λ (x : PrStackSpec). HasLimits r x.resource_limits) (sym a.same_spec) h.limits;
    created = λ e. a.same_status.same_created ∙ h.created e;
  }
