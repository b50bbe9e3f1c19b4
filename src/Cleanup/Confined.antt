-- ===== src/Cleanup/Confined.antt =====
-- What belongs to a stack, and what the cleanup of controllers/cleanup.go touches.
use pishop_operator.Base.{
  concat, String, List, ◌∷◌, [], ◌≡◌, refl, sym, Option, none, some, inl, inr, Elem,
}
use mathlib.Core.Path.{subst}
use pishop_operator.Kube.{Kind}
use pishop_operator.Api.{PrStack}
use pishop_operator.Client.{
  Error, Call, Log, State, Go, ◌>>=◌, pure, maybe, attempt, get_object, perform,
}
use pishop_operator.Client.Rules.{Ends, Ends-bind, Ends-mono}
use pishop_operator.Naming.{default_services, get_namespace_name, cleanup_database_name, pr_user}
use pishop_operator.Reconciler.{Reconciler, namespace_of}
use pishop_operator.Cleanup.{
  delete_if_found, cleanup_services, drop_databases, cleanup_mongo_db, cleanup_server, cleanup_nats,
  cleanup_redis, cleanup_all_resources,
}

-- The names of a stack, written out.
abbrev pub own_namespace : PrStack → String
own_namespace x = concat ("pr-" ∷ x.spec.pr_number ∷ "-shop-pilab-hu" ∷ [])

abbrev pub own_database : PrStack → String → String
own_database x service = concat ("pishop_" ∷ service ∷ "_pr_" ∷ x.spec.pr_number ∷ [])

abbrev pub own_user : PrStack → String
own_user x = concat ("pishop_pr_" ∷ x.spec.pr_number ∷ [])

-- A call that reads, or that removes something of the stack's own: its namespace, an object in it, a
-- database named by its number, or its user.
abbrev pub IsOwn : PrStack → Call → Type 0
IsOwn x (Call.get _ _ _) = Unit
IsOwn x (Call.mongo_connect _) = Unit
IsOwn x Call.mongo_ping = Unit
IsOwn x Call.mongo_disconnect = Unit
IsOwn x (Call.delete Kind.namespace_kind namespace name) = name ≡ own_namespace x
IsOwn x (Call.delete _ namespace name) = namespace ≡ own_namespace x
IsOwn x (Call.drop_database d) = (s : String) × (Elem s default_services × (d ≡ own_database x s))
IsOwn x (Call.drop_user u) = u ≡ own_user x
IsOwn x _ = ⊥

-- The later log has only calls of this sort more than the earlier one.
pub data Adds (P : Call → Type 0) (l : Log) : Log → Type 0 where
  same : Adds P l l
  add : {m : Log} (c : Call) → P c → Adds P l m → Adds P l (c ∷ m)

Adds-trans : (P : Call → Type 0) (l m n : Log) → Adds P l m → Adds P m n → Adds P l n
Adds-trans P l m _ g same = g
Adds-trans P l m _ g (add {m = k} c p h) = add c p (Adds-trans P l m k g h)

abbrev pub Own : PrStack → State → State → Type 0
Own x s t = (t.stack ≡ x) × Adds (IsOwn x) s.log t.log

-- The method ends, leaves the stack, and makes only calls that are its own.
record Confined {ℓ} (x : PrStack) {A : Type ℓ} (m : Go A) : Type 0 where
  run : (s : State) → s.stack ≡ x → Ends (λ _ t. Own x s t) (m s)

module _ (x : PrStack) where
  Confined-pure {ℓ} : {A : Type ℓ} (a : A) → Confined x (pure a)
  Confined-pure a = record { run = λ s e. (e, same) }

  Confined-bind {ℓ κ} :
      {A : Type ℓ} {B : Type κ} (m : Go A) (f : A → Go B)
      → Confined x m
      → ((a : A) → Confined x (f a))
      → Confined x (m >>= f)
  Confined-bind m f h k = record {
    run = λ s e. Ends-bind _ _ m f s (h.run s e) λ a t (still, p).
        Ends-mono _ _ (f a t) ((k a).run t still)
          λ b u (held, q). (held, Adds-trans _ s.log t.log u.log p q);
  }

  Confined-maybe {ℓ} :
      {A : Type 0} {B : Type ℓ} (o : Option A) (absent : Go B) (present : A → Go B)
      → Confined x absent
      → ((a : A) → Confined x (present a))
      → Confined x (maybe o absent present)
  Confined-maybe none absent present h k = h
  Confined-maybe (some a) absent present h k = k a

  Confined-attempt :
      {B : Type 0} (m : Go (Option Error)) (fail : Error → Go B) (rest : Go B)
      → Confined x m
      → ((e : Error) → Confined x (fail e))
      → Confined x rest
      → Confined x (attempt m fail rest)
  Confined-attempt m fail rest h bad good =
      Confined-bind m _ h λ err. Confined-maybe err rest fail good bad

  Confined-get {ℓ} :
      {A : Type ℓ} (f : PrStack → Go A) → Confined x (f x) → Confined x (get_object >>= f)
  Confined-get f h = record {
    run = λ s e. subst (λ y. Ends (λ _ t. Own x s t) (f y s)) (sym e) (h.run s e);
  }

  module _ (r : Reconciler) where
    Confined-call : (c : Call) → IsOwn x c → Confined x (perform r.client c)
    Confined-call c h = record { run = λ s e. (e, add c h same) }

    ruleset confined = (
      Confined-pure, Confined-maybe, Confined-attempt, Confined-get, Confined-call, Confined-bind,
      tt, refl,
    )

    delete-Confined :
        (kind : Kind) (namespace name : String)
        → IsOwn x (Call.delete kind namespace name)
        → Confined x (delete_if_found r kind namespace name)
    unfolding delete_if_found
    delete-Confined kind namespace name own = search (confined, own) depth 8

    services-Confined : Confined x (cleanup_services r)
    unfolding cleanup_services get_namespace_name
    services-Confined =
        Confined-get (λ y. delete_if_found r Kind.namespace_kind "" (namespace_of y))
          (delete-Confined Kind.namespace_kind "" (namespace_of x) refl)

    server-Confined : (name : String) → Confined x (cleanup_server r name)
    unfolding cleanup_server get_namespace_name
    server-Confined name =
        Confined-get
          (λ y.
            attempt (delete_if_found r Kind.deployment_kind (namespace_of y) name)
              (λ e. pure (some e)) (delete_if_found r Kind.service_kind (namespace_of y) name))
          (Confined-attempt _ _ _ (delete-Confined Kind.deployment_kind (namespace_of x) name refl)
            (λ e. Confined-pure (some e))
            (delete-Confined Kind.service_kind (namespace_of x) name refl))

    drop-Confined :
        (services : List String)
        → ((s : String) → Elem s services → Elem s default_services)
        → Confined x (drop_databases r x.spec.pr_number services)
    unfolding drop_databases cleanup_database_name
    drop-Confined [] h = Confined-pure tt
    drop-Confined (s ∷ ss) h =
        Confined-bind _ _
          (Confined-call (Call.drop_database (cleanup_database_name s x.spec.pr_number))
            (s, (h s (inl refl), refl)))
          λ _. drop-Confined ss λ t m. h t (inr m)

    drop_defaults-Confined : Confined x (drop_databases r x.spec.pr_number default_services)
    drop_defaults-Confined = drop-Confined default_services λ s m. m

    mongo_db-Confined : Confined x (cleanup_mongo_db r)
    unfolding cleanup_mongo_db pr_user
    mongo_db-Confined = search (confined, drop_defaults-Confined) depth 14

    all-Confined : Confined x (cleanup_all_resources r)
    unfolding cleanup_all_resources cleanup_nats cleanup_redis
    all-Confined = search (confined, mongo_db-Confined, server-Confined, services-Confined) depth 10

module _ (r : Reconciler) where
  -- The cleanup of a stack ends without a panic and leaves the PRStack at hand. It removes nothing but
  -- the namespace pr-<number>-shop-pilab-hu of the stack's number, objects in that namespace, databases
  -- pishop_<service>_pr_<number> of the default services, and the user pishop_pr_<number>.
  pub cleanup_all_resources-Own :
      (s : State) → Ends (λ _ t. Own s.stack s t) (cleanup_all_resources r s)
  cleanup_all_resources-Own s = (all-Confined s.stack r).run s refl
