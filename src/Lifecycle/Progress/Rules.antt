-- ===== src/Lifecycle/Progress/Rules.antt =====
-- Methods in a world without errors: what holds where one ends, and rules for it.
use pishop_operator.Base.{
  String, ◌∷◌, Option, none, some, not, Bool, true, false, ◌≡◌, refl, sym, if◌then◌else◌, is_some,
}
use mathlib.Core.Path.{subst}
use pishop_operator.Kube.{Entries, Kind, Object}
use pishop_operator.Api.{PrStack}
use pishop_operator.Client.{
  Error, Call, Log, State, Outcome, done, panic, Go, ◌>>=◌, pure, crash, maybe, attempt, get_object,
  perform, record_call, is_not_found, is_already_exists,
}
use pishop_operator.Client.Rules.{Ends}
use pishop_operator.Reconciler.{Reconciler, must_parse}
use pishop_operator.Stack.Secrets.{deref}

-- What holds of the value and the state where the method ends without a panic.
abbrev pub WhenDone {ℓ} : {A : Type ℓ} → (A → State → Type 0) → Outcome A → Type 0
WhenDone Q (done a s) = Q a s
WhenDone Q (panic s) = Unit

pub WhenDone-bind {ℓ κ} :
    {A : Type ℓ} {B : Type κ} (P : A → State → Type 0) (Q : B → State → Type 0) (m : Go A)
    (f : A → Go B) (s : State)
    → WhenDone P (m s)
    → ((a : A) (t : State) → P a t → WhenDone Q (f a t))
    → WhenDone Q ((m >>= f) s)
WhenDone-bind {A = A} P Q m f s h k = over (m s) h
  where
    over :
        (o : Outcome A)
        → WhenDone P o
        → WhenDone Q (elim o [ done a t ↦ f a t | panic t ↦ panic t ])
    over (done a t) e = k a t e
    over (panic t) e = tt

-- A method that ends, and of which something holds where it ends.
pub Ends-WhenDone {ℓ} :
    {A : Type ℓ} (P Q : A → State → Type 0) (o : Outcome A)
    → Ends P o
    → WhenDone Q o
    → Ends (λ a t. P a t × Q a t) o
Ends-WhenDone P Q (done a t) h k = (h, k)
Ends-WhenDone P Q (panic t) h k = h

pub Ends-done {ℓ} : {A : Type ℓ} (P : A → State → Type 0) (o : Outcome A) → Ends P o → WhenDone P o
Ends-done P (done a t) h = h
Ends-done P (panic t) h = tt

pub WhenDone-mono {ℓ} :
    {A : Type ℓ} (P Q : A → State → Type 0) (o : Outcome A)
    → WhenDone P o
    → ((a : A) (t : State) → P a t → Q a t)
    → WhenDone Q o
WhenDone-mono P Q (done a t) h k = k a t h
WhenDone-mono P Q (panic t) h k = tt

-- A call that always succeeds in a world without errors. A Get may find nothing, a Create may find the
-- object there, and the errors of the others are not read.
abbrev pub IsFirm : Call → Type 0
IsFirm (Call.get _ _ _) = ⊥
IsFirm (Call.create _) = ⊥
IsFirm (Call.event _ _ _) = ⊥
IsFirm (Call.drop_user _) = ⊥
IsFirm Call.mongo_disconnect = ⊥
IsFirm _ = Unit

-- The outside world without errors: a Get that fails found nothing, and a Create right after it
-- succeeds; a Create that fails found the object there; the firm calls succeed, and every map can be
-- printed.
pub record Works (r : Reconciler) : Type 0 where
  pub answered : (c : Call) (l : Log) → IsFirm c → r.client.error (c ∷ l) ≡ none
  pub read :
      (k : Kind) (namespace name : String) (l : Log) (e : Error)
      → r.client.error (Call.get k namespace name ∷ l) ≡ some e
      → is_not_found e ≡ true
  pub made :
      (k : Kind) (namespace name : String) (o : Object) (l : Log) (e : Error)
      → r.client.error (Call.get k namespace name ∷ l) ≡ some e
      → r.client.error (Call.create o ∷ Call.get k namespace name ∷ l) ≡ none
  pub created :
      (o : Object) (l : Log) (e : Error)
      → r.client.error (Call.create o ∷ l) ≡ some e
      → is_already_exists e ≡ true
  pub encoded : (m : Entries) → (r.client.marshal_registry m).0 ≡ none

-- Something holds of every state that the method ends in.
pub record Leads {ℓ} {A : Type ℓ} (Q : A → State → Type 0) (m : Go A) : Type 0 where
  pub run : (s : State) → WhenDone Q (m s)

abbrev pub NoError : Option Error → State → Type 0
NoError o t = o ≡ none

-- The method leaves the object at hand as it is.
pub record Still {ℓ} {A : Type ℓ} (m : Go A) : Type 0 where
  pub run : (s : State) → WhenDone (λ _ t. t.stack ≡ s.stack) (m s)

-- The method returns no error, and leaves the object at hand as it is.
pub record Smooth (m : Go (Option Error)) : Type 0 where
  pub run : (s : State) → WhenDone (λ o t. (o ≡ none) × (t.stack ≡ s.stack)) (m s)

pub Smooth-Leads : (m : Go (Option Error)) → Smooth m → Leads NoError m
Smooth-Leads m h = record { run = λ s. over s (m s) (h.run s) }
  where
    over :
        (s : State) (o : Outcome (Option Error))
        → WhenDone (λ o t. (o ≡ none) × (t.stack ≡ s.stack)) o
        → WhenDone NoError o
    over s (done a t) e = e.0
    over s (panic t) e = tt

module _ {ℓ} {A : Type ℓ} (Q : A → State → Type 0) where
  pub Leads-bind {κ} :
      {B : Type κ} (m : Go B) (f : B → Go A) → ((b : B) → Leads Q (f b)) → Leads Q (m >>= f)
  Leads-bind {B = B} m f h = record { run = λ s. over (m s) }
    where
      over : (o : Outcome B) → WhenDone Q (elim o [ done a t ↦ f a t | panic t ↦ panic t ])
      over (done a t) = (h a).run t
      over (panic t) = tt

  pub Leads-get :
      (f : PrStack → Go A) → ((x : PrStack) → Leads Q (f x)) → Leads Q (get_object >>= f)
  Leads-get f h = record { run = λ s. (h s.stack).run s }

  pub Leads-if : (b : Bool) (m k : Go A) → Leads Q m → Leads Q k → Leads Q (if b then m else k)
  Leads-if true m k h h' = h
  Leads-if false m k h h' = h'

-- The value is there.
pub Leads-some {ℓ} :
    {A : Type 0} {B : Type ℓ} (Q : B → State → Type 0) (o : Option A) (absent : Go B)
    (present : A → Go B)
    → is_some o ≡ true
    → ((a : A) → Leads Q (present a))
    → Leads Q (maybe o absent present)
Leads-some Q none absent present e h = cc
Leads-some Q (some a) absent present e h = h a

-- A step that returns no error is followed by the rest.
pub Leads-attempt :
    {B : Type 0} (Q : B → State → Type 0) (m : Go (Option Error)) (fail : Error → Go B)
    (rest : Go B)
    → Leads NoError m
    → Leads Q rest
    → Leads Q (attempt m fail rest)
Leads-attempt Q m fail rest h k = record {
  run = λ s.
      WhenDone-bind NoError Q m (λ err. maybe err rest fail) s (h.run s)
        λ o t e. subst (λ o. WhenDone Q (maybe o rest fail t)) (sym e) (k.run t);
}

pub Leads-none : Leads NoError (pure none)
Leads-none = record { run = λ s. refl }

pub Still-pure {ℓ} : {A : Type ℓ} (a : A) → Still (pure a)
Still-pure a = record { run = λ s. refl }

pub Still-crash {ℓ} : {A : Type ℓ} → Still {A = A} crash
Still-crash = record { run = λ s. tt }

pub Still-record : (c : Call) → Still (record_call c)
Still-record c = record { run = λ s. refl }

pub Still-bind {ℓ κ} :
    {A : Type ℓ} {B : Type κ} (m : Go A) (f : A → Go B)
    → Still m
    → ((a : A) → Still (f a))
    → Still (m >>= f)
Still-bind m f h k = record {
  run = λ s.
      WhenDone-bind _ _ m f s (h.run s)
        λ a t e. subst (λ x. WhenDone (λ _ u. u.stack ≡ x) (f a t)) e ((k a).run t);
}

pub Still-maybe {ℓ} :
    {A : Type 0} {B : Type ℓ} (o : Option A) (absent : Go B) (present : A → Go B)
    → Still absent
    → ((a : A) → Still (present a))
    → Still (maybe o absent present)
Still-maybe none absent present h k = h
Still-maybe (some a) absent present h k = k a

pub Still-if {ℓ} :
    {B : Type ℓ} (b : Bool) (m k : Go B) → Still m → Still k → Still (if b then m else k)
Still-if true m k h h' = h
Still-if false m k h h' = h'

pub ruleset still = (Still-pure, Still-crash, Still-record, Still-maybe, Still-if, Still-bind)

pub must_parse-Still : (r : Reconciler) (q : String) → Still (must_parse r q)
unfolding must_parse
must_parse-Still r q = search still

pub Smooth-none : Smooth (pure none)
Smooth-none = record { run = λ s. (refl, refl) }

-- An error that was computed and is none.
pub Smooth-fine : (o : Option Error) → o ≡ none → Smooth (pure o)
Smooth-fine o e = record { run = λ s. (e, refl) }

pub Smooth-bind {ℓ} :
    {A : Type ℓ} (m : Go A) (f : A → Go (Option Error))
    → Still m
    → ((a : A) → Smooth (f a))
    → Smooth (m >>= f)
Smooth-bind m f h k = record {
  run = λ s.
      WhenDone-bind _ _ m f s (h.run s)
        λ a t e. subst (λ x. WhenDone (λ o u. (o ≡ none) × (u.stack ≡ x)) (f a t)) e ((k a).run t);
}

pub Smooth-attempt :
    (m : Go (Option Error)) (fail : Error → Go (Option Error)) (rest : Go (Option Error))
    → Smooth m
    → Smooth rest
    → Smooth (attempt m fail rest)
Smooth-attempt m fail rest h k = record {
  run = λ s.
      WhenDone-bind _ _ m (λ err. maybe err rest fail) s (h.run s)
        λ o t (e, f).
          subst (λ x. WhenDone (λ o u. (o ≡ none) × (u.stack ≡ x)) (maybe o rest fail t)) f
            (subst (λ o. WhenDone (λ o u. (o ≡ none) × (u.stack ≡ t.stack)) (maybe o rest fail t))
              (sym e) (k.run t));
}

pub Smooth-get :
    (f : PrStack → Go (Option Error)) → ((x : PrStack) → Smooth (f x)) → Smooth (get_object >>= f)
Smooth-get f h = record { run = λ s. (h s.stack).run s }

pub Smooth-deref :
    {A : Type 0} (o : Option A) (f : A → Go (Option Error))
    → ((a : A) → Smooth (f a))
    → Smooth (deref o f)
Smooth-deref none f h = record { run = λ s. tt }
Smooth-deref (some a) f h = h a

pub Smooth-if :
    (b : Bool) (m k : Go (Option Error)) → Smooth m → Smooth k → Smooth (if b then m else k)
Smooth-if true m k h h' = h
Smooth-if false m k h h' = h'

module _ (r : Reconciler) (works : Works r) where
  pub Smooth-call : (c : Call) → IsFirm c → Smooth (perform r.client c)
  Smooth-call c firm = record { run = λ s. (works.answered c s.log firm, refl) }

  -- A reply that is read only where the call succeeds.
  pub Smooth-reply :
      (c : Call) (f : Log → Go (Option Error)) (fail : Error → Go (Option Error))
      → IsFirm c
      → ((l : Log) → Smooth (f l))
      → Smooth (record_call c >>= λ l. maybe (r.client.error l) (f l) fail)
  Smooth-reply c f fail firm h = record {
    run = λ s.
        let l = c ∷ s.log in
        let t : State = record s { log = l } in
        subst (λ o. WhenDone (λ o u. (o ≡ none) × (u.stack ≡ s.stack)) (maybe o (f l) fail t))
          (sym (works.answered c s.log firm)) ((h l).run t);
  }

  pub Leads-reply {ℓ} :
      {A : Type ℓ} (Q : A → State → Type 0) (c : Call) (f : Log → Go A) (fail : Error → Go A)
      → IsFirm c
      → ((l : Log) → Leads Q (f l))
      → Leads Q (record_call c >>= λ l. maybe (r.client.error l) (f l) fail)
  Leads-reply Q c f fail firm h = record {
    run = λ s.
        let l = c ∷ s.log in
        let t : State = record s { log = l } in
        subst (λ o. WhenDone Q (maybe o (f l) fail t)) (sym (works.answered c s.log firm))
          ((h l).run t);
  }

  -- A call, by the error that it may have.
  abbrev Quietly-none : State → Option Error → State → Type 0
  Quietly-none s o t = (o ≡ none) × (t.stack ≡ s.stack)

  Smooth-by_error :
      (c : Call) (fail : Error → Go (Option Error))
      → ((s : State) (e : Error)
          → r.client.error (c ∷ s.log) ≡ some e
          → WhenDone (Quietly-none s) (fail e (record s { log = c ∷ s.log })))
      → Smooth (attempt (perform r.client c) fail (pure none))
  Smooth-by_error c fail h = record { run = λ s. over s (r.client.error (c ∷ s.log)) refl (h s) }
    where
      over :
          (s : State) (o : Option Error)
          → r.client.error (c ∷ s.log) ≡ o
          → ((e : Error)
              → r.client.error (c ∷ s.log) ≡ some e
              → WhenDone (Quietly-none s) (fail e (record s { log = c ∷ s.log })))
          → WhenDone (Quietly-none s) (maybe o (pure none) fail (record s { log = c ∷ s.log }))
      over s none e k = (refl, refl)
      over s (some x) e k = k x e

  -- A Create that finds the object there, and an Update of it.
  pub Smooth-upsert :
      (o : Object)
      → Smooth (
          attempt
            (perform r.client (Call.create o))
            (λ e. if is_already_exists e then perform r.client (Call.update o) else pure (some e))
            (pure none))
  Smooth-upsert o = Smooth-by_error (Call.create o) _ λ s e f.
      subst
        (λ b. WhenDone (Quietly-none s) (
          (if b then perform r.client (Call.update o) else pure (some e))
            (record s { log = Call.create o ∷ s.log })))
        (sym (works.created o s.log e f)) (works.answered (Call.update o) _ tt, refl)

  -- A Get that finds nothing, and a Create.
  pub Smooth-namespace :
      (k : Kind) (namespace name : String) (o : Object)
      → Smooth (
          attempt
            (perform r.client (Call.get k namespace name))
            (λ e. if is_not_found e then perform r.client (Call.create o) else pure (some e))
            (pure none))
  Smooth-namespace k namespace name o = Smooth-by_error (Call.get k namespace name) _ λ s e f.
      subst
        (λ b. WhenDone (Quietly-none s) (
          (if b then perform r.client (Call.create o) else pure (some e))
            (record s { log = Call.get k namespace name ∷ s.log })))
        (sym (works.read k namespace name s.log e f))
        (works.made k namespace name o s.log e f, refl)

  pub Smooth-claim :
      (k : Kind) (namespace name : String) (o : Object) (broken failed : Error → Error)
      → Smooth (
          attempt
            (perform r.client (Call.get k namespace name))
            (λ e.
              if not (is_not_found e)
              then pure (some (broken e))
              else attempt
                  (perform r.client (Call.create o))
                  (λ e'. pure (some (failed e')))
                  (pure none))
            (pure none))
  Smooth-claim k namespace name o broken failed =
      Smooth-by_error (Call.get k namespace name) _ λ s e f.
        let t : State = record s { log = Call.get k namespace name ∷ s.log } in
        subst
          (λ b. WhenDone (Quietly-none s) (
            (if not b
                then pure (some (broken e))
                else attempt (perform r.client (Call.create o)) (λ e'. pure (some (failed e')))
                    (pure none))
              t))
          (sym (works.read k namespace name s.log e f))
          (subst
            (λ x. WhenDone (Quietly-none s) (
              maybe x (pure none) (λ e'. pure (some (failed e')))
                (record t { log = Call.create o ∷ t.log })))
            (sym (works.made k namespace name o s.log e f)) (refl, refl))

pub ruleset smooth = (
  Smooth-none, Smooth-attempt, Smooth-get, Smooth-deref, Smooth-if, Smooth-bind, Still-record,
  must_parse-Still,
)
