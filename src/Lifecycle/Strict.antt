-- ===== src/Lifecycle/Strict.antt =====
-- Errors of calls: methods that return no error only where the calls that they made had none.
pub mod Provisioning
use pishop_operator.Base.{
  String, List, ◌∷◌, [], Option, none, some, not, Bool, true, false, ◌≡◌, refl, sym, ap, ◌∙◌, ◌⊎◌,
  inl, inr, is_some, if◌then◌else◌,
}
use mathlib.Core.Path.{subst}
use pishop_operator.Kube.{Kind, Object}
use pishop_operator.Api.{PrStack}
use pishop_operator.Client.{
  Client, Error, Call, Log, State, Outcome, done, panic, Go, ◌>>=◌, ◌>>◌, pure, maybe, attempt,
  get_object, put_object, modify, perform, record_call, is_not_found, is_already_exists, read_clock,
}
use pishop_operator.Reconciler.{Reconciler}
use pishop_operator.Lifecycle.Progress.Rules.{WhenDone, WhenDone-bind}

-- An error that the code passes over: of an event, of the index of a collection, of the user's removal
-- of the disconnection and of the clock, which gives none, that a Get finds nothing, and that a Create
-- finds the object there.
abbrev pub IsExcused : Call → Error → Type 0
IsExcused (Call.get _ _ _) e = is_not_found e ≡ true
IsExcused (Call.create _) e = is_already_exists e ≡ true
IsExcused (Call.event _ _ _) e = Unit
IsExcused (Call.create_indexes _ _ _) e = Unit
IsExcused (Call.drop_user _) e = Unit
IsExcused Call.mongo_disconnect e = Unit
IsExcused Call.read_clock e = Unit
IsExcused _ e = ⊥

-- The last call of a log had no error, or one that is passed over.
abbrev pub Passed : Client → Call → Log → Type 0
Passed client c l = (e : Error) → client.error (c ∷ l) ≡ some e → IsExcused c e

-- The later log has only calls more that passed.
pub data Clean (client : Client) (l : Log) : Log → Type 0 where
  same : Clean client l l
  add : {m : Log} (c : Call) → Passed client c m → Clean client l m → Clean client l (c ∷ m)

Clean-trans :
    {client : Client} (k l m : Log) → Clean client k l → Clean client l m → Clean client k m
Clean-trans k l _ g same = g
Clean-trans k l _ g (add {m = n} c p h) = add c p (Clean-trans k l n g h)

module _ (r : Reconciler) where
  -- All calls of the method pass.
  pub record Spotless {ℓ} {A : Type ℓ} (m : Go A) : Type 0 where
    pub run : (s : State) → WhenDone (λ _ t. Clean r.client s.log t.log) (m s)

  pub Spotless-pure {ℓ} : {A : Type ℓ} (a : A) → Spotless (pure a)
  Spotless-pure a = record { run = λ s. same }

  pub Spotless-modify : (f : PrStack → PrStack) → Spotless (modify f)
  Spotless-modify f = record { run = λ s. same }

  pub Spotless-put : (x : PrStack) → Spotless (put_object x)
  Spotless-put x = record { run = λ s. same }

  pub Spotless-record : (c : Call) → ((e : Error) → IsExcused c e) → Spotless (record_call c)
  Spotless-record c h = record { run = λ s. add c (λ e _. h e) same }

  pub Spotless-bind {ℓ κ} :
      {A : Type ℓ} {B : Type κ} (m : Go A) (f : A → Go B)
      → Spotless m
      → ((a : A) → Spotless (f a))
      → Spotless (m >>= f)
  Spotless-bind {B = B} m f h k = record {
    run = λ s.
        WhenDone-bind (λ _ t. Clean r.client s.log t.log) (λ _ t. Clean r.client s.log t.log) m f s
          (h.run s) λ a t g. over s t (f a t) g ((k a).run t);
  }
    where
      over :
          (s t : State) (o : Outcome B)
          → Clean r.client s.log t.log
          → WhenDone (λ _ u. Clean r.client t.log u.log) o
          → WhenDone (λ _ u. Clean r.client s.log u.log) o
      over s t (done b u) g q = Clean-trans s.log t.log u.log g q
      over s t (panic u) g q = tt

  pub Spotless-maybe {ℓ} :
      {A : Type 0} {B : Type ℓ} (o : Option A) (absent : Go B) (present : A → Go B)
      → Spotless absent
      → ((a : A) → Spotless (present a))
      → Spotless (maybe o absent present)
  Spotless-maybe none absent present h k = h
  Spotless-maybe (some a) absent present h k = k a

  pub Spotless-if {ℓ} :
      {B : Type ℓ} (b : Bool) (m k : Go B) → Spotless m → Spotless k → Spotless (if b then m else k)
  Spotless-if true m k h h' = h
  Spotless-if false m k h h' = h'

  pub Spotless-get {ℓ} :
      {A : Type ℓ} (f : PrStack → Go A)
      → ((x : PrStack) → Spotless (f x))
      → Spotless (get_object >>= f)
  Spotless-get f h = record { run = λ s. (h s.stack).run s }

  -- A value with an error in it, and a method that returns no error only where all its calls pass.
  module _ {B : Type 0} (error_of : B → Option Error) where
    abbrev pub CleanAfter : State → B → State → Type 0
    CleanAfter s b t = error_of b ≡ none → Clean r.client s.log t.log

    pub record Strict (m : Go B) : Type 0 where
      pub run : (s : State) → WhenDone (CleanAfter s) (m s)

    -- The method returns an error.
    pub record Fails (m : Go B) : Type 0 where
      pub run : (s : State) → WhenDone (λ b t. is_some (error_of b) ≡ true) (m s)

    pub Fails-bind {ℓ} :
        {A : Type ℓ} (m : Go A) (f : A → Go B) → ((a : A) → Fails (f a)) → Fails (m >>= f)
    Fails-bind {A = A} m f h = record { run = λ s. over (m s) }
      where
        over :
            (o : Outcome A)
            → WhenDone
                (λ b t. is_some (error_of b) ≡ true)
                (elim o [ done a t ↦ f a t | panic t ↦ panic t ])
        over (done a t) = (h a).run t
        over (panic t) = tt

    pub failed-CleanAfter :
        (s : State) (o : Outcome B)
        → WhenDone (λ b t. is_some (error_of b) ≡ true) o
        → WhenDone (CleanAfter s) o
    failed-CleanAfter s (done b t) e =
        λ f. let g : is_some {A = Error} none ≡ true = subst (λ o. is_some o ≡ true) f e in cc
    failed-CleanAfter s (panic t) e = tt

    pub Fails-Strict : (m : Go B) → Fails m → Strict m
    Fails-Strict m h = record { run = λ s. failed-CleanAfter s (m s) (h.run s) }

    pub Strict-after :
        (s t : State) (o : Outcome B)
        → Clean r.client s.log t.log
        → WhenDone (CleanAfter t) o
        → WhenDone (CleanAfter s) o
    Strict-after s t (done b u) g q = λ e. Clean-trans s.log t.log u.log g (q e)
    Strict-after s t (panic u) g q = tt

    pub Strict-bind {ℓ} :
        {A : Type ℓ} (m : Go A) (f : A → Go B)
        → Spotless m
        → ((a : A) → Strict (f a))
        → Strict (m >>= f)
    Strict-bind m f h k = record {
      run = λ s.
          WhenDone-bind (λ _ t. Clean r.client s.log t.log) (CleanAfter s) m f s (h.run s)
            λ a t g. Strict-after s t (f a t) g ((k a).run t);
    }

    pub Strict-get :
        (f : PrStack → Go B) → ((x : PrStack) → Strict (f x)) → Strict (get_object >>= f)
    Strict-get f h = record { run = λ s. (h s.stack).run s }

    pub Strict-pure : (b : B) → Strict (pure b)
    Strict-pure b = record { run = λ s e. same }

    pub Strict-if : (b : Bool) (m k : Go B) → Strict m → Strict k → Strict (if b then m else k)
    Strict-if true m k h h' = h
    Strict-if false m k h h' = h'

    pub Strict-maybe :
        {A : Type 0} (o : Option A) (absent : Go B) (present : A → Go B)
        → Strict absent
        → ((a : A) → Strict (present a))
        → Strict (maybe o absent present)
    Strict-maybe none absent present h k = h
    Strict-maybe (some a) absent present h k = k a

    -- A call whose error decides.
    pub Strict-reply :
        (c : Call) (f : Log → Go B) (fail : Error → Go B)
        → ((l : Log) → Strict (f l))
        → ((e : Error) → Fails (fail e))
        → Strict (record_call c >>= λ l. maybe (r.client.error l) (f l) fail)
    Strict-reply c f fail h k = record {
      run = λ s. over s (r.client.error (c ∷ s.log)) refl ((h (c ∷ s.log)).run (after_call s));
    }
      where
        after_call : State → State
        after_call s = record s { log = c ∷ s.log }

        over :
            (s : State) (o : Option Error)
            → r.client.error (c ∷ s.log) ≡ o
            → WhenDone (CleanAfter (after_call s)) (f (c ∷ s.log) (after_call s))
            → WhenDone (CleanAfter s) (maybe o (f (c ∷ s.log)) fail (after_call s))
        over s none e q =
            Strict-after s (after_call s) (f (c ∷ s.log) (after_call s)) (add c (λ x p. cc) same) q
        over s (some x) e q = failed-CleanAfter s (fail x (after_call s)) ((k x).run (after_call s))

  abbrev pub itself : Option Error → Option Error
  itself o = o

  pub Fails-some : (e : Error) → Fails itself (pure (some e))
  Fails-some e = record { run = λ s. refl }

  pub Strict-attempt :
      {B : Type 0} (error_of : B → Option Error) (m : Go (Option Error)) (fail : Error → Go B)
      (rest : Go B)
      → Strict itself m
      → ((e : Error) → Fails error_of (fail e))
      → Strict error_of rest
      → Strict error_of (attempt m fail rest)
  Strict-attempt {B} error_of m fail rest h bad good = record {
    run = λ s.
        WhenDone-bind (CleanAfter itself s) (CleanAfter error_of s) m (λ err. maybe err rest fail) s
          (h.run s) λ o t g. over s t o g;
  }
    where
      over :
          (s t : State) (o : Option Error)
          → (o ≡ none → Clean r.client s.log t.log)
          → WhenDone (CleanAfter error_of s) (maybe o rest fail t)
      over s t none g = Strict-after error_of s t (rest t) (g refl) (good.run t)
      over s t (some e) g = failed-CleanAfter error_of s (fail e t) ((bad e).run t)

  pub Strict-call : (c : Call) → Strict itself (perform r.client c)
  Strict-call c = record {
    run = λ s e. add c (λ x p. let f : some x ≡ none = sym p ∙ e in cc) same;
  }

  -- A call with an error that is passed over, by a test.
  pub Strict-excused :
      (c : Call) (test : Error → Bool) (broken : Error → Error) (m rest : Go (Option Error))
      → ((e : Error) → test e ≡ true → IsExcused c e)
      → Strict itself m
      → Strict itself rest
      → Strict itself
          (attempt (perform r.client c) (λ e. if test e then m else pure (some (broken e))) rest)
  Strict-excused c test broken m rest excused h k = record {
    run = λ s. over s (r.client.error (c ∷ s.log)) refl;
  }
    where
      after_call : State → State
      after_call s = record s { log = c ∷ s.log }

      by_test :
          (s : State) (x : Error) (b : Bool)
          → r.client.error (c ∷ s.log) ≡ some x
          → test x ≡ b
          → WhenDone
              (CleanAfter itself s)
              ((if b then m else pure (some (broken x))) (after_call s))
      by_test s x true e f =
          Strict-after itself s (after_call s) (m (after_call s))
            (add c (λ y p. let g : x ≡ y = cc in subst (IsExcused c) g (excused x f)) same)
            (h.run (after_call s))
      by_test s x false e f = λ p. cc

      over :
          (s : State) (o : Option Error)
          → r.client.error (c ∷ s.log) ≡ o
          → WhenDone
              (CleanAfter itself s)
              (maybe o rest (λ e. if test e then m else pure (some (broken e))) (after_call s))
      over s none e =
          Strict-after itself s (after_call s) (rest (after_call s)) (add c (λ x p. cc) same)
            (k.run (after_call s))
      over s (some x) e = by_test s x (test x) e refl
