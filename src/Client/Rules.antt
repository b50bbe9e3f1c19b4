-- ===== src/Client/Rules.antt =====
-- Reasoning about runs of methods: what holds where one ends without a panic, and methods that
-- neither change the object at hand nor save it.
use pishop_operator.Base.{◌∷◌, Option, none, some, Bool, true, false, ◌≡◌, refl, ◌∙◌, if◌then◌else◌}
use mathlib.Core.Path.{subst}
use pishop_operator.Api.{PrStack}
use pishop_operator.Client.{
  Error, Call, Log, State, Outcome, done, panic, Go, ◌>>=◌, pure, attempt, maybe, update_stack,
  update_status, perform, record_call, get_object, Client,
}

-- The method ends, without a panic, with a value and a state of which `Q` holds.
abbrev pub Ends {ℓ} : {A : Type ℓ} → (A → State → Type 0) → Outcome A → Type 0
Ends Q (done a s) = Q a s
Ends Q (panic s) = ⊥

module _ {ℓ} {A : Type ℓ} where
  pub Ends-mono :
      (P Q : A → State → Type 0) (o : Outcome A)
      → Ends P o
      → ((a : A) (t : State) → P a t → Ends Q (done a t))
      → Ends Q o
  Ends-mono P Q (done a t) h k = k a t h
  Ends-mono P Q (panic t) h k = h

  pub Ends-bind {κ} :
      {B : Type κ} (P : A → State → Type 0) (Q : B → State → Type 0) (m : Go A) (f : A → Go B)
      (s : State)
      → Ends P (m s)
      → ((a : A) (t : State) → P a t → Ends Q (f a t))
      → Ends Q ((m >>= f) s)
  Ends-bind P Q m f s h k = over (m s) h
    where
      over : (o : Outcome A) → Ends P o → Ends Q (elim o [ done a t ↦ f a t | panic t ↦ panic t ])
      over (done a t) e = k a t e
      over (panic t) e = e

pub Ends-maybe {ℓ} :
    {A : Type 0} {B : Type ℓ} (Q : B → State → Type 0) (o : Option A) (absent : Go B)
    (present : A → Go B) (s : State)
    → (o ≡ none → Ends Q (absent s))
    → ((a : A) → o ≡ some a → Ends Q (present a s))
    → Ends Q (maybe o absent present s)
Ends-maybe Q none absent present s h k = h refl
Ends-maybe Q (some a) absent present s h k = k a refl

pub Ends-if {ℓ} :
    {B : Type ℓ} (Q : B → State → Type 0) (b : Bool) (m k : Go B) (s : State)
    → (b ≡ true → Ends Q (m s))
    → (b ≡ false → Ends Q (k s))
    → Ends Q ((if b then m else k) s)
Ends-if Q true m k s h h' = h refl
Ends-if Q false m k s h h' = h' refl

pub Ends-attempt :
    {B : Type 0} (P : Option Error → State → Type 0) (Q : B → State → Type 0)
    (m : Go (Option Error)) (fail : Error → Go B) (rest : Go B) (s : State)
    → Ends P (m s)
    → ((e : Error) (t : State) → P (some e) t → Ends Q (fail e t))
    → ((t : State) → P none t → Ends Q (rest t))
    → Ends Q (attempt m fail rest s)
Ends-attempt P Q m fail rest s h bad good = Ends-bind P Q m _ s h λ err t p.
    Ends-maybe Q err rest fail t (λ e. good t (subst (λ o. P o t) e p))
      (λ a e. bad a t (subst (λ o. P o t) e p))

-- A call that saves no PRStack.
abbrev pub IsSilent : Call → Type 0
IsSilent (update_stack _) = ⊥
IsSilent (update_status _) = ⊥
IsSilent _ = Unit

-- The later log has only silent calls more than the earlier one.
pub data Grows (l : Log) : Log → Type 0 where
  here : Grows l l
  more : {m : Log} (c : Call) → IsSilent c → Grows l m → Grows l (c ∷ m)

pub Grows-trans : {l m n : Log} → Grows l m → Grows m n → Grows l n
Grows-trans g here = g
Grows-trans g (more c s h) = more c s (Grows-trans g h)

pub record Quietly (s t : State) : Type 0 where
  pub same : t.stack ≡ s.stack
  pub grown : Grows s.log t.log

pub Quietly-refl : (s : State) → Quietly s s
Quietly-refl s = record { same = refl; grown = here }

pub Quietly-trans : (s t u : State) → Quietly s t → Quietly t u → Quietly s u
Quietly-trans s t u p q = record { same = q.same ∙ p.same; grown = Grows-trans p.grown q.grown }

-- The method ends, and changes no PRStack, neither the one at hand nor the one stored.
abbrev pub Quiet {ℓ} : {A : Type ℓ} → Go A → Type 0
Quiet m = (s : State) → Ends (λ _ t. Quietly s t) (m s)

pub Quiet-pure {ℓ} : {A : Type ℓ} (a : A) → Quiet (pure a)
Quiet-pure a s = Quietly-refl s

pub Quiet-bind {ℓ κ} :
    {A : Type ℓ} {B : Type κ} (m : Go A) (f : A → Go B)
    → Quiet m
    → ((a : A) → Quiet (f a))
    → Quiet (m >>= f)
Quiet-bind m f h k s =
    Ends-bind _ _ m f s (h s)
      λ a t p. Ends-mono _ _ (f a t) (k a t) λ b u q. Quietly-trans s t u p q

pub Quiet-seq {ℓ κ} :
    {A : Type ℓ} {B : Type κ} (m : Go A) (k : Go B) → Quiet m → Quiet k → Quiet (m >>= λ _. k)
Quiet-seq m k h h' = Quiet-bind m (λ _. k) h (λ _. h')

pub Quiet-maybe {ℓ} :
    {A : Type 0} {B : Type ℓ} (o : Option A) (absent : Go B) (present : A → Go B)
    → Quiet absent
    → ((a : A) → Quiet (present a))
    → Quiet (maybe o absent present)
Quiet-maybe none absent present h k = h
Quiet-maybe (some a) absent present h k = k a

pub Quiet-if {ℓ} :
    {B : Type ℓ} (b : Bool) (m k : Go B) → Quiet m → Quiet k → Quiet (if b then m else k)
Quiet-if true m k h h' = h
Quiet-if false m k h h' = h'

pub Quiet-attempt :
    {B : Type 0} (m : Go (Option Error)) (fail : Error → Go B) (rest : Go B)
    → Quiet m
    → ((e : Error) → Quiet (fail e))
    → Quiet rest
    → Quiet (attempt m fail rest)
Quiet-attempt m fail rest h bad good = Quiet-bind m _ h λ err. Quiet-maybe err rest fail good bad

pub Quiet-call : (client : Client) (c : Call) → IsSilent c → Quiet (perform client c)
Quiet-call client c h s = record { same = refl; grown = more c h here }

pub Quiet-record : (c : Call) → IsSilent c → Quiet (record_call c)
Quiet-record c h s = record { same = refl; grown = more c h here }

-- A method that begins by looking at the object.
pub Quiet-get {ℓ} :
    {A : Type ℓ} (f : PrStack → Go A) → ((x : PrStack) → Quiet (f x)) → Quiet (get_object >>= f)
Quiet-get f h s = h s.stack s

pub ruleset quiet = (
  Quiet-if, Quiet-maybe, Quiet-pure, Quiet-attempt, Quiet-call, Quiet-record, Quiet-get, Quiet-bind,
  tt,
)
