-- ===== src/Client.antt =====
-- What the controllers call: the Kubernetes client, the MongoDB driver, the clock, the random source
-- and the event recorder. Every call is a value, a run is the list of the calls made so far, the last
-- one first, and the outside world is the `Client`: functions of that list. So a world may answer
-- each call by everything that went before, and the order of the calls can be spoken of.
pub mod Rules
use pishop_operator.Base.{
  ℕ, ℤ, String, List, ◌∷◌, Option, none, some, Bool, true, false, concat, [],
}
use pishop_operator.Kube.{Kind, Object, Deployment, Entries}
use pishop_operator.Api.{PrStack}

-- The errors that the code tells apart, by `errors.IsNotFound` and `errors.IsAlreadyExists`.
pub data Reason : Type 0 where
  not_found already_exists unspecified : Reason

pub record Error : Type 0 where
  pub reason : Reason
  pub text : String

-- `mongo.IndexModel`: the one key, and whether it is unique.
pub record IndexModel : Type 0 where
  pub key : String
  pub unique : Bool

pub data Call : Type 0 where
  get_stack : Call
  update_stack : PrStack → Call
  update_status : PrStack → Call
  get : Kind → String → String → Call
  list_deployments : String → Call
  create : Object → Call
  update : Object → Call
  delete : Kind → String → String → Call
  event : Bool → String → String → Call
  read_clock : Call
  read_random : ℕ → Call
  mongo_connect : String → Call
  mongo_ping : Call
  mongo_disconnect : Call
  drop_user : String → Call
  create_user : String → String → Entries → Call
  create_indexes : String → String → List IndexModel → Call
  drop_database : String → Call

abbrev pub Log : Type 0
Log = List Call

-- `error` is the error of the last call of a log, `stack` the PRStack in its reply, `deployments` the
-- items of its list, `clock` the time that it read and `random` the bytes. The rest are pure functions
-- of packages outside the repository: `parse_quantity` of k8s.io/apimachinery gives the error of
-- a text that is no quantity; `age_text` rounds a duration to minutes and prints it, a negative one too, `rfc3339_text`
-- and `stamp_text` print a time by the layouts `time.RFC3339` and "20060102-150405"; the last three
-- are those of encoding/base64 and encoding/json.
pub record Client : Type 0 where
  pub error : Log → Option Error
  pub stack : Log → PrStack
  pub deployments : Log → List Deployment
  pub clock : Log → ℕ
  pub random : Log → List ℕ
  pub parse_quantity : String → Option Error
  pub age_text : ℤ → String
  pub rfc3339_text : ℕ → String
  pub stamp_text : ℕ → String
  pub encode_base64 : String → String
  pub encode_base64_url : List ℕ → String
  pub marshal_registry : Entries → Option Error × String

-- The object that the handlers share by a pointer, and the calls made.
pub record State : Type 0 where
  pub stack : PrStack
  pub log : Log

pub data Outcome {ℓ} (A : Type ℓ) : Type ℓ where
  done : A → State → Outcome A
  panic : State → Outcome A

-- A method of the reconciler: it reads and writes the state, and returns or panics. Go's errors are
-- values, `Option Error`.
abbrev pub Go {ℓ} : Type ℓ → Type ℓ
Go A = State → Outcome A

module _ {ℓ} {A : Type ℓ} where
  abbrev pub pure : A → Go A
  pure a s = done a s

  abbrev pub crash : Go A
  crash s = panic s

infixl 5 ◌>>=◌ ◌>>◌
abbrev pub ◌>>=◌ {ℓ κ} : {A : Type ℓ} {B : Type κ} → Go A → (A → Go B) → Go B
◌>>=◌ m f s = elim (m s) [ done a t ↦ f a t | panic t ↦ panic t ]

abbrev pub ◌>>◌ {ℓ κ} : {A : Type ℓ} {B : Type κ} → Go A → Go B → Go B
m >> k = m >>= λ _. k

-- Which of two ways to go on a pointer or an error decides.
abbrev pub maybe {ℓ} : {A : Type 0} {B : Type ℓ} → Option A → Go B → (A → Go B) → Go B
maybe none absent present = absent
maybe (some a) absent present = present a

-- `if err := m; err != nil { return fail(err) }` and then the rest.
abbrev pub attempt : {B : Type 0} → Go (Option Error) → (Error → Go B) → Go B → Go B
attempt m fail rest = m >>= λ err. maybe err rest fail

-- `errors.IsNotFound` and `errors.IsAlreadyExists`
abbrev pub is_not_found : Error → Bool
is_not_found e = elim (e.reason) [ Reason.not_found ↦ true | _ ↦ false ]

abbrev pub is_already_exists : Error → Bool
is_already_exists e = elim (e.reason) [ Reason.already_exists ↦ true | _ ↦ false ]

abbrev pub get_object : Go PrStack
get_object s = done s.stack s

abbrev pub put_object : PrStack → Go (Unit {0})
put_object x s = done tt (record s { stack = x })

abbrev pub modify : (PrStack → PrStack) → Go (Unit {0})
modify f s = done tt (record s { stack = f s.stack })

-- The call is made, and the reply read off the new log.
abbrev pub record_call : Call → Go Log
record_call c s = let l = c ∷ s.log in done l (record s { log = l })

abbrev pub perform : Client → Call → Go (Option Error)
perform client c = record_call c >>= λ l. pure (client.error l)

-- `fmt.Errorf` with the verb `%w`, which keeps what the error is, and with `%v`, which does not.
abbrev pub wrap : String → Error → Error
wrap text e = record e { text = concat (text ∷ e.text ∷ []) }

abbrev pub errorf : String → Error → Error
errorf text e = record { reason = Reason.unspecified; text = concat (text ∷ e.text ∷ []) }
