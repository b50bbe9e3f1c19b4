-- ===== src/Operator/Start.antt =====
-- What holds of a start of the program: when the manager runs, and the controller's configuration.
use text.Mathlib.TextEquality.{eq_iff}
use pishop_operator.Base.{
  String, [], ◌∷◌, Option, none, some, Bool, true, false, ◌≡◌, ◌≢◌, refl, sym, ◌∙◌, ◌↔◌, arith,
  if◌then◌else◌, str_eq, All,
}
use pishop_operator.Api.{PrStack}
use pishop_operator.Client.{Client, Error}
use pishop_operator.Stack.Ingress.{enable_tls, create_ingress}
use pishop_operator.Stack.Tls.{create_ingress-tls}
use pishop_operator.Operator.{
  Environment, Arguments, string_var, get_env_or_default, read_options, new_reconciler, Step,
  new_manager, set_up, add_healthz, add_readyz, start, Ended, exited, returned, after_step, main,
}

-- A flag that is not given has its default.
string_var-default :
    (args : Arguments) (name value : String)
    → All (λ (a : String × String). a.0 ≢ name) args
    → string_var args name value ≡ value
unfolding string_var
string_var-default [] name value h = refl
string_var-default ((n, v) ∷ args) name value h = ground (
  arith,
  eq_iff n name,
  h.0,
  string_var-default args name value h.1,
  string_var-default args name v h.1,
)

env_default-ne :
    (env : Environment) (key value : String) → value ≢ "" → get_env_or_default env key value ≢ ""
unfolding get_env_or_default
env_default-ne env key value h = ground (arith, eq_iff (env key) "", h)

read_options-enable_tls :
    (client : Client) (env : Environment) (args : Arguments) (x : PrStack)
    → All (λ (a : String × String). a.0 ≢ "cert-manager-issuer") args
    → enable_tls (new_reconciler client (read_options env args)) x ≡ true
unfolding read_options new_reconciler enable_tls
read_options-enable_tls client env args x h =
    let issuer =
      string_var-default args "cert-manager-issuer"
        (get_env_or_default env "CERT_MANAGER_ISSUER" "letsencrypt-staging") h in
    let named : get_env_or_default env "CERT_MANAGER_ISSUER" "letsencrypt-staging" ≢ "" =
      env_default-ne env _ "letsencrypt-staging"
        (ground (arith, eq_iff "letsencrypt-staging" "")) in
    let given : string_var args "cert-manager-issuer"
          (get_env_or_default env "CERT_MANAGER_ISSUER" "letsencrypt-staging")
        ≢ "" =
      λ e. named (sym issuer ∙ e) in
    ground (
      arith,
      eq_iff
          (string_var args "cert-manager-issuer"
            (get_env_or_default env "CERT_MANAGER_ISSUER" "letsencrypt-staging"))
          "",
      given,
    )

-- Unless the flag of the certificate issuer is given, every ingress that the controller builds has TLS,
-- whatever the environment, the other flags and the PRStack.
pub read_options-tls :
    (client : Client) (env : Environment) (args : Arguments) (x : PrStack)
    (namespace name path : String)
    → All (λ (a : String × String). a.0 ≢ "cert-manager-issuer") args
    → (create_ingress (new_reconciler client (read_options env args)) x namespace name path).tls
      ≢ []
read_options-tls client env args x namespace name path h none_there =
    let r = new_reconciler client (read_options env args) in
    let disabled : enable_tls r x ≡ false =
      (create_ingress-tls r x namespace name path).1.1.0 none_there in
    let enabled : enable_tls r x ≡ true = read_options-enable_tls client env args x h in
    let absurdity : true ≡ false = sym enabled ∙ disabled in cc

abbrev pub NoErrors : Option Error → Option Error → Option Error → Option Error → Type 0
NoErrors a b c d = (a ≡ none) × ((b ≡ none) × ((c ≡ none) × (d ≡ none)))

-- Five steps after a test, each with the error that it gives.
module _ (s1 s2 s3 s4 s5 : Step) where
  abbrev attempt_steps :
      Bool → Option Error → Option Error → Option Error → Option Error → Option Error → Ended
  attempt_steps missing a b c d e =
      if missing
      then exited []
      else after_step s1 (elim a [
        | some x ↦ exited []
        | none ↦ after_step s2 (elim b [
          | some x ↦ exited []
          | none ↦ after_step s3 (elim c [
            | some x ↦ exited []
            | none ↦ after_step s4 (elim d [
              | some x ↦ exited []
              | none ↦ after_step s5 (elim e [ some x ↦ exited [] | none ↦ returned [] ])
            ])
          ])
        ])
      ])

  -- Reaching the end, or the last step, takes all steps before it.
  steps-returned :
      (missing : Bool) (a b c d e : Option Error)
      → attempt_steps missing a b c d e ≡ returned (s1 ∷ s2 ∷ s3 ∷ s4 ∷ s5 ∷ [])
      → (missing ≡ false) × (NoErrors a b c d × (e ≡ none))
  steps-returned true a b c d e h = cc
  steps-returned false (some x) b c d e h = cc
  steps-returned false none (some x) c d e h = cc
  steps-returned false none none (some x) d e h = cc
  steps-returned false none none none (some x) e h = cc
  steps-returned false none none none none (some x) h = cc
  steps-returned false none none none none none h = (refl, ((refl, (refl, (refl, refl))), refl))

  returned-steps :
      (missing : Bool) (a b c d e : Option Error)
      → missing ≡ false
      → NoErrors a b c d
      → e ≡ none
      → attempt_steps missing a b c d e ≡ returned (s1 ∷ s2 ∷ s3 ∷ s4 ∷ s5 ∷ [])
  returned-steps missing a b c d e h (p, (q, (t, u))) v = rw (h, p, q, t, u, v) refl

module _ (outcome : Step → Option Error) (client : Client) (env : Environment)
    (args : Arguments) where
  abbrev manager : Step
  manager = new_manager (read_options env args)

  abbrev controller : Step
  controller = set_up (new_reconciler client (read_options env args))

  -- The program returns from `main`, with every step taken in order, exactly where a MongoDB address
  -- is configured and no step gives an error, from the manager to its run.
  pub main-returned :
      (main outcome client env args
        ≡ returned (
            new_manager (read_options env args)
            ∷ set_up (new_reconciler client (read_options env args))
            ∷ add_healthz
            ∷ add_readyz
            ∷ start
            ∷ []))
      ↔ (((read_options env args).mongo_uri ≢ "")
          × (NoErrors
                (outcome manager)
                (outcome controller)
                (outcome add_healthz)
                (outcome add_readyz)
              × (outcome start ≡ none)))
  unfolding main
  main-returned =
      let address = (read_options env args).mongo_uri in
      (
        λ h.
            let (configured, rest) =
              steps-returned manager controller add_healthz add_readyz start (str_eq address "")
                (outcome manager) (outcome controller) (outcome add_healthz) (outcome add_readyz)
                (outcome start) h in
            (ground (arith, eq_iff address ""), rest),
        λ (given, (before, last)).
            returned-steps manager controller add_healthz add_readyz start (str_eq address "")
              (outcome manager) (outcome controller) (outcome add_healthz) (outcome add_readyz)
              (outcome start) (ground (arith, eq_iff address "", given)) before last,
      )
