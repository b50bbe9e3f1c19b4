-- ===== src/Reconciler.antt =====
-- The receiver of the methods, and the calls through it: `PRStackReconciler` of
-- controllers/prstack_controller.go.
use pishop_operator.Base.{
  ℕ, String, ◌∷◌, [], Option, none, some, Bool, false, concat, if◌then◌else◌, str_eq,
}
use pishop_operator.Api.{PrStack, Phase}
use pishop_operator.Client.{
  maybe, Client, Error, Call, Go, ◌>>=◌, ◌>>◌, pure, perform, record_call, get_object, put_object,
  modify, update_status, update_stack, read_clock, event, crash,
}
use pishop_operator.Naming.{get_namespace_name}

-- `PRStackReconciler`, without its scheme and its BackupManager. The cleaning calls a method of the
-- latter without a test for nil; `main` always sets it, so its methods are functions of the reconciler.
pub record Reconciler : Type 0 where
  pub client : Client
  pub mongo_uri : String
  pub mongo_username : String
  pub mongo_password : String
  pub github_token : String
  pub github_username : String
  pub github_email : String
  pub base_domain : String
  pub ingress_class_name : String
  pub cert_manager_issuer : String
  pub traefik_entrypoints : String
  pub traefik_tls_enabled : String

-- ctrl.Result: whether to requeue, and after how many nanoseconds.
pub record ReconcileResult : Type 0 where
  pub requeue : Bool
  pub requeue_after : ℕ

abbrev pub Reply : Type 0
Reply = ReconcileResult × Option Error

abbrev pub second : ℕ
second = 1000000000

abbrev pub stack_expiration_time : ℕ
stack_expiration_time = 3600000000000

abbrev pub requeue_interval_short : ℕ
requeue_interval_short = 5000000000

abbrev pub requeue_interval_medium : ℕ
requeue_interval_medium = 30000000000

abbrev pub requeue_interval_long : ℕ
requeue_interval_long = 300000000000

abbrev pub no_result : ReconcileResult
no_result = record { requeue = false; requeue_after = 0 }

abbrev pub after : ℕ → ReconcileResult
after n = record { requeue = false; requeue_after = n }

abbrev pub finalizer_name : String
finalizer_name = "shop.pilab.hu/finalizer"

abbrev pub restart_annotation : String
restart_annotation = "kubectl.kubernetes.io/restartedAt"

module _ (r : Reconciler) where
  abbrev pub call : Call → Go (Option Error)
  call c = perform r.client c

  -- `metav1.Now()`
  abbrev pub now : Go ℕ
  now = record_call read_clock >>= λ l. pure (r.client.clock l)

  -- `r.Recorder.Event`, with `true` for a warning.
  abbrev pub emit : Bool → String → String → Go (Unit {0})
  emit warning reason message = call (event warning reason message) >> pure tt

  -- On success the client overwrites the object by the server's reply.
  abbrev pub save : Call → Go (Option Error)
  save c = do
    l ← record_call c
    maybe (r.client.error l) (put_object (r.client.stack l) >> pure none) (λ e. pure (some e))

  -- `r.Status().Update(ctx, prStack)`
  unfoldable pub save_status : Go (Option Error)
  save_status = do x ← get_object; save (update_status x)

  -- `r.Update(ctx, prStack)`
  unfoldable pub save_stack : Go (Option Error)
  save_stack = do x ← get_object; save (update_stack x)

  -- `resource.MustParse`
  unfoldable pub must_parse : String → Go String
  must_parse q = maybe (r.client.parse_quantity q) (pure q) (λ e. crash)

  unfoldable pub get_domain : PrStack → String
  get_domain x =
      if str_eq x.spec.custom_domain ""
      then concat ("pr-" ∷ x.spec.pr_number ∷ "." ∷ r.base_domain ∷ [])
      else x.spec.custom_domain

-- Writes to parts of the shared object.
abbrev pub set_phase : Phase → String → Go (Unit {0})
set_phase p m = modify λ x. record x { status = record (x.status) { phase = p; message = m } }

abbrev pub set_message : String → Go (Unit {0})
set_message m = modify λ x. record x { status = record (x.status) { message = m } }

-- The namespace of the stack at hand.
abbrev pub namespace_of : PrStack → String
namespace_of x = get_namespace_name x.spec.pr_number
