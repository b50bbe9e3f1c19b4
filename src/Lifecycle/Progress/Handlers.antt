-- ===== src/Lifecycle/Progress/Handlers.antt =====
-- The handlers of the first phases, in a world without errors: where they lead.
use pishop_operator.Base.{String, ◌∷◌, Option, none, some, true, ◌≡◌, refl, sym, ap, ◌∙◌, is_some}
use mathlib.Core.Path.{subst}
use pishop_operator.Api.{PrStack, Phase, MongoDbCredentials}
use pishop_operator.Client.{
  Call, Error, State, Go, ◌>>=◌, ◌>>◌, pure, attempt, perform, maybe, modify, update_status,
  put_object,
}
use pishop_operator.Naming.{default_services}
use pishop_operator.Reconciler.{Reconciler, Reply, ReconcileResult, call, save_status}
use pishop_operator.Conditions.{set_progressing_condition, record_provisioning_error}
use pishop_operator.Provisioning.{
  create_databases, generate_secure_password, provision_connected, provision_mongo_db,
  provision_nats, provision_redis,
}
use pishop_operator.Stack.Secrets.{create_mongo_db_secret}
use pishop_operator.Lifecycle.Provision.{
  handle_initialization, finish_provisioning, handle_provisioning,
}
use pishop_operator.Lifecycle.Verdict.{set_condition_now-Fixes}
use pishop_operator.Lifecycle.Safety.Invariant.{Server, SameStatus}
use pishop_operator.Lifecycle.Progress.Rules.{
  IsFirm, Works, WhenDone, WhenDone-bind, Ends-done, NoError, Smooth-call, Leads, Leads-get,
  Leads-bind, Leads-attempt, Leads-reply, Smooth-Leads,
}
use pishop_operator.Lifecycle.Progress.Servers.{create_namespace-Smooth, default_databases-Smooth}
use pishop_operator.Lifecycle.Progress.Resources.{create_mongo_db_secret-NoError}

module _ (r : Reconciler) (server : Server r.client) (works : Works r) where
  -- The object at hand is the one stored, and has the phase.
  abbrev pub IsSaved : PrStack → State → Type 0
  IsSaved x t =
      (server.stored t.log ≡ t.stack) × (t.stack.spec ≡ x.spec) × SameStatus x.status t.stack.status

  pub save_status-saves :
      (s : State) → WhenDone (λ o t. (o ≡ none) × IsSaved s.stack t) (save_status r s)
  unfolding save_status
  save_status-saves s =
      let l = update_status s.stack ∷ s.log in
      let (there, spec, status) =
        server.status_saved s.stack s.log (works.answered (update_status s.stack) s.log tt) in
      subst
        (λ o.
          WhenDone (λ o t. (o ≡ none) × IsSaved s.stack t)
            (maybe o (put_object (r.client.stack l) >> pure {A = Option Error} none)
              (λ e. pure (some e)) (record s { log = l })))
        (sym (works.answered (update_status s.stack) s.log tt)) (refl, (there, spec, status))

  -- The reply has no error, and the phase is stored.
  abbrev pub Reaches : Phase → Reply → State → Type 0
  Reaches q reply t = (reply.1 ≡ none) × ((server.stored t.log).status.phase ≡ q)

  pub save-Reaches :
      (q : Phase) (fail : Error → Go Reply) (result : ReconcileResult) (s : State)
      → s.stack.status.phase ≡ q
      → WhenDone (Reaches q) (attempt (save_status r) fail (pure (result, none)) s)
  save-Reaches q fail result s h =
      WhenDone-bind _ (Reaches q) (save_status r) _ s (save_status-saves s)
        λ o t (e, (there, spec, status)).
          subst (λ o. WhenDone (Reaches q) (maybe o (pure (result, none)) fail t)) (sym e)
            (refl, ap (λ (x : PrStack). x.status.phase) there ∙ status.same_phase ∙ h)

  progress-Reaches :
      (q : Phase) (reason message : String) (fail : Error → Go Reply) (result : ReconcileResult)
      (s : State)
      → s.stack.status.phase ≡ q
      → WhenDone (Reaches q) (
          (set_progressing_condition r reason message
              >> attempt (save_status r) fail (pure (result, none)))
            s)
  unfolding set_progressing_condition
  progress-Reaches q reason message fail result s h =
      WhenDone-bind
        (λ _ t. (t.stack.status.phase ≡ q) × (t.stack.status.services ≡ s.stack.status.services))
        (Reaches q) (set_progressing_condition r reason message) _ s
        (Ends-done
          (λ _ t. (t.stack.status.phase ≡ q) × (t.stack.status.services ≡ s.stack.status.services))
          (set_progressing_condition r reason message s)
          ((set_condition_now-Fixes q s.stack.status.services r "Progressing" "True" reason
              message).run
            s h refl))
        λ _ t p. save-Reaches q fail result t p.0

  pub handle_initialization-Reaches : Leads (Reaches Phase.provisioning) (handle_initialization r)
  unfolding handle_initialization
  handle_initialization-Reaches = record {
    run = λ s. progress-Reaches Phase.provisioning _ _ _ _ _ refl;
  }

  finish_provisioning-Reaches : Leads (Reaches Phase.deploying) (finish_provisioning r)
  unfolding finish_provisioning
  finish_provisioning-Reaches = record {
    run = λ s. progress-Reaches Phase.deploying _ _ _ _ _ refl;
  }

  -- The database's credentials are at hand, and there is no error.
  abbrev Equipped : Option Error → State → Type 0
  Equipped o t = (o ≡ none) × (is_some t.stack.status.mongo_db ≡ true)

  call-NoError : (c : Call) → IsFirm c → Leads NoError (perform r.client c)
  call-NoError c firm = Smooth-Leads _ (Smooth-call r works c firm)

  databases-NoError : (number : String) → Leads NoError (create_databases r number default_services)
  databases-NoError number = Smooth-Leads _ (default_databases-Smooth r works number)

  save_mongo_db-Equipped :
      (m : MongoDbCredentials) (fail : Error → Go (Option Error))
      → Leads Equipped (
          modify (λ y. record y { status = record (y.status) { mongo_db = some m } })
          >> attempt (save_status r) fail (pure none))
  save_mongo_db-Equipped m fail = record {
    run = λ s.
        let x = record (s.stack) { status = record (s.stack.status) { mongo_db = some m } } in
        WhenDone-bind _ Equipped (save_status r) _ (record s { stack = x }) (save_status-saves _)
          λ o t (e, (there, spec, status)).
            subst (λ o. WhenDone Equipped (maybe o (pure none) fail t)) (sym e)
              (refl, ap is_some status.same_mongo_db);
  }

  provision_connected-Equipped : Leads Equipped (provision_connected r)
  unfolding provision_connected generate_secure_password
  provision_connected-Equipped =
      let reply = Leads-reply r works Equipped in
      search
        (
          Leads-get, Leads-attempt, Leads-bind, reply, call-NoError, tt, databases-NoError,
          save_mongo_db-Equipped,
        )
        depth 16

  provision_mongo_db-Equipped : Leads Equipped (provision_mongo_db r)
  unfolding provision_mongo_db
  provision_mongo_db-Equipped = record {
    run = λ s. (Leads-attempt Equipped _ _ _ (call-NoError _ tt) connected).run s;
  }
    where
      connected :
          Leads Equipped (provision_connected r >>= λ err. call r Call.mongo_disconnect >> pure err)
      connected = record {
        run = λ s.
            WhenDone-bind Equipped Equipped (provision_connected r) _ s
              (provision_connected-Equipped.run s) λ o t p. p;
      }

  abbrev Deploying : Reply → State → Type 0
  Deploying = Reaches Phase.deploying

  abbrev with_servers : Go Reply
  with_servers =
      attempt (provision_nats r) (record_provisioning_error r "NATS")
        (attempt (provision_redis r) (record_provisioning_error r "Redis") (finish_provisioning r))

  with_servers-Reaches : Leads Deploying with_servers
  unfolding provision_nats provision_redis
  with_servers-Reaches = record { run = λ s. finish_provisioning-Reaches.run _ }

  provisioned-Reaches : Leads Deploying (
      attempt (provision_mongo_db r) (record_provisioning_error r "MongoDB") (
        attempt
          (create_mongo_db_secret r)
          (record_provisioning_error r "MongoDB secret")
          with_servers))
  provisioned-Reaches = record {
    run = λ s.
        WhenDone-bind Equipped Deploying (provision_mongo_db r) _ s
          (provision_mongo_db-Equipped.run s)
          λ o t (e, there).
            subst
              (λ o. WhenDone Deploying (
                maybe o
                  (attempt (create_mongo_db_secret r) (record_provisioning_error r "MongoDB secret")
                    with_servers)
                  (record_provisioning_error r "MongoDB") t))
              (sym e)
              (WhenDone-bind NoError Deploying (create_mongo_db_secret r) _ t
                (create_mongo_db_secret-NoError r works t there)
                λ o u f.
                  subst
                    (λ o.
                      WhenDone Deploying
                        (maybe o with_servers (record_provisioning_error r "MongoDB secret") u))
                    (sym f) (with_servers-Reaches.run u));
  }

  pub handle_provisioning-Reaches : Leads Deploying (handle_provisioning r)
  unfolding handle_provisioning
  handle_provisioning-Reaches =
      let namespace = λ (name : String). Smooth-Leads _ (create_namespace-Smooth r works name) in
      search (Leads-get, Leads-attempt, Leads-bind, namespace, provisioned-Reaches) depth 10
