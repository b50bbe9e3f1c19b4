-- ===== src/Lifecycle/Safety/Provisioning.antt =====
-- Safety of `handleProvisioning` and `provisionMongoDB`.
use pishop_operator.Base.{
  String, ◌≡◌, refl, ap, ◌∙◌, Bool, true, false, Option, none, some, is_some, ◌∷◌,
}
use pishop_operator.Api.{PrStack, Phase, MongoDbCredentials}
use pishop_operator.Client.{
  Error, Call, State, Go, ◌>>=◌, ◌>>◌, pure, attempt, get_object, modify, maybe,
}
use pishop_operator.Client.Rules.{Ends, Ends-bind, Ends-attempt, here, more}
use pishop_operator.Reconciler.{
  Reconciler, save_status, call, Reply, no_result, after, requeue_interval_short,
}
use pishop_operator.Conditions.{record_provisioning_error, set_progressing_condition}
use pishop_operator.Lifecycle.Provision.{finish_provisioning, handle_provisioning}
use pishop_operator.Cluster.{create_namespace}
use pishop_operator.Cluster.Quiet.{create_namespace-Quiet}
use pishop_operator.Stack.Secrets.{create_mongo_db_secret}
use pishop_operator.Naming.{default_services}
use pishop_operator.Provisioning.{
  create_databases, provision_connected, provision_mongo_db, provision_nats, provision_redis,
}
use pishop_operator.Provisioning.Quiet.{create_databases-Quiet}
use pishop_operator.Stack.Quiet.{HasCredentials, create_mongo_db_secret-Quiet}
use pishop_operator.Lifecycle.Safety.Invariant.{Server, Safe}
use pishop_operator.Lifecycle.Safety.Keeps.{
  Keeps, keeps, Quiet→Keeps, Quietly→Safe, Safe-write, save_status-Ends,
  set_progressing_condition-Keeps, record_provisioning_error-Keeps, Keeps-call, Keeps-record,
}

-- The method keeps a run safe, and where it returns no error the database's credentials are there.
record Gives (r : Reconciler) (server : Server r.client) (c : Bool) (m : Go (Option Error))
    : Type 0 where
  run :
      (s : State)
      → Safe server r c s
      → Ends (λ o t. Safe server r c t × (o ≡ none → is_some t.stack.status.mongo_db ≡ true)) (m s)

module _ (r : Reconciler) (server : Server r.client) (c : Bool) where
  Gives-error : (e : Error) → Gives r server c (pure (some e))
  Gives-error e = record { run = λ s h. (h, λ n. cc) }

  Gives-bind {ℓ} :
      {A : Type ℓ} (m : Go A) (f : A → Go (Option Error))
      → Keeps r server c m
      → ((a : A) → Gives r server c (f a))
      → Gives r server c (m >>= f)
  Gives-bind m f h k = record {
    run = λ s safe. Ends-bind _ _ m f s (h s safe) λ a t p. (k a).run t p;
  }

  Gives-maybe :
      {A : Type 0} (o : Option A) (absent : Go (Option Error)) (present : A → Go (Option Error))
      → Gives r server c absent
      → ((a : A) → Gives r server c (present a))
      → Gives r server c (maybe o absent present)
  Gives-maybe none absent present h k = h
  Gives-maybe (some a) absent present h k = k a

  Gives-attempt :
      (m : Go (Option Error)) (fail : Error → Go (Option Error)) (rest : Go (Option Error))
      → Keeps r server c m
      → ((e : Error) → Gives r server c (fail e))
      → Gives r server c rest
      → Gives r server c (attempt m fail rest)
  Gives-attempt m fail rest h bad good = Gives-bind m _ h λ err. Gives-maybe err rest fail good bad

  Gives-get :
      (f : PrStack → Go (Option Error))
      → ((x : PrStack) → Gives r server c (f x))
      → Gives r server c (get_object >>= f)
  Gives-get f h = record { run = λ s. (h s.stack).run s }

  ruleset gives =
      (Gives-error, Gives-maybe, Gives-attempt, Gives-get, Gives-bind, Keeps-call, Keeps-record, tt)

  databases-Keeps :
      (number : String) → Keeps r server c (create_databases r number default_services)
  databases-Keeps number =
      Quiet→Keeps r server c (create_databases r number default_services)
        (create_databases-Quiet r number default_services)

  abbrev write_mongo_db : MongoDbCredentials → PrStack → PrStack
  write_mongo_db m y = record y { status = record (y.status) { mongo_db = some m } }

  save_mongo_db-Gives :
      (m : MongoDbCredentials) (fail : Error → Error)
      → Gives r server c (
          modify (write_mongo_db m)
          >> attempt (save_status r) (λ e. pure (some (fail e))) (pure none))
  save_mongo_db-Gives m fail = record {
    run = λ s h.
        let written =
          Safe-write r server c s (write_mongo_db m s.stack) refl
            (record {
              deploying_ready =
                  λ d. (refl, (h.sound.deploying_ready d).1, (h.sound.deploying_ready d).2);
              timed = h.sound.timed;
            })
            h.created h in
        Ends-attempt _ _ (save_status r) (λ e. pure (some (fail e))) (pure none) _
          (save_status-Ends r server c _ written) (λ e t p. (p.0, λ n. cc))
          (λ t p. (p.0, λ n. ap is_some p.1.same_mongo_db));
  }

  provision_connected-Gives : Gives r server c (provision_connected r)
  unfolding provision_connected
  provision_connected-Gives = search (gives, databases-Keeps, save_mongo_db-Gives) depth 14

  disconnect-Gives :
      (m : Go (Option Error))
      → Gives r server c m
      → Gives r server c (m >>= λ err. call r Call.mongo_disconnect >> pure err)
  disconnect-Gives m g = record {
    run = λ s h. Ends-bind _ _ m _ s (g.run s h) λ o t p.
        (Quietly→Safe r server c t _ (record { same = refl; grown = more _ tt here }) p.0, p.1);
  }

  provision_mongo_db-Gives : Gives r server c (provision_mongo_db r)
  unfolding provision_mongo_db
  provision_mongo_db-Gives =
      let connected = disconnect-Gives (provision_connected r) provision_connected-Gives in
      search (gives, connected)

  -- The last step: the credentials are there, so the phase Deploying is well formed.
  finish_provisioning-Ends :
      (s : State)
      → Safe server r c s
      → HasCredentials s.stack.status
      → Ends (λ _ t. Safe server r c t) (finish_provisioning r s)
  unfolding finish_provisioning
  finish_provisioning-Ends s h has =
      let noted =
        Quietly→Safe r server c s
          (record s {
            log =
                Call.event false "ProvisioningComplete"
                  "Infrastructure provisioning completed successfully"
                ∷ s.log;
          })
          (record { same = refl; grown = more _ tt here }) h in
      let deploying =
        Safe-write r server c _
          (record (s.stack) {
            status = record (s.stack.status) {
              phase = Phase.deploying;
              message = "Resources provisioned, starting service deployment";
            };
          })
          refl (record { deploying_ready = λ d. has; timed = h.sound.timed }) h.created noted in
      after_phase _ deploying
    where
      after_phase : Keeps r server c (
          set_progressing_condition r "Deploying" "Deploying services to cluster"
          >> attempt
              (save_status r)
              (λ e. pure {A = Reply} (no_result, some e))
              (pure (after requeue_interval_short, none)))
      after_phase = search (keeps, set_progressing_condition-Keeps)

  -- NATS and Redis are settled in memory.
  with_servers-Ends :
      (s : State)
      → Safe server r c s
      → is_some s.stack.status.mongo_db ≡ true
      → Ends
          (λ _ t. Safe server r c t)
          (attempt
            (provision_nats r)
            (record_provisioning_error r "NATS")
            (attempt
              (provision_redis r)
              (record_provisioning_error r "Redis")
              (finish_provisioning r))
            s)
  unfolding provision_nats provision_redis
  with_servers-Ends s h has =
      finish_provisioning-Ends _
        (Safe-write r server c s _ refl
          (record { deploying_ready = λ d. (has, refl, refl); timed = h.sound.timed }) h.created h)
        (has, refl, refl)

  abbrev after_mongo_db : Go Reply
  after_mongo_db =
      attempt (provision_nats r) (record_provisioning_error r "NATS")
        (attempt (provision_redis r) (record_provisioning_error r "Redis") (finish_provisioning r))

  abbrev after_namespace : Go Reply
  after_namespace = attempt (provision_mongo_db r) (record_provisioning_error r "MongoDB") (
      attempt (create_mongo_db_secret r) (record_provisioning_error r "MongoDB secret")
        after_mongo_db)

  after_namespace-Keeps : Keeps r server c after_namespace
  after_namespace-Keeps s h =
      Ends-attempt _ _ (provision_mongo_db r) (record_provisioning_error r "MongoDB")
        (attempt (create_mongo_db_secret r) (record_provisioning_error r "MongoDB secret")
          after_mongo_db)
        s (provision_mongo_db-Gives.run s h)
        (λ e t p. record_provisioning_error-Keeps r server c "MongoDB" e t p.0)
        λ t p.
          Ends-attempt _ _ (create_mongo_db_secret r) (record_provisioning_error r "MongoDB secret")
            after_mongo_db t (create_mongo_db_secret-Quiet r t)
            (λ e u q.
              record_provisioning_error-Keeps r server c "MongoDB secret" e u
                (Quietly→Safe r server c t u q p.0))
            λ u q.
              with_servers-Ends u (Quietly→Safe r server c t u q p.0)
                (ap (λ (x : PrStack). is_some x.status.mongo_db) q.same ∙ p.1 refl)

  -- The phase Deploying is entered only with all credentials at hand.
  pub handle_provisioning-Keeps : Keeps r server c (handle_provisioning r)
  unfolding handle_provisioning
  handle_provisioning-Keeps =
      let quiet_namespace = λ (name : String).
        Quiet→Keeps r server c (create_namespace r name) (create_namespace-Quiet r name) in
      search
        (
          keeps, set_progressing_condition-Keeps, quiet_namespace, record_provisioning_error-Keeps,
          after_namespace-Keeps,
        )
        depth 8
