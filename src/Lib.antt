-- ===== src/Lib.antt =====
-- The PR stack operator: a Kubernetes controller that gives every pull request an environment of its
-- own. A PRStack resource names a pull request; the controller provisions databases and servers for
-- it, deploys its services, scales them, backs them up, and removes everything with the resource.
--
-- How the program is modelled. A method of the controller is a function from a state to an outcome,
-- `Go A` of Client.antt. The state holds the PRStack that the handlers share by a pointer and the
-- log of the calls made so far. Every call of the Kubernetes API, of MongoDB, of the clock, of the
-- random source and of the event recorder is a value, and `Client` is the world: functions from the
-- log to the replies, so that a world may answer each call by everything that went before. An outcome
-- is a value with a state, or a panic, as of a nil pointer or of `resource.MustParse`. Go's errors
-- are values, `Option Error`. Log lines are left out. All loops are over lists, by recursion.
--
-- Which file models what:
--   Api                   the resource, api/v1alpha1/prdatabase_types.go
--   Kube                  the Kubernetes objects that the code builds, in the fields that it sets
--   Client                the outside world and the methods' type; Client/Rules reasons about runs
--   Naming                controllers/constants.go and the names made of a pull request's number
--   Reconciler            the receiver of the methods and its calls, controllers/prstack_controller.go
--   Conditions            `setCondition` and its callers, controllers/prstack_controller.go
--   Cluster               `CreateOrUpdate`, `createNamespace`, scaling and rollout
--   Provisioning          controllers/provisioning.go: MongoDB, NATS, Redis and the collections
--   Stack                 controllers/stack_provisioning.go and controllers/backup_pvc.go
--   Service               controllers/service_config.go: each service's settings and environment
--   Cleanup               controllers/cleanup.go
--   Backup                controllers/backup_restore.go: the jobs and their scripts
--   Lifecycle             `Reconcile` and the handlers, controllers/prstack_controller.go
--   Regex                 regular expressions, as Go's regexp.MatchString decides them
--   Validation            controllers/validation.go
--   Operator              operator/main.go: the options, the reconciler and the start
--   Samples, Examples     a world to run the operator in, and results applied in it
--
-- `Reconcile` is `reconcile` of Lifecycle/Main, cut into steps at the places where the source may
-- return. It calls the handlers, which call the modules above and share the object at hand. A save
-- overwrites that object by the server's reply. Lifecycle/Safety speaks of the stored object through
-- `Server`, which says what the API server does with a save, and Lifecycle/Phases of its phase.
-- Lifecycle/Progress runs it in a world without errors, `Works`, where a Get may find nothing and
-- a Create may find the object there, and Lifecycle/Failure with any errors; Lifecycle/Strict says
-- which errors of a call are passed over.
--
-- The patterns of the validation are trees of Regex, whose matcher works by derivatives. `main` is a
-- list of steps, with the errors that controller-runtime gives to them as a parameter, as the parser
-- of quantities is one of the validation.
--
-- Not modelled: `SetupWithManager`, the schemes, the logger, the syntax of the command line and
-- generated code, all of which only set up libraries. A time is a number of nanoseconds, an int32
-- replica count a number.
pub mod Base
pub mod Naming
pub mod Regex
pub mod Kube
pub mod Api
pub mod Client
pub mod Reconciler
pub mod Conditions
pub mod Cluster
pub mod Provisioning
pub mod Stack
pub mod Service
pub mod Cleanup
pub mod Backup
pub mod Validation
pub mod Lifecycle
pub mod Operator
pub mod Samples
pub mod Examples
