-- ===== src/Lib.antt =====
-- The concurrent reconciler of Jobs and Tekton Runs.
--
-- The program is a Kubernetes controller. A work queue hands it the keys of Tekton Runs that refer
-- to a Job; generated code (pkg/client/injection/reconciler) looks the Run up, chooses a method by
-- leadership and by the deletion timestamp, looks after the finalizer, writes the status back and
-- records events; the method for Runs (pkg/reconciler/job/job.go) sends a request, for now a fake
-- one, and puts the Run back into the queue, which delays each key by five seconds
-- (pkg/custom/rate_limiters.go).
--
-- Parts:
--   Base           names, lists, maps and equality that the parts share
--   Kube           objects, errors and events; the world that the code acts on: the API server, a
--                  clock that never goes back, and the trace of requests and events; objects
--                  behind pointers
--   RateLimiter    pkg/custom/rate_limiters.go: `when`, `num_requeues` and `forget` are the methods;
--                  Locking has goroutines that call them, one step per access under the lock
--   Generated      reconciler.go, state.go and controller.go of
--                  pkg/client/injection/reconciler/{job/v1alpha1/job,pipeline/v1alpha1/run}: the two
--                  are one template, modelled once (Types, State, Finalizers, Status, Reconcile,
--                  Controller) and taken at the two kinds in JobKind, RunKind and Kinds; the other
--                  files have proofs
--   RunReconciler  pkg/reconciler/job/job.go: Kind has `ReconcileKind`, Invoke has `reconcile`,
--                  Labels and Request the functions on labels and on HTTP requests
--   RunController  the generated reconciler of Runs around the method of job.go, for one
--                  reconciliation (Skipping, Storing) and for several (Resting, Rate); Laws has what
--                  is relied on there; Events has `NewController` of
--                  pkg/reconciler/job/controller.go, StartUp all that comes before it
--   JobApi         pkg/apis/job: the types in memory, their methods (Methods), and
--                  v1alpha1/zz_generated.deepcopy.go (DeepCopy)
--   Clientset      pkg/client/clientset/versioned/clientset.go, fake/clientset_generated.go there
--                  (Fake), typed/job/v1alpha1/job_client.go and fake/fake_job_client.go there (Jobs)
--   Scheme         pkg/client/clientset/versioned/scheme/register.go and fake/register.go there
--   JobClient      pkg/client/clientset/versioned/typed/job/v1alpha1/job.go, fake/fake_job.go
--                  there, and pkg/client/listers/job/v1alpha1/job.go; Requests reads the requests of
--                  the typed client by the conventions of the Kubernetes API
--   Informers      pkg/client/informers/externalversions/factory.go: `informer_for`,
--                  `start_informers` and `wait_for_cache_sync`; Jobs has job/v1alpha1/job.go, the
--                  interface.go files and generic.go there
--   Injection      pkg/client/injection/client, informers/factory and informers/job: the clientset,
--                  the factory and the informer in a context (Factories), and their fakes
--   Stub           pkg/client/injection/reconciler/pipeline/v1alpha1/run/stub
--   Programs       cmd/webhook/main.go (Webhook) and cmd/controller/main.go (Manager)
--   Examples       concrete instances, and the theorems at them
--
-- A Go function that acts on the world is a function of the world to its result and the world
-- after it; one that returns a value and an error returns both. A method that changes the object
-- that it is handed returns it. Where job.go lets two pointers share a time, the model says so
-- (`Subject.aliased`); deep copies, and the factories that a context points to, stand in memories
-- with addresses (`Memory`). A nil pointer that job.go dereferences is the outcome `panics`.
-- Points in time and durations are nanoseconds, and a start time that the API server stores is in
-- whole seconds; the counts of the rate limiter are kept modulo 2
-- ^ 64. Nothing runs on fuel: the loops of the code go through a list, or the addresses of a
-- slice, and the retries of `updateStatus` are client-go's: between two of them time passes and
-- others write.
--
-- What the code calls in Kubernetes, knative.dev/pkg, Tekton and Go's library is a parameter
-- (`Library`, `Client`, `Tekton`, `Reconciler`, `Http`, `Rest`, `Fake`, `Indexer`, `Part`,
-- `ClientGo`, `ObjectTracker`, `Cache`, `Scope`, `Handling`, `Recording`, `Schemes`,
-- `Knative`, `SharedMain`), and what is relied on
-- there is a hypothesis with a name (`Documented`, `IsStringSets`; `OnlyGrooms` of the processing
-- before and after `ReconcileKind`, `IsStore` and `IsRunStore` of what the API server stores).
--
-- Not modelled: logging; what the main functions of knative.dev/pkg do with the parts that the
-- programs hand to them; the registration of the injection's functions, which is knative.dev/pkg's;
-- the codecs of the schemes; the tracker of `NewController`, which nothing uses; third-party code.
pub mod Informers
pub mod Base
pub mod RateLimiter
pub mod Kube
pub mod Generated
pub mod RunReconciler
pub mod RunController
pub mod JobApi
pub mod Clientset
pub mod Stub
pub mod Programs
pub mod Scheme
pub mod Injection
pub mod JobClient
pub mod Examples
