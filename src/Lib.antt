-- ===== src/Lib.antt =====
-- The GPU workload operator of Aperture, the Go program under operator/.
--
-- The operator is a Kubernetes controller. A `GPUWorkload` asks for an inference server; the reconciler
-- (operator/controllers/gpuworkload_controller.go) keeps a Deployment and a Service for it, reports a
-- phase in its status, and removes both, by means of a finalizer, before the workload may go. A
-- validating webhook (operator/api/v1alpha1/gpuworkload_webhook.go) checks the specs that are stored.
--
-- The files:
--   * Prelude: shared names, Boolean tests, integers (Int), maps with text keys (Dict), and what the
--     program uses of Go's `fmt` (Format, with a reader that inverts `%d` in Format/RoundTrip).
--   * Kube: the Kubernetes libraries as a parameter (`Kube`: errors, times, quantities, finalizers), the
--     object types with the fields that the operator names (Objects), the documented laws (Laws).
--   * V1alpha1: operator/api/v1alpha1/gpuworkload_types.go; V1alpha1/Webhook: ValidateCreate,
--     ValidateUpdate and ValidateDelete; V1alpha1/Webhook/Laws: what they accept.
--   * Client: the calls of the API server as a parameter over an unknown state; Client/Trace wraps any
--     client so that it writes its calls and their answers down, the newest first; Client/Laws states
--     what a consistent and a reliable server does; Client/Memory is such a server, held in memory
--     (Client/Laws/Memory). Client/Spares is about predicates that calls keep, and Client/Interleaved
--     lets other actors change the state before every call.
--   * Controller: the constants. Controller/Flow: how a Go function goes on, returns early or panics.
--     Controller/Build and Controller/Service: buildInferenceDeployment and buildInferenceService.
--     Controller/Cleanup: deleteOwnedResources. Controller/Status: updateStatus and section 6 of
--     Reconcile. Controller/Reconcile: sections 1 to 5 of Reconcile and the whole. Below it, for any
--     server: Permitted (what a run may call), Deletion, Errors, Readiness, Creation, Calls (how many
--     calls) and Panics; for a consistent or a reliable one: Finished (a deletion that ends), Untouched
--     (an existing Deployment), Attended (what the calls behind its lookup keep), Orphans (runs
--     among the changes of other actors; in Orphans/Interleaved they act within a run as well) and
--     Progress (runs one after the other: Held, Deployed, Served, Up, Fixed). Controller/Build/Accepted
--     joins the webhook and the builders.
--     Controller/Keeps: invariants of functions that may return early.
--   * Controller/Spec: what the operator promises, as a machine over what can be seen of a workload, its
--     Deployment and its Service (Shows: the view of a state). Spec/Refines: Reconcile implements it;
--     Spec/Heals: what follows from any view of a live workload.
--   * Startup: operator/main.go, SetupWithManager, SetupWebhookWithManager and the scheme builder of
--     operator/api/v1alpha1/groupversion_info.go, over controller-runtime as a parameter (`Runtime`);
--     Startup/Laws: the order of their calls.
--   * V1alpha1/DeepCopy: operator/api/v1alpha1/zz_generated_deepcopy.go over an explicit memory of maps,
--     arrays and structs (V1alpha1/Memory, whose parts are a Region of the Prelude each), with the deep
--     copies of the Kubernetes types and the order of `range` as parameters (`Library`, with its laws in
--     Memory/Laws). Memory/Holds says what value a struct holds, followed through its addresses, and
--     Memory/Carries when it stays. DeepCopy/Maps, Slices, Structs, Workloads and Pointers follow the
--     copies part by part; Objects has them whole.
--   * Tests: concrete libraries, a server in memory and concrete workloads.
--
-- State and errors: a call takes the state of the server and returns the next one with its answer. A
-- nil error is `none`. An early `return` ends a run with its `ctrl.Result` and error. `MustParse` may
-- panic, which ends a run too. `Reconcile` has no loop but the one over a Deployment's conditions, so
-- no fuel is needed; `%d` prints on fuel, one more than the number, which always suffices.
-- Memory hands out addresses without end and a cell that was never written is a fault (`none`);
-- `DeepCopyInto` gives the struct that it writes to `*out`, and a slice has no capacity.
-- Go's integers are only compared and printed, so that no machine width shows.
--
-- Not modelled: the calls of the logger; pointers into the array of a slice; the inference server, which
-- is Python; manifests, charts and dashboards.
pub mod Prelude
pub mod Kube
pub mod V1alpha1
pub mod Client
pub mod Controller
pub mod Startup
mod Tests
