-- ===== src/Tests/Reconcile.antt =====
-- Runs of the reconciler at the sample workload, on the API server in memory, as in
-- operator/controllers/gpuworkload_controller_test.go.
use aperture_ai.Prelude.{
  String, some, none, false, [], ◌∷◌, pos, ◌≡◌, ◌≢◌, ◌≤◌, refl, All, ◌⊎◌, inl, arith, eq_iff,
  if◌then◌else◌,
}
use aperture_ai.Kube.Objects.{Deployment, Service}
use aperture_ai.V1alpha1.{GpuWorkload}
use aperture_ai.Client.{Client, ok, err}
use aperture_ai.Client.Memory.{Cluster, same_key}
use aperture_ai.Client.Trace.{traced, got_workload, got_deployment, got_service, updated_workload}
use aperture_ai.Controller.{finalizer_name, requeue_delay}
use aperture_ai.Controller.Flow.{panicked, returned, exit, empty_result, api}
use aperture_ai.Controller.Cleanup.{deploy_key, svc_key}
use aperture_ai.Controller.Status.Laws.{Observed, running}
use aperture_ai.Controller.Reconcile.{with_finalizers, reconcile}
use aperture_ai.Client.Laws.{SameDeployments, IsConsistent}
use aperture_ai.Controller.Status.Stored.{Reports}
use aperture_ai.Client.Laws.Memory.{memory_client-IsConsistent}
use aperture_ai.Controller.Reconcile.Untouched.{reconcile-SameDeployments}
use aperture_ai.Controller.Reconcile.Permitted.{Permitted, reconcile-Permitted}
use aperture_ai.Controller.Reconcile.Deletion.{CleanFirst, last_event, reconcile_deletion}
use aperture_ai.Controller.Reconcile.Creation.{
  EachReported, creation_error, reconcile_reports_creation,
}
use aperture_ai.Controller.Reconcile.Calls.{calls, calls-reconcile}
use aperture_ai.Controller.Reconcile.Panics.{reconcile-ne-panicked}
use aperture_ai.Controller.Reconcile.Readiness.{Settled, reconcile-Reports, reconcile_idle}
use aperture_ai.Tests.Toy.{
  toy, toy_reference, toy_client, toy-NotFoundIsLawful, toy-QuantitiesAreLawful, workload, test_key,
  cluster,
}

-- Before the first run.
abbrev fresh : GpuWorkload toy
fresh = workload [] none ""

reconcile-Permitted_example :
    All
      (Permitted toy_reference tt test_key fresh)
      (reconcile (traced toy_client) toy_reference tt test_key (cluster fresh, [])).1.1
reconcile-Permitted_example =
    reconcile-Permitted toy_client toy_reference tt test_key fresh (cluster fresh) refl

-- Asked to be deleted, with the finalizer in place.
abbrev deleting : GpuWorkload toy
deleting = workload (finalizer_name ∷ []) (some 7) "Running"

reconcile_deletion_example :
    let (o, st) = reconcile (traced toy_client) toy_reference tt test_key (cluster deleting, []) in
    CleanFirst deleting st.1
    × (o ≡ returned (exit empty_result none)
        → last_event st.1 ≡ some (updated_workload (with_finalizers deleting []) none))
reconcile_deletion_example =
    reconcile_deletion toy_client toy_reference tt test_key deleting (cluster deleting) refl refl
      refl

-- Live and guarded, with its Deployment and its Service.
abbrev served : String → GpuWorkload toy
served phase = workload (finalizer_name ∷ []) none phase

abbrev ready_deployment : Deployment toy
ready_deployment = record {
  metadata = record {
    name = "test-workload-inference";
    namespace = "default";
    labels = [];
    deletion_timestamp = none;
    finalizers = [];
    owner_references = [];
  };
  spec = record {
    replicas = some (pos 1);
    match_labels = [];
    template = record {
      labels = [];
      spec = record {
        security_context = none;
        containers = [];
        init_containers = [];
        volumes = [];
        node_selector = [];
        tolerations = [];
        priority_class_name = "";
      };
    };
  };
  status = record { ready_replicas = pos 1; unavailable_replicas = pos 0; conditions = [] };
}

abbrev service : Service toy
service = record {
  metadata = record {
    name = "test-workload-svc";
    namespace = "default";
    labels = [];
    deletion_timestamp = none;
    finalizers = [];
    owner_references = [];
  };
  spec = record { service_type = "ClusterIP"; selector = []; ports = [] };
}

abbrev serving : GpuWorkload toy → Cluster toy
serving w = record (cluster w) {
  deployments = λ k. if same_key (deploy_key w) k then some ready_deployment else none;
  services = λ k. if same_key (svc_key w) k then some service else none;
}

settled :
    (phase : String)
    → Settled toy_client test_key (serving (served phase)) (served phase) ready_deployment service
settled phase = record {
  has_workload = refl;
  is_live = refl;
  is_guarded = refl;
  has_deployment = refl;
  has_service = refl;
}

toy_consistent : IsConsistent toy_client
toy_consistent = memory_client-IsConsistent toy "NotFound" "AlreadyExists" refl

reconcile-Reports_example :
    let (o, s') = reconcile toy_client toy_reference tt test_key (serving (served "Pending")) in
    ((o ≡ returned (exit empty_result none))
      × ((phase : String) × Reports toy_client toy_consistent
            (served "Pending")
            (serving (served "Pending"))
            s'
            phase
          × Observed ready_deployment phase))
    ⊎ ((u : GpuWorkload toy) × (e : String) × ((toy_client.update_workload_status u
            (serving (served "Pending"))).0
          ≡ some e)
        × (o
            ≡ returned
                (exit (record { requeue = false; requeue_after = requeue_delay }) (some (api e)))))
reconcile-Reports_example =
    reconcile-Reports toy_client toy_consistent toy-NotFoundIsLawful toy_reference tt test_key
      (served "Pending") ready_deployment service (serving (served "Pending")) refl refl refl refl
      refl

ready_shown : Observed ready_deployment "Running"
ready_shown = running (pos 1, inl refl, omega arith, omega arith) refl

reconcile_idle_example :
    ((reconcile (traced toy_client) toy_reference tt test_key (serving (served "Running"), [])).0
      ≡ returned (exit empty_result none))
    × ((reconcile
          (traced toy_client)
          toy_reference
          tt
          test_key
          (serving (served "Running"), [])).1.1
        ≡ got_service (svc_key (served "Running")) (ok service)
          ∷ got_deployment (deploy_key (served "Running")) (ok ready_deployment)
          ∷ got_workload test_key (ok (served "Running"))
          ∷ [])
reconcile_idle_example =
    reconcile_idle toy_client toy_reference tt test_key toy-NotFoundIsLawful
      (serving (served "Running")) (settled "Running") ready_shown
      (ground (arith, eq_iff "Running" "Failed"))

-- The server fails every lookup of a Deployment, so that the cleanup returns a wrapped error.
abbrev failing_client : Client toy
failing_client = record toy_client { get_deployment = λ k s. (err "timeout", s) }

calls-reconcile_example :
    calls (reconcile (traced toy_client) toy_reference tt test_key (cluster deleting, [])).1.1 ≤ 6
calls-reconcile_example = calls-reconcile toy_client toy_reference tt test_key (cluster deleting)

reconcile-ne-panicked_example :
    (reconcile toy_client toy_reference tt test_key (cluster (served "Pending"))).0 ≢ panicked
reconcile-ne-panicked_example =
    reconcile-ne-panicked toy_client toy_reference tt toy-QuantitiesAreLawful test_key
      (cluster (served "Pending"))

-- The server refuses every Deployment.
abbrev refusing_client : Client toy
refusing_client = record toy_client { create_deployment = λ d s. (some "quota exceeded", s) }

reconcile_reports_creation_example :
    EachReported
      (reconcile (traced refusing_client) toy_reference tt test_key (cluster (served ""), [])).1.1
    × (creation_error
          (reconcile
            (traced refusing_client)
            toy_reference
            tt
            test_key
            (cluster (served ""), [])).1.1
        ≡ none)
reconcile_reports_creation_example =
    reconcile_reports_creation refusing_client toy_reference tt test_key (cluster (served ""))

-- Its Deployment is there, and its Service is not.
abbrev half_served : Cluster toy
half_served = record (serving (served "Pending")) { services = λ k. none }

reconcile-SameDeployments_example :
    SameDeployments toy_client half_served
      (reconcile toy_client toy_reference tt test_key half_served).1
reconcile-SameDeployments_example =
    reconcile-SameDeployments toy_client toy_consistent test_key toy-NotFoundIsLawful toy_reference
      tt (served "Pending") ready_deployment half_served refl refl refl refl
