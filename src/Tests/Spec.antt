-- ===== src/Tests/Spec.antt =====
-- The specification at the sample workload on the API server in memory.
use aperture_ai.Prelude.{◌≡◌, refl, [], ◌∷◌, true, false, none, some, ℕ, suc}
use aperture_ai.V1alpha1.{GpuWorkloadPhase}
use aperture_ai.Client.Laws.{AcceptsDeletions}
use aperture_ai.Client.Laws.Memory.{memory_client-AcceptsDeletions}
use aperture_ai.Client.Memory.{Cluster}
use aperture_ai.Controller.{finalizer_name}
use aperture_ai.Controller.Flow.{exit, returned}
use aperture_ai.Controller.Reconcile.{reconcile}
use aperture_ai.Controller.Reconcile.Progress.Up.{after_runs}
use aperture_ai.Controller.Spec.{View, Choice, next_view}
use aperture_ai.Controller.Spec.Shows.{Shows}
use aperture_ai.Controller.Spec.Refines.{reconcile_refines}
use aperture_ai.Controller.Spec.Heals.{up, reconcile_heals}
use aperture_ai.Tests.Toy.{toy, toy_client, toy_reference, workload, test_key, cluster}
use aperture_ai.Tests.Reliable.{toy_reliable}

toy-AcceptsDeletions : AcceptsDeletions toy_client
toy-AcceptsDeletions = memory_client-AcceptsDeletions toy "NotFound" "AlreadyExists" refl

-- The workload says that it runs, and nothing is there.
abbrev lost : Cluster toy
lost = cluster (workload (finalizer_name ∷ []) none "Running")

abbrev lost_view : View
lost_view = record {
  workload = some (record { live = true; guarded = true; phase = "Running" });
  deployment = none;
  service = false;
}

lost-Shows : Shows toy_client test_key lost lost_view
lost-Shows = record {
  shows_workload = (
    workload (finalizer_name ∷ []) none "Running",
    refl,
    record { looks_live = refl; looks_guarded = refl; looks_phase = refl },
  );
  shows_deployment = ("NotFound", refl, refl);
  shows_service = ("NotFound", refl, refl);
}

reconcile_refines_example :
    (c : Choice) × ((reconcile toy_client toy_reference tt test_key lost).0
      ≡ returned (exit (next_view c lost_view).0 none))
    × Shows toy_client test_key
        (reconcile toy_client toy_reference tt test_key lost).1
        (next_view c lost_view).1
reconcile_refines_example =
    reconcile_refines toy_client toy_reference tt toy_reliable test_key toy-AcceptsDeletions
      lost_view lost lost-Shows

reconcile_heals_example :
    (shown : GpuWorkloadPhase) × ((n : ℕ)
      → Shows toy_client test_key
          (after_runs toy_client toy_reference tt toy_reliable test_key (suc (suc (suc n))) lost)
          (up shown))
reconcile_heals_example =
    reconcile_heals toy_client toy_reference tt toy_reliable toy-AcceptsDeletions test_key lost_view
      (record { live = true; guarded = true; phase = "Running" }) lost refl refl lost-Shows
