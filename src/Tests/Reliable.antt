-- ===== src/Tests/Reliable.antt =====
-- Runs at the sample workload on the API server in memory, which is reliable.
use aperture_ai.Prelude.{
  String, some, none, [], ◌∷◌, List, ◌≡◌, ◌⊎◌, refl, true, false, arith, eq_iff, suc, ℕ, Bool-cases,
  inl, inr, ◌==◌,
}
use aperture_ai.Kube.Laws.{FinalizersAreLawful}
use aperture_ai.Kube.Objects.{Deployment}
use aperture_ai.V1alpha1.{GpuWorkload, phase_pending}
use aperture_ai.Client.Laws.{
  RefusalsAreLawful, IsReliable, IsConsistent, IsAbsent, deployment_at, service_at,
}
use aperture_ai.Client.{ok}
use aperture_ai.Client.Laws.Memory.{
  memory_client-IsConsistent, memory_client-IsAvailable, memory_client-RefusalsAreLawful,
}
use aperture_ai.Controller.{finalizer_name}
use aperture_ai.Controller.Flow.{returned, exit, empty_result}
use aperture_ai.Controller.Cleanup.{deploy_key, svc_key}
use aperture_ai.Controller.Reconcile.Progress.{IsHeld, HoldsWith}
use aperture_ai.Controller.Reconcile.{reconcile}
use aperture_ai.Controller.Reconcile.Finished.{Released, reconcile_releases}
use aperture_ai.Controller.Reconcile.Progress.Served.{Serves}
use aperture_ai.Controller.Reconcile.Progress.Up.{IsNew, after_runs, reconcile_brings_up}
use aperture_ai.Controller.Reconcile.Progress.Fixed.{HasFailedPhase, reconcile_converges}
use aperture_ai.Client.Memory.{Cluster}
use aperture_ai.Controller.Reconcile.Orphans.{
  NoOrphans, Reachable, start, step, run, Reachable-NoOrphans,
}
use aperture_ai.Tests.Toy.{
  toy, toy_reference, toy_client, toy-NotFoundIsLawful, toy-QuantitiesAreLawful, workload, test_key,
  cluster, drop_finalizer, has_finalizer,
}

has-drop : (l : List String) (f : String) → has_finalizer (drop_finalizer l f) f ≡ false
has-drop [] f = refl
has-drop (g ∷ l) f = elim (Bool-cases (g == f)) [
  | inl same ↦ rw same (has-drop l f)
  | inr differs ↦ rw differs (rw differs (has-drop l f))
]

toy-FinalizersAreLawful : FinalizersAreLawful toy
toy-FinalizersAreLawful = record {
  contains-add = λ l f. elim (Bool-cases (has_finalizer l f)) [
    | inl there ↦ rw there there
    | inr absent ↦ rw absent (ground (arith, eq_iff f f))
  ];
  contains-remove = has-drop;
}

toy-IsConsistent : IsConsistent toy_client
toy-IsConsistent = memory_client-IsConsistent toy "NotFound" "AlreadyExists" refl

pub toy_reliable : IsReliable toy_client toy_reference tt
toy_reliable = record {
  consistent = toy-IsConsistent;
  available =
      memory_client-IsAvailable toy "NotFound" "AlreadyExists" refl toy_reference tt
        (λ w m. (_, refl));
  references = record { key-reference = λ w m m' scheme h. ground arith };
  not_found = toy-NotFoundIsLawful;
  finalizers = toy-FinalizersAreLawful;
  quantities = toy-QuantitiesAreLawful;
}

sample-IsNew :
    IsNew toy_client toy_reference tt toy_reliable test_key
      (workload [] none "")
      (cluster (workload [] none ""))
sample-IsNew = record {
  is_found = refl;
  new_live = refl;
  new_bare = refl;
  new_undeployed = ("NotFound", refl, refl);
  new_unserved = ("NotFound", refl, refl);
}

reconcile_brings_up_example :
    let key = test_key in
    let s = cluster (workload [] none "") in
    let run = after_runs toy_client toy_reference tt toy_reliable key in
    ((reconcile toy_client toy_reference tt key s).0
      ≡ returned (exit (record { requeue = true; requeue_after = 0 }) none))
    × IsHeld toy_client toy_reference tt toy_reliable key
        (workload (finalizer_name ∷ []) none "")
        (run 1 s)
    × ((reconcile toy_client toy_reference tt key (run 1 s)).0 ≡ returned (exit empty_result none))
    × IsAbsent toy (service_at toy_client (run 2 s) (svc_key (workload [] none "")))
    × HoldsWith toy_client toy_reference tt toy_reliable key
        (workload (finalizer_name ∷ []) none "")
        (run 2 s)
        phase_pending
    × ((d : Deployment toy) × (deployment_at toy_client (run 2 s) (deploy_key (workload [] none ""))
          ≡ ok d)
        × ((n : ℕ)
            → Serves toy_client toy_reference tt toy_reliable key
                (workload (finalizer_name ∷ []) none "")
                d
                (run (suc (suc (suc n))) s)))
reconcile_brings_up_example =
    reconcile_brings_up toy_client toy_reference tt toy_reliable test_key (workload [] none "")
      (cluster (workload [] none "")) sample-IsNew

abbrev deleting : GpuWorkload toy
deleting = workload (finalizer_name ∷ []) (some 7) "Running"

deletion_returns :
    (reconcile toy_client toy_reference tt test_key (cluster deleting)).0
    ≡ returned (exit empty_result none)
unfolding reconcile
deletion_returns = refl

reconcile_releases_example :
    Released toy_client toy-IsConsistent toy-FinalizersAreLawful deleting
      (reconcile toy_client toy_reference tt test_key (cluster deleting)).1
reconcile_releases_example =
    reconcile_releases toy_client toy-IsConsistent toy-FinalizersAreLawful deleting toy_reference tt
      test_key (cluster deleting) refl refl refl deletion_returns

reconcile_converges_example :
    let run = after_runs toy_client toy_reference tt toy_reliable test_key in
    let up = run 3 (cluster (workload [] none "")) in
    ((n : ℕ) → run n up ≡ up)
    ⊎ HasFailedPhase toy_client toy_reference tt toy_reliable test_key
        (workload (finalizer_name ∷ []) none "")
        up
reconcile_converges_example =
    reconcile_converges toy_client toy_reference tt toy_reliable test_key (workload [] none "")
      (cluster (workload [] none "")) sample-IsNew

toy-RefusalsAreLawful : RefusalsAreLawful toy_client
toy-RefusalsAreLawful = memory_client-RefusalsAreLawful toy "NotFound" "AlreadyExists" refl

-- After one run.
abbrev first : Cluster toy
first = (reconcile toy_client toy_reference tt test_key (cluster (workload [] none ""))).1

two_runs :
    Reachable toy_client toy-IsConsistent toy-RefusalsAreLawful test_key toy_reference tt
      (cluster (workload [] none ""))
      (reconcile toy_client toy_reference tt test_key first).1
two_runs = step first _ (step (cluster (workload [] none "")) _ start run) run

Reachable-NoOrphans_example :
    NoOrphans toy_client toy-IsConsistent toy-RefusalsAreLawful test_key
      (reconcile toy_client toy_reference tt test_key first).1
Reachable-NoOrphans_example =
    Reachable-NoOrphans toy_client toy-IsConsistent toy-RefusalsAreLawful test_key toy_reference tt
      (cluster (workload [] none "")) (reconcile toy_client toy_reference tt test_key first).1
      (("NotFound", refl, refl), ("NotFound", refl, refl)) two_runs
