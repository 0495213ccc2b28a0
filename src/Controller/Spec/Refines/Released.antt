-- ===== src/Controller/Spec/Refines/Released.antt =====
-- A workload that is gone, is being deleted, or is let go already.
use aperture_ai.Prelude.{◌≡◌, inl, inr, true, false, some, none, Option, Bool, if◌then◌else◌}
use aperture_ai.Kube.{Kube}
use aperture_ai.Kube.Objects.{NamespacedName}
use aperture_ai.V1alpha1.{GpuWorkload, GpuWorkloadPhase}
use aperture_ai.Client.{Client, ok, SetControllerReference}
use aperture_ai.Client.Laws.{
  IsReliable, AcceptsDeletions, IsAnswered, IsAbsent, workload_at, deployment_at, service_at,
}
use aperture_ai.Controller.{finalizer_name}
use aperture_ai.Controller.Flow.{exit, empty_result, returned}
use aperture_ai.Controller.Cleanup.Accepted.{delete_owned_resources_accepted}
use aperture_ai.Controller.Reconcile.{reconcile}
use aperture_ai.Controller.Reconcile.Finished.{reconcile_lets_go}
use aperture_ai.Controller.Reconcile.Names.{
  deployment_of, service_of, deploy_key_of_key, svc_key_of_key,
}
use aperture_ai.Controller.Reconcile.Permitted.{IsDeleting, HasFinalizer}
use aperture_ai.Controller.Spec.{View}
use aperture_ai.Controller.Spec.Shows.{Looks, ShowsDeployment, ShowsService}
use aperture_ai.Controller.Spec.Does.{Does}

module _ {K : Kube} (C : Client K) (set_reference : SetControllerReference K) (scheme : K.Scheme)
    (reliable : IsReliable C set_reference scheme) (key : NamespacedName) where
  pub reconcile-gone :
      (s : C.State)
      → IsAbsent K (workload_at C s key)
      → reconcile C set_reference scheme key s ≡ (returned (exit empty_result none), s)
  unfolding reconcile
  reconcile-gone s (e, absent, missing) =
      rw absent (rw missing (rw (reliable.consistent.get_workload-state key s)))

  pub reconcile-let_go :
      (w : GpuWorkload K) (s : C.State)
      → workload_at C s key ≡ ok w
      → IsDeleting w
      → HasFinalizer w false
      → reconcile C set_reference scheme key s ≡ (returned (exit empty_result none), s)
  unfolding reconcile
  reconcile-let_go w s found deleting bare =
      rw found (rw deleting (rw bare (rw (reliable.consistent.get_workload-state key s))))

  IsAnswered-deployment :
      (s : C.State) (o : Option GpuWorkloadPhase)
      → ShowsDeployment C key s o
      → IsAnswered K (deployment_at C s (deployment_of key))
  IsAnswered-deployment s none absent = inr absent
  IsAnswered-deployment s (some phase) (d, found, observed) = inl (d, found)

  IsAnswered-service :
      (s : C.State) (b : Bool)
      → ShowsService C key s b
      → IsAnswered K (service_at C s (service_of key))
  IsAnswered-service s true present = inl present
  IsAnswered-service s false absent = inr absent

  pub Does-release :
      AcceptsDeletions C
      → (w : GpuWorkload K) (phase : GpuWorkloadPhase) (v : View) (s : C.State)
      → workload_at C s key ≡ ok w
      → Looks w (record { live = false; guarded = true; phase = phase })
      → ShowsDeployment C key s v.deployment
      → ShowsService C key s v.service
      → (stays : Bool) × Does C set_reference scheme reliable key s empty_result (record {
        workload =
            if stays then some (record { live = false; guarded = false; phase = phase }) else none;
        deployment = none;
        service = false;
      })
  Does-release deletions w phase v s found looks d service =
      let named = reliable.consistent.workload-key key s w found in
      let deleted =
        delete_owned_resources_accepted C reliable.consistent deletions w s
          (rw (deploy_key_of_key w named) (IsAnswered-deployment s v.deployment d))
          (rw (svc_key_of_key w named) (IsAnswered-service s v.service service)) in
      let (o, (undeployed, unserved, end)) =
        reconcile_lets_go C reliable.consistent reliable.finalizers w set_reference scheme key s
          found looks.looks_live looks.looks_guarded deleted
          reliable.available.accepts-update_workload in
      elim end [
        | inl kept ↦ (
          true,
          (
            o,
            record {
              shows_workload = (
                _,
                rw named at kept,
                record {
                  looks_live = looks.looks_live;
                  looks_guarded =
                      reliable.finalizers.contains-remove w.metadata.finalizers finalizer_name;
                  looks_phase = looks.looks_phase;
                },
              );
              shows_deployment = rw (deploy_key_of_key w named) at undeployed;
              shows_service = rw (svc_key_of_key w named) at unserved;
            },
          ),
        )
        | inr gone ↦ (
          false,
          (
            o,
            record {
              shows_workload = rw named at gone;
              shows_deployment = rw (deploy_key_of_key w named) at undeployed;
              shows_service = rw (svc_key_of_key w named) at unserved;
            },
          ),
        )
      ]
