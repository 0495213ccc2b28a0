-- ===== src/Controller/Reconcile/Progress/Served.antt =====
-- The runs that find the Deployment: the one that creates the Service, and those after it.
use aperture_ai.Prelude.{◌≡◌, refl, ◌∙◌, none}
use aperture_ai.Kube.{Kube}
use aperture_ai.Kube.Objects.{NamespacedName, Deployment, Service, ObjectMeta, object_key}
use aperture_ai.V1alpha1.{GpuWorkload, GpuWorkloadPhase, workload_key}
use aperture_ai.Client.{Client, ok, SetControllerReference}
use aperture_ai.Client.Laws.{
  IsReliable, IsAbsent, IsPresent, workload_at, deployment_at, service_at,
}
use aperture_ai.Controller.{deploy_name_of, svc_name_of}
use aperture_ai.Controller.Flow.{exit, empty_result, returned}
use aperture_ai.Controller.Service.{build_inference_service}
use aperture_ai.Controller.Cleanup.{deploy_key, svc_key}
use aperture_ai.Controller.Status.{update_readiness}
use aperture_ai.Controller.Status.Laws.{Observed}
use aperture_ai.Controller.Status.Stored.{update_readiness-Reports, update_readiness-accepted}
use aperture_ai.Controller.Reconcile.{reconcile}
use aperture_ai.Controller.Reconcile.Progress.{
  IsHeld, HoldsWith, held-key, accepts-status, Reports-HoldsWith,
}

module _ {K : Kube} (C : Client K) (set_reference : SetControllerReference K) (scheme : K.Scheme)
    (reliable : IsReliable C set_reference scheme) (key : NamespacedName) where
  -- The Service that the operator builds for the workload.
  abbrev pub built_service : GpuWorkload K → Service K
  built_service w =
      build_inference_service w (svc_name_of w.metadata.name) (deploy_name_of w.metadata.name)

  built_service-key :
      (w : GpuWorkload K) (m : ObjectMeta K)
      → set_reference w (built_service w).metadata scheme ≡ ok m
      → object_key m ≡ svc_key w
  unfolding build_inference_service
  built_service-key w m referenced =
      reliable.references.key-reference w (built_service w).metadata m scheme referenced

  reconcile-unserved :
      (w : GpuWorkload K) (d : Deployment K) (m : ObjectMeta K) (s s' : C.State)
      → IsHeld C set_reference scheme reliable key w s
      → deployment_at C s (deploy_key w) ≡ ok d
      → IsAbsent K (service_at C s (svc_key w))
      → set_reference w (built_service w).metadata scheme ≡ ok m
      → C.create_service (record (built_service w) { metadata = m }) s ≡ (none, s')
      → reconcile C set_reference scheme key s ≡ (
        returned (update_readiness C w d (deploy_name_of w.metadata.name) s').0,
        (update_readiness C w d (deploy_name_of w.metadata.name) s').1,
      )
  unfolding reconcile
  reconcile-unserved w d m s s' held deployed (x, missing, not_found) referenced created =
      rw held.is_held (
        rw held.held_live (
          rw held.held_guarded (
            rw (reliable.consistent.get_workload-state key s) (
              rw deployed (
                rw reliable.not_found.not_found-nil (
                  rw (reliable.consistent.get_deployment-state (deploy_key w) s) (
                    rw missing (
                      rw not_found (
                        rw (reliable.consistent.get_service-state (svc_key w) s)
                          (rw referenced (rw created refl)))))))))))

  -- The Deployment is found as it was, the Service is there, and the stored phase is the one that
  -- the Deployment shows.
  abbrev pub Serves : GpuWorkload K → Deployment K → C.State → Type 0
  Serves w d s =
      (deployment_at C s (deploy_key w) ≡ ok d)
      × IsPresent K (service_at C s (svc_key w))
      × ((phase : GpuWorkloadPhase) × Observed d phase
          × HoldsWith C set_reference scheme reliable key w s phase)

  pub reconcile-Serves :
      (w : GpuWorkload K) (d : Deployment K) (s : C.State)
      → IsHeld C set_reference scheme reliable key w s
      → deployment_at C s (deploy_key w) ≡ ok d
      → IsAbsent K (service_at C s (svc_key w))
      → let (o, s') = reconcile C set_reference scheme key s in
        (o ≡ returned (exit empty_result none)) × Serves w d s'
  reconcile-Serves w d s held deployed absent =
      let (m, referenced) = reliable.available.accepts-reference w (built_service w).metadata in
      let at_key : object_key m ≡ svc_key w = built_service-key w m referenced in
      let owned : Service K = record (built_service w) { metadata = m } in
      let s₁ = (C.create_service owned s).1 in
      let accepted = reliable.available.accepts-create_service owned s (rw at_key absent) in
      let (workloads, deployments) = reliable.consistent.create_service-frame owned s in
      let here : workload_at C s₁ (workload_key w) ≡ ok w =
        rw (held-key C set_reference scheme reliable key w s held) (workloads key ∙ held.is_held) in
      let written =
        update_readiness-accepted C reliable.consistent w d (deploy_name_of w.metadata.name) s₁ here
          (accepts-status C set_reference scheme reliable key s₁) in
      let (phase, reports, observed) =
        update_readiness-Reports C reliable.consistent w d (deploy_name_of w.metadata.name) s₁ here
          written in
      rw (reconcile-unserved w d m s s₁ held deployed absent referenced (λ i. (accepted i, s₁))) (
        (λ i. returned (written i)),
        (
          (reports.same_deployments (deploy_key w) ∙ (deployments (deploy_key w) ∙ deployed)),
          rw (reports.same_services (svc_key w))
              (rw at_key at (reliable.consistent.create_service-stored owned s accepted)),
          (
            phase,
            observed,
            Reports-HoldsWith C set_reference scheme reliable key w s s₁ _ phase held reports,
          ),
        ),
      )

  pub reconcile-served :
      (w : GpuWorkload K) (d : Deployment K) (v : Service K) (s : C.State)
      → IsHeld C set_reference scheme reliable key w s
      → deployment_at C s (deploy_key w) ≡ ok d
      → service_at C s (svc_key w) ≡ ok v
      → reconcile C set_reference scheme key s ≡ (
        returned (update_readiness C w d (deploy_name_of w.metadata.name) s).0,
        (update_readiness C w d (deploy_name_of w.metadata.name) s).1,
      )
  unfolding reconcile
  reconcile-served w d v s held deployed served = rw held.is_held (
      rw held.held_live (
        rw held.held_guarded (
          rw (reliable.consistent.get_workload-state key s) (
            rw deployed (
              rw reliable.not_found.not_found-nil (
                rw (reliable.consistent.get_deployment-state (deploy_key w) s) (
                  rw served (
                    rw reliable.not_found.not_found-nil
                      (rw (reliable.consistent.get_service-state (svc_key w) s))))))))))

  pub reconcile_keeps :
      (w : GpuWorkload K) (d : Deployment K) (s : C.State)
      → IsHeld C set_reference scheme reliable key w s
      → deployment_at C s (deploy_key w) ≡ ok d
      → IsPresent K (service_at C s (svc_key w))
      → let (o, s') = reconcile C set_reference scheme key s in
        (o ≡ returned (exit empty_result none)) × Serves w d s'
  reconcile_keeps w d s held deployed (v, served) =
      let here : workload_at C s (workload_key w) ≡ ok w =
        rw (held-key C set_reference scheme reliable key w s held) held.is_held in
      let written =
        update_readiness-accepted C reliable.consistent w d (deploy_name_of w.metadata.name) s here
          (accepts-status C set_reference scheme reliable key s) in
      let (phase, reports, observed) =
        update_readiness-Reports C reliable.consistent w d (deploy_name_of w.metadata.name) s here
          written in
      rw (reconcile-served w d v s held deployed served) (
        (λ i. returned (written i)),
        (
          (reports.same_deployments (deploy_key w) ∙ deployed),
          rw (reports.same_services (svc_key w)) (v, served),
          (
            phase,
            observed,
            Reports-HoldsWith C set_reference scheme reliable key w s s _ phase held reports,
          ),
        ),
      )
