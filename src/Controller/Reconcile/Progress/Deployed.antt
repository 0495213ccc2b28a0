-- ===== src/Controller/Reconcile/Progress/Deployed.antt =====
-- The run that creates the Deployment.
use aperture_ai.Prelude.{◌≡◌, refl, ◌∙◌, some, none, Option-cases, inl, inr}
use aperture_ai.Kube.{Kube}
use aperture_ai.Kube.Objects.{NamespacedName, Deployment, ObjectMeta, object_key}
use aperture_ai.V1alpha1.{GpuWorkload, workload_key, phase_pending}
use aperture_ai.Client.{Client, ok, SetControllerReference}
use aperture_ai.Client.Laws.{
  IsReliable, IsAbsent, IsPresent, SameServices, workload_at, deployment_at,
}
use aperture_ai.Controller.{deploy_name_of}
use aperture_ai.Controller.Flow.{exit, empty_result, returned}
use aperture_ai.Controller.Build.{build_inference_deployment}
use aperture_ai.Controller.Build.Laws.{build_inference_deployment-ne-none, built_key}
use aperture_ai.Controller.Cleanup.{deploy_key}
use aperture_ai.Controller.Status.{update_status}
use aperture_ai.Controller.Status.Stored.{update_status-Reports, update_status-accepted}
use aperture_ai.Controller.Reconcile.{reconcile}
use aperture_ai.Controller.Reconcile.Progress.{
  IsHeld, HoldsWith, held-key, accepts-status, Reports-HoldsWith,
}

module _ {K : Kube} (C : Client K) (set_reference : SetControllerReference K) (scheme : K.Scheme)
    (reliable : IsReliable C set_reference scheme) (key : NamespacedName) where
  reconcile-undeployed :
      (w : GpuWorkload K) (d : Deployment K) (m : ObjectMeta K) (s s' : C.State)
      → IsHeld C set_reference scheme reliable key w s
      → IsAbsent K (deployment_at C s (deploy_key w))
      → build_inference_deployment w (deploy_name_of w.metadata.name) ≡ some d
      → set_reference w d.metadata scheme ≡ ok m
      → C.create_deployment (record d { metadata = m }) s ≡ (none, s')
      → reconcile C set_reference scheme key s ≡ (
        returned
            (update_status C w phase_pending
              (deploy_name_of w.metadata.name)
              "Inference Deployment created, waiting for pods to become ready"
              s').0,
        (update_status C w phase_pending
            (deploy_name_of w.metadata.name)
            "Inference Deployment created, waiting for pods to become ready"
            s').1,
      )
  unfolding reconcile
  reconcile-undeployed w d m s s' held (x, missing, not_found) built referenced created =
      rw held.is_held (
        rw held.held_live (
          rw held.held_guarded (
            rw (reliable.consistent.get_workload-state key s) (
              rw missing (
                rw not_found (
                  rw (reliable.consistent.get_deployment-state (deploy_key w) s)
                    (rw built (rw referenced (rw created refl)))))))))

  reconcile_deploys-built :
      (w : GpuWorkload K) (d : Deployment K) (m : ObjectMeta K) (s : C.State)
      → IsHeld C set_reference scheme reliable key w s
      → IsAbsent K (deployment_at C s (deploy_key w))
      → build_inference_deployment w (deploy_name_of w.metadata.name) ≡ some d
      → set_reference w d.metadata scheme ≡ ok m
      → object_key m ≡ deploy_key w
      → let (o, s') = reconcile C set_reference scheme key s in
        (o ≡ returned (exit empty_result none))
        × HoldsWith C set_reference scheme reliable key w s' phase_pending
        × IsPresent K (deployment_at C s' (deploy_key w))
        × SameServices C s s'
  reconcile_deploys-built w d m s held absent built referenced at_key =
      let owned : Deployment K = record d { metadata = m } in
      let s₁ = (C.create_deployment owned s).1 in
      let accepted = reliable.available.accepts-create_deployment owned s (rw at_key absent) in
      let (workloads, services) = reliable.consistent.create_deployment-frame owned s in
      let present = reliable.consistent.create_deployment-stored owned s accepted in
      let here : workload_at C s₁ (workload_key w) ≡ ok w =
        rw (held-key C set_reference scheme reliable key w s held) (workloads key ∙ held.is_held) in
      let written =
        update_status-accepted C reliable.consistent w d (deploy_name_of w.metadata.name) s₁ here
          (accepts-status C set_reference scheme reliable key s₁) phase_pending
          "Inference Deployment created, waiting for pods to become ready" in
      let reports =
        update_status-Reports C reliable.consistent w phase_pending (deploy_name_of w.metadata.name)
          "Inference Deployment created, waiting for pods to become ready" s₁ here written in
      rw (reconcile-undeployed w d m s s₁ held absent built referenced (λ i. (accepted i, s₁))) (
        (λ i. returned (written i)),
        Reports-HoldsWith C set_reference scheme reliable key w s s₁ _ phase_pending held reports,
        rw (reports.same_deployments (deploy_key w)) (rw at_key at present),
        (λ k. reports.same_services k ∙ services k),
      )

  pub reconcile_deploys :
      (w : GpuWorkload K) (s : C.State)
      → IsHeld C set_reference scheme reliable key w s
      → IsAbsent K (deployment_at C s (deploy_key w))
      → let (o, s') = reconcile C set_reference scheme key s in
        (o ≡ returned (exit empty_result none))
        × HoldsWith C set_reference scheme reliable key w s' phase_pending
        × IsPresent K (deployment_at C s' (deploy_key w))
        × SameServices C s s'
  reconcile_deploys w s held absent =
      let name = deploy_name_of w.metadata.name in
      elim (Option-cases (build_inference_deployment w name)) [
        | inl panics ↦ absurd (build_inference_deployment-ne-none reliable.quantities w name panics)
        | inr (d, built) ↦
            let (m, referenced) = reliable.available.accepts-reference w d.metadata in
            reconcile_deploys-built w d m s held absent built referenced (
              reliable.references.key-reference w d.metadata m scheme referenced
              ∙ built_key w name built)
      ]
