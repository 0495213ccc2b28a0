-- ===== src/Controller/Reconcile/Untouched.antt =====
-- A Deployment that exists is never changed.
use aperture_ai.Prelude.{◌≡◌, refl, ◌∙◌, true}
use aperture_ai.Kube.{Kube}
use aperture_ai.Kube.Laws.{NotFoundIsLawful}
use aperture_ai.Kube.Objects.{NamespacedName, Deployment}
use aperture_ai.V1alpha1.{GpuWorkload}
use aperture_ai.Client.{Client, ok, SetControllerReference}
use aperture_ai.Client.Laws.{IsConsistent, workload_at, deployment_at, SameDeployments}
use aperture_ai.Client.Spares.{Attends}
use aperture_ai.Controller.{deploy_name_of}
use aperture_ai.Controller.Cleanup.{deploy_key}
use aperture_ai.Controller.Reconcile.{
  fetched, handle_deletion, ensure_finalizer, reconcile_owned, reconcile_deployment,
  found_deployment, live_flow, reconcile,
}
use aperture_ai.Controller.Reconcile.Attended.{attend-Keeps}
use aperture_ai.Controller.Reconcile.Permitted.{IsLive, HasFinalizer}

module _ {K : Kube} (C : Client K) (lawful : IsConsistent C) (key : NamespacedName) where
  SameDeployments-Attends : (s : C.State) → Attends C key (SameDeployments C s)
  SameDeployments-Attends s = record {
    get_service_kept = λ k t same. rw (lawful.get_service-state k t) same;
    create_service_kept = λ v t same k. (lawful.create_service-frame v t).1 k ∙ same k;
    status_kept = λ u t at_key same k. (lawful.update_status-frame u t).0 k ∙ same k;
  }

  module _ (not_found : NotFoundIsLawful K) (set_reference : SetControllerReference K)
      (scheme : K.Scheme) where
    -- On a consistent server, a run for a live workload that has the finalizer and whose Deployment
    -- exists changes no Deployment, whatever the workload's spec has come to say.
    pub reconcile-SameDeployments :
        (w : GpuWorkload K) (d : Deployment K) (s : C.State)
        → workload_at C s key ≡ ok w
        → IsLive w
        → HasFinalizer w true
        → deployment_at C s (deploy_key w) ≡ ok d
        → SameDeployments C s (reconcile C set_reference scheme key s).1
    unfolding reconcile fetched live_flow handle_deletion ensure_finalizer reconcile_owned
        reconcile_deployment found_deployment
    reconcile-SameDeployments w d s found live guarded there =
        let rest =
          attend-Keeps C key (SameDeployments C s) (SameDeployments-Attends s) w
            (lawful.workload-key key s w found) set_reference scheme d
            (deploy_name_of w.metadata.name) s (λ k. refl) in
        rw found (
          rw (lawful.get_workload-state key s) (
            rw live (
              rw guarded (
                rw there (
                  rw (lawful.get_deployment-state (deploy_key w) s)
                    (rw not_found.not_found-nil rest))))))
