-- ===== src/Controller/Reconcile/Attended.antt =====
-- What the calls behind the lookup of a Deployment keep, holds until the run ends.
use aperture_ai.Prelude.{◌≡◌, some, none, String, Option, not, ltb_ℤ, pos, ◌==◌}
use aperture_ai.Kube.{Kube}
use aperture_ai.Kube.Objects.{NamespacedName, Deployment, DeploymentCondition, Service, ObjectMeta}
use aperture_ai.V1alpha1.{
  GpuWorkload, GpuWorkloadPhase, phase_pending, phase_running, phase_failed, workload_key,
}
use aperture_ai.Client.{Client, Result, ok, err, SetControllerReference}
use aperture_ai.Controller.Service.{build_inference_service}
use aperture_ai.Controller.Cleanup.{svc_key}
use aperture_ai.Controller.Flow.{◌>>=◌}
use aperture_ai.Controller.Keeps.{Keeps, Keeps-bind, if_keeps}
use aperture_ai.Controller.Status.{
  update_status, with_status, unless_phase, when_unavailable, is_ready,
}
use aperture_ai.Controller.Reconcile.{
  create_service_with_owner, create_missing_service, found_service, reconcile_service,
  report_readiness,
}
use aperture_ai.Client.Spares.{Attends}

module _ {K : Kube} (C : Client K) (key : NamespacedName) (I : C.State → Type 0)
    (attended : Attends C key I) where
  module _ (w : GpuWorkload K) (named : workload_key w ≡ key) where
    pub update_status_kept :
        (phase : GpuWorkloadPhase) (pod_name message : String) (s : C.State)
        → I s
        → I (update_status C w phase pod_name message s).1
    unfolding update_status with_status
    update_status_kept phase pod_name message s h =
        attended.status_kept (with_status w phase pod_name message) s named h

    unless_phase_kept :
        (d : Deployment K) (name : String) (phase : GpuWorkloadPhase) (message : String)
        (s : C.State)
        → I s
        → I (unless_phase C w d name phase message s).1
    unfolding unless_phase
    unless_phase_kept d name phase message s h =
        if_keeps I (not (w.status.phase == phase)) _ _ (update_status_kept phase name message s h) h

    when_unavailable_kept :
        (d : Deployment K) (name : String) (c : Option DeploymentCondition) (s : C.State)
        → I s
        → I (when_unavailable C w d name c s).1
    unfolding when_unavailable
    when_unavailable_kept d name (some c) s h = update_status_kept phase_failed _ _ s h
    when_unavailable_kept d name none s h = unless_phase_kept d name phase_pending _ s h

    report_readiness-Keeps :
        (d : Deployment K) (name : String) → Keeps I (report_readiness C w d name)
    unfolding report_readiness
    report_readiness-Keeps d name s h =
        if_keeps I (is_ready d) _ _ (unless_phase_kept d name phase_running _ s h) (
          if_keeps I (ltb_ℤ (pos 0) d.status.unavailable_replicas) _ _
            (when_unavailable_kept d name _ s h) (unless_phase_kept d name phase_pending _ s h))

    create_service_with_owner-Keeps :
        (v : Service K) (r : Result K.Error (ObjectMeta K))
        → Keeps I (create_service_with_owner C v r)
    unfolding create_service_with_owner
    create_service_with_owner-Keeps v (err e) s h = h
    create_service_with_owner-Keeps v (ok m) s h =
        let owned : Service K = record v { metadata = m } in attended.create_service_kept owned s h

    module _ (set_reference : SetControllerReference K) (scheme : K.Scheme) where
      found_service-Keeps :
          (svc_name name : String) (r : Result K.Error (Service K))
          → Keeps I (found_service C set_reference scheme w svc_name name r)
      unfolding found_service create_missing_service
      found_service-Keeps svc_name name (err e) s h =
          if_keeps I (not (K.is_not_found (some e))) _ _ h
            (create_service_with_owner-Keeps (build_inference_service w svc_name name) _ s h)
      found_service-Keeps svc_name name (ok v) s h =
          if_keeps I (K.is_not_found none) _ _
            (create_service_with_owner-Keeps (build_inference_service w svc_name name) _ s h) h

      reconcile_service-Keeps :
          (name : String) → Keeps I (reconcile_service C set_reference scheme w name)
      unfolding reconcile_service
      reconcile_service-Keeps name s h =
          found_service-Keeps _ name _ _ (attended.get_service_kept (svc_key w) s h)

      -- Sections 5 and 6 of Reconcile.
      pub attend-Keeps :
          (d : Deployment K) (name : String)
          → Keeps I
              (reconcile_service C set_reference scheme w name >>= λ _. report_readiness C w d name)
      attend-Keeps d name =
          Keeps-bind I (λ _. Unit {0}) (reconcile_service C set_reference scheme w name)
            (λ _. report_readiness C w d name) (reconcile_service-Keeps name) (λ _ _ _. tt)
            (λ _ _. report_readiness-Keeps d name)
