-- ===== src/Controller/Reconcile/Permitted.antt =====
-- What a run of `Reconcile` may ask of the API server, whatever the server answers.
use aperture_ai.Prelude.{
  ◌≡◌, refl, ◌⊎◌, inl, inr, [], ◌∷◌, All, arith, Bool, true, false, String, Option, some, none, not,
  ◌==◌, ltb_ℤ, pos, if◌then◌else◌,
}
use aperture_ai.Kube.{Kube}
use aperture_ai.Kube.Objects.{NamespacedName, ObjectMeta, Deployment, DeploymentCondition, Service}
use aperture_ai.V1alpha1.{GpuWorkload, GpuWorkloadPhase, phase_pending, phase_running, phase_failed}
use aperture_ai.Client.{Client, Result, ok, err, SetControllerReference}
use aperture_ai.Client.Trace.{
  Event, Trace, traced, got_workload, got_deployment, got_service, created_deployment,
  created_service, updated_workload, updated_status, deleted_deployment, deleted_service,
}
use aperture_ai.Controller.{finalizer_name, deploy_name_of, svc_name_of}
use aperture_ai.Controller.Flow.{next, ◌>>=◌}
use aperture_ai.Controller.Keeps.{Keeps, Keeps-bind, if_keeps}
use aperture_ai.Controller.Build.{build_inference_deployment}
use aperture_ai.Controller.Service.{build_inference_service}
use aperture_ai.Controller.Status.{
  update_status, with_status, unless_phase, when_unavailable, first_failure, is_ready,
  running_message,
}
use aperture_ai.Controller.Reconcile.{
  with_finalizers, after_create, found_deployment, handle_deletion, ensure_finalizer,
  reconcile_deployment, create_built, create_with_owner, reconcile_service, report_readiness,
  reconcile_owned, live_flow, reconcile,
}

-- A workload that nobody has asked to delete.
abbrev pub IsLive : {K : Kube} → GpuWorkload K → Type 0
IsLive {K} w = K.is_zero w.metadata.deletion_timestamp ≡ true

abbrev pub IsDeleting : {K : Kube} → GpuWorkload K → Type 0
IsDeleting {K} w = K.is_zero w.metadata.deletion_timestamp ≡ false

abbrev pub HasFinalizer : {K : Kube} → GpuWorkload K → Bool → Type 0
HasFinalizer {K} w b = K.contains_finalizer w.metadata.finalizers finalizer_name ≡ b

-- The phases that the operator reports.
abbrev pub IsReported : GpuWorkloadPhase → Type 0
IsReported phase = (phase ≡ phase_pending) ⊎ (phase ≡ phase_running) ⊎ (phase ≡ phase_failed)

module _ {K : Kube} (set_reference : SetControllerReference K) (scheme : K.Scheme) where
  -- The Deployment is the one that is built for the workload, with the owner reference set.
  abbrev pub IsBuiltDeployment : GpuWorkload K → Deployment K → Type 0
  IsBuiltDeployment w d =
      (built : Deployment K) × (m : ObjectMeta K) × (build_inference_deployment w
          (deploy_name_of w.metadata.name)
        ≡ some built)
      × (set_reference w built.metadata scheme ≡ ok m)
      × (d ≡ record built { metadata = m })

  abbrev pub IsBuiltService : GpuWorkload K → Service K → Type 0
  IsBuiltService w v =
      let built =
        build_inference_service w (svc_name_of w.metadata.name) (deploy_name_of w.metadata.name) in
      (m : ObjectMeta K) × (set_reference w built.metadata scheme ≡ ok m)
      × (v ≡ record built { metadata = m })

  -- The calls that a run may make when the workload at `key` is found to be `w`.
  abbrev pub Permitted : NamespacedName → GpuWorkload K → Event K → Type 0
  Permitted key w (got_workload k a) = (k ≡ key) × (a ≡ ok w)
  Permitted key w (got_deployment k a) =
      HasFinalizer w true
      × (k ≡ record { name = deploy_name_of w.metadata.name; namespace = w.metadata.namespace })
  Permitted key w (got_service k a) =
      HasFinalizer w true
      × (k ≡ record { name = svc_name_of w.metadata.name; namespace = w.metadata.namespace })
  Permitted key w (created_deployment d e) = IsLive w × HasFinalizer w true × IsBuiltDeployment w d
  Permitted key w (created_service v e) = IsLive w × HasFinalizer w true × IsBuiltService w v
  Permitted key w (updated_workload u e) =
      (IsLive w
        × HasFinalizer w false
        × (u ≡ with_finalizers w (K.add_finalizer w.metadata.finalizers finalizer_name)))
      ⊎ (IsDeleting w
          × HasFinalizer w true
          × (u ≡ with_finalizers w (K.remove_finalizer w.metadata.finalizers finalizer_name)))
  Permitted key w (updated_status u e) =
      IsLive w
      × HasFinalizer w true
      × (phase : GpuWorkloadPhase) × (pod_name : String) × (message : String) × (u
          ≡ with_status w phase pod_name message)
      × IsReported phase
      × ((pod_name ≡ "") ⊎ (pod_name ≡ deploy_name_of w.metadata.name))
  Permitted key w (deleted_deployment d e) = IsDeleting w × HasFinalizer w true
  Permitted key w (deleted_service v e) = IsDeleting w × HasFinalizer w true

module _ {K : Kube} (C : Client K) (set_reference : SetControllerReference K) (scheme : K.Scheme)
    (key : NamespacedName) (w : GpuWorkload K) where
  abbrev I : C.State × Trace K → Type 0
  I st = All (Permitted set_reference scheme key w) st.1

  handle_deletion-Keeps : Keeps I (handle_deletion (traced C) w)
  unfolding handle_deletion
  handle_deletion-Keeps s h = ground arith

  handle_deletion-IsLive :
      (s : C.State × Trace K) (u : Unit {0})
      → (handle_deletion (traced C) w s).0 ≡ next u
      → IsLive w
  unfolding handle_deletion
  handle_deletion-IsLive s u h = ground arith

  ensure_finalizer-Keeps : IsLive w → Keeps I (ensure_finalizer (traced C) w)
  unfolding ensure_finalizer
  ensure_finalizer-Keeps live s h = ground arith

  ensure_finalizer-guarded :
      (s : C.State × Trace K) (u : Unit {0})
      → (ensure_finalizer (traced C) w s).0 ≡ next u
      → HasFinalizer w true
  unfolding ensure_finalizer
  ensure_finalizer-guarded s u h = ground arith

  module _ (live : IsLive w) (guarded : HasFinalizer w true) where
    update_status_keeps :
        (phase : GpuWorkloadPhase) (pod_name message : String) (s : C.State × Trace K)
        → IsReported phase
        → (pod_name ≡ "") ⊎ (pod_name ≡ deploy_name_of w.metadata.name)
        → I s
        → I (update_status (traced C) w phase pod_name message s).1
    unfolding update_status
    update_status_keeps phase pod_name message s reported named h =
        ((live, guarded, phase, pod_name, message, refl, reported, named), h)

    after_create_keeps :
        (e : Option K.Error) (s : C.State × Trace K)
        → I s
        → I (after_create (traced C) w (deploy_name_of w.metadata.name) e s).1
    unfolding after_create
    after_create_keeps (some e) s h =
        update_status_keeps phase_failed "" _ s (ground arith) (inl refl) h
    after_create_keeps none s h =
        update_status_keeps phase_pending _ _ s (ground arith) (inr refl) h

    create_with_owner-Keeps :
        (d : Deployment K) (r : Result K.Error (ObjectMeta K))
        → build_inference_deployment w (deploy_name_of w.metadata.name) ≡ some d
        → set_reference w d.metadata scheme ≡ r
        → Keeps I (create_with_owner (traced C) w (deploy_name_of w.metadata.name) d r)
    unfolding create_with_owner
    create_with_owner-Keeps d (err x) e p s h = h
    create_with_owner-Keeps d (ok m) e p s h =
        after_create_keeps _ _ ((live, guarded, (d, m, e, p, refl)), h)

    create_built-Keeps :
        (d : Option (Deployment K))
        → build_inference_deployment w (deploy_name_of w.metadata.name) ≡ d
        → Keeps I
            (create_built (traced C) set_reference scheme w (deploy_name_of w.metadata.name) d)
    unfolding create_built
    create_built-Keeps none e s h = h
    create_built-Keeps (some d) e s h = create_with_owner-Keeps d _ e refl s h

    found_deployment-Keeps :
        (r : Result K.Error (Deployment K))
        → Keeps I
            (found_deployment (traced C) set_reference scheme w (deploy_name_of w.metadata.name) r)
    unfolding found_deployment
    found_deployment-Keeps (err e) s h =
        if_keeps I (not (K.is_not_found (some e))) _ _ h (create_built-Keeps _ refl s h)
    found_deployment-Keeps (ok d) s h =
        if_keeps I (K.is_not_found none) _ _ (create_built-Keeps _ refl s h) h

    reconcile_deployment-Keeps :
        Keeps I
          (reconcile_deployment (traced C) set_reference scheme w (deploy_name_of w.metadata.name))
    unfolding reconcile_deployment
    reconcile_deployment-Keeps s h = found_deployment-Keeps _ _ ((guarded, refl), h)

    reconcile_service-Keeps :
        Keeps I
          (reconcile_service (traced C) set_reference scheme w (deploy_name_of w.metadata.name))
    unfolding reconcile_service
    reconcile_service-Keeps s h = ground arith

    unless_phase_keeps :
        (d : Deployment K) (phase : GpuWorkloadPhase) (message : String) (s : C.State × Trace K)
        → IsReported phase
        → I s
        → I (unless_phase (traced C) w d (deploy_name_of w.metadata.name) phase message s).1
    unfolding unless_phase
    unless_phase_keeps d phase message s reported h =
        if_keeps I (not (w.status.phase == phase)) _ _
          (update_status_keeps phase _ message s reported (inr refl) h) h

    when_unavailable_keeps :
        (d : Deployment K) (c : Option DeploymentCondition) (s : C.State × Trace K)
        → I s
        → I (when_unavailable (traced C) w d (deploy_name_of w.metadata.name) c s).1
    unfolding when_unavailable
    when_unavailable_keeps d (some c) s h =
        update_status_keeps phase_failed _ _ s (ground arith) (inr refl) h
    when_unavailable_keeps d none s h = unless_phase_keeps d phase_pending _ s (ground arith) h

    report_readiness-Keeps :
        (d : Deployment K)
        → Keeps I (report_readiness (traced C) w d (deploy_name_of w.metadata.name))
    unfolding report_readiness
    report_readiness-Keeps d s h =
        let name = deploy_name_of w.metadata.name in
        let running = unless_phase (traced C) w d name phase_running (running_message d) s in
        let failing = when_unavailable (traced C) w d name (first_failure d.status.conditions) s in
        let waiting =
          unless_phase (traced C) w d name phase_pending "Waiting for inference pods to schedule"
            s in
        let unavailable = ltb_ℤ (pos 0) d.status.unavailable_replicas in
        if_keeps I (is_ready d) running (if unavailable then failing else waiting)
          (unless_phase_keeps d phase_running _ s (ground arith) h)
          (if_keeps I unavailable failing waiting (when_unavailable_keeps d _ s h)
            (unless_phase_keeps d phase_pending _ s (ground arith) h))

    reconcile_owned-Keeps : Keeps I (reconcile_owned (traced C) set_reference scheme w)
    unfolding reconcile_owned
    reconcile_owned-Keeps =
        let name = deploy_name_of w.metadata.name in
        Keeps-bind I (λ _. Unit {0}) (reconcile_deployment (traced C) set_reference scheme w name)
          (λ d. reconcile_service (traced C) set_reference scheme w name >>= λ _.
            report_readiness (traced C) w d name)
          reconcile_deployment-Keeps (λ _ _ _. tt)
          (λ d _.
            Keeps-bind I (λ _. Unit {0}) (reconcile_service (traced C) set_reference scheme w name)
              (λ _. report_readiness (traced C) w d name) reconcile_service-Keeps (λ _ _ _. tt)
              (λ _ _. report_readiness-Keeps d))

  live_or_deleting : Keeps I (live_flow (traced C) set_reference scheme w)
  unfolding live_flow
  live_or_deleting =
      Keeps-bind I (λ _. IsLive w) (handle_deletion (traced C) w)
        (λ _.
          ensure_finalizer (traced C) w >>= λ _. reconcile_owned (traced C) set_reference scheme w)
        handle_deletion-Keeps handle_deletion-IsLive
        (λ _ live.
          Keeps-bind I (λ _. HasFinalizer w true) (ensure_finalizer (traced C) w)
            (λ _. reconcile_owned (traced C) set_reference scheme w) (ensure_finalizer-Keeps live)
            ensure_finalizer-guarded (λ _ guarded. reconcile_owned-Keeps live guarded))

  -- Whatever the server answers, a run that finds the workload `w` makes no call but the permitted
  -- ones. It creates and reports only for a live workload that has the finalizer already; it creates
  -- nothing but what is built for `w` with the owner reference set; it deletes, and takes the
  -- finalizer off, only when `w` is being deleted; its updates change nothing but the finalizer, or
  -- the phase, the pod name and the message; and it never reports the phase Completed.
  pub reconcile-Permitted :
      (s : C.State)
      → (C.get_workload key s).0 ≡ ok w
      → All
          (Permitted set_reference scheme key w)
          (reconcile (traced C) set_reference scheme key (s, [])).1.1
  unfolding reconcile
  reconcile-Permitted s found =
      rw found (
        live_or_deleting ((C.get_workload key s).1, got_workload key (ok w) ∷ [])
          ((refl, refl), tt))
