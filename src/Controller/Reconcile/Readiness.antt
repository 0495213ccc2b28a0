-- ===== src/Controller/Reconcile/Readiness.antt =====
-- A run that finds the workload, its Deployment and its Service in place only reports the phase.
use aperture_ai.Prelude.{◌≡◌, refl, ap, ◌≢◌, ◌⊎◌, inl, inr, [], ◌∷◌, true, false, none, some, ◌∙◌}
use aperture_ai.Kube.{Kube}
use aperture_ai.Kube.Laws.{NotFoundIsLawful}
use aperture_ai.Kube.Objects.{NamespacedName, Deployment, Service}
use aperture_ai.V1alpha1.{GpuWorkload, GpuWorkloadPhase, phase_failed, workload_key}
use aperture_ai.Client.{Client, ok, SetControllerReference}
use aperture_ai.Client.Laws.{IsConsistent, workload_at, deployment_at, service_at}
use aperture_ai.Client.Trace.{Trace, traced, got_workload, got_deployment, got_service}
use aperture_ai.Controller.{deploy_name_of, requeue_delay}
use aperture_ai.Controller.Flow.{returned, exit, empty_result, api}
use aperture_ai.Controller.Cleanup.{deploy_key, svc_key}
use aperture_ai.Controller.Status.{update_readiness}
use aperture_ai.Controller.Status.Closes.{update_readiness-Closes}
use aperture_ai.Controller.Status.Laws.{Observed, update_readiness-idle}
use aperture_ai.Controller.Status.Stored.{Reports, update_readiness-Reports}
use aperture_ai.Controller.Reconcile.{reconcile}
use aperture_ai.Controller.Reconcile.Permitted.{IsLive, HasFinalizer}

-- What the three lookups of a run answer, one after the other.
pub record Settled {K : Kube} (C : Client K) (key : NamespacedName) (s : C.State)
    (w : GpuWorkload K) (d : Deployment K) (v : Service K) : Type 0 where
  pub has_workload : (C.get_workload key s).0 ≡ ok w
  pub is_live : IsLive w
  pub is_guarded : HasFinalizer w true
  pub has_deployment : (C.get_deployment (deploy_key w) (C.get_workload key s).1).0 ≡ ok d
  pub has_service :
      (C.get_service (svc_key w) (C.get_deployment (deploy_key w) (C.get_workload key s).1).1).0
      ≡ ok v

module _ {K : Kube} (C : Client K) (set_reference : SetControllerReference K) (scheme : K.Scheme)
    (key : NamespacedName) (lawful : NotFoundIsLawful K) (w : GpuWorkload K) (d : Deployment K)
    (v : Service K) where
  -- The state behind the three lookups.
  abbrev pub looked_up : C.State → C.State
  looked_up s =
      (C.get_service (svc_key w) (C.get_deployment (deploy_key w) (C.get_workload key s).1).1).1

  pub reconcile-Settled :
      (s : C.State)
      → Settled C key s w d v
      → reconcile C set_reference scheme key s ≡ (
        returned (update_readiness C w d (deploy_name_of w.metadata.name) (looked_up s)).0,
        (update_readiness C w d (deploy_name_of w.metadata.name) (looked_up s)).1,
      )
  unfolding reconcile
  reconcile-Settled s h = rw h.has_workload (
      rw h.is_live (
        rw h.is_guarded (
          rw h.has_deployment
            (rw lawful.not_found-nil (rw h.has_service (rw lawful.not_found-nil refl))))))

module _ {K : Kube} (C : Client K) (set_reference : SetControllerReference K) (scheme : K.Scheme)
    (key : NamespacedName) (lawful : NotFoundIsLawful K) {w : GpuWorkload K} {d : Deployment K}
    {v : Service K} (s : C.State) (settled : Settled C key s w d v) where
  lookups : Trace K
  lookups =
      got_service (svc_key w) (ok v)
      ∷ got_deployment (deploy_key w) (ok d)
      ∷ got_workload key (ok w)
      ∷ []

  Settled-traced : Settled (traced C) key (s, []) w d v
  Settled-traced = record {
    has_workload = settled.has_workload;
    is_live = settled.is_live;
    is_guarded = settled.is_guarded;
    has_deployment = settled.has_deployment;
    has_service = settled.has_service;
  }

  looked_up-traced :
      looked_up (traced C) set_reference scheme key lawful w d v (s, [])
      ≡ (looked_up C set_reference scheme key lawful w d v s, lookups)
  unfolding lookups
  looked_up-traced = λ i. (
    looked_up C set_reference scheme key lawful w d v s,
    got_service (svc_key w) (settled.has_service i)
        ∷ got_deployment (deploy_key w) (settled.has_deployment i)
        ∷ got_workload key (settled.has_workload i)
        ∷ [],
  )

  -- A settled run whose workload shows the right phase already makes its three lookups and no other
  -- call, unless that phase is Failed.
  pub reconcile_idle :
      Observed d w.status.phase
      → w.status.phase ≢ phase_failed
      → ((reconcile (traced C) set_reference scheme key (s, [])).0
          ≡ returned (exit empty_result none))
        × ((reconcile (traced C) set_reference scheme key (s, [])).1.1
            ≡ got_service (svc_key w) (ok v)
              ∷ got_deployment (deploy_key w) (ok d)
              ∷ got_workload key (ok w)
              ∷ [])
  unfolding lookups
  reconcile_idle shown ne =
      rw (reconcile-Settled (traced C) set_reference scheme key lawful w d v (s, []) Settled-traced)
        (rw looked_up-traced (
          rw
            (update_readiness-idle (traced C) w d (deploy_name_of w.metadata.name)
              (looked_up C set_reference scheme key lawful w d v s, lookups) shown ne)
            (refl, refl)))

module _ {K : Kube} (C : Client K) (consistent : IsConsistent C) (not_found : NotFoundIsLawful K)
    (set_reference : SetControllerReference K) (scheme : K.Scheme) (key : NamespacedName) where
  -- On a consistent server, a run for a live workload that has its finalizer and whose Deployment and
  -- Service exist has one of two ends. It returns no error, and the workload is stored with the
  -- metadata and the spec that it had and with the phase that its Deployment shows, while Deployments
  -- and Services are unchanged. Or the server refuses the write of the status, and that error comes
  -- back, with a delay.
  pub reconcile-Reports :
      (w : GpuWorkload K) (d : Deployment K) (v : Service K) (s : C.State)
      → workload_at C s key ≡ ok w
      → IsLive w
      → HasFinalizer w true
      → deployment_at C s (deploy_key w) ≡ ok d
      → service_at C s (svc_key w) ≡ ok v
      → let (o, s') = reconcile C set_reference scheme key s in
        ((o ≡ returned (exit empty_result none))
          × ((phase : GpuWorkloadPhase) × Reports C consistent w s s' phase × Observed d phase))
        ⊎ ((u : GpuWorkload K) × (e : K.Error) × ((C.update_workload_status u s).0 ≡ some e)
            × (o
                ≡ returned (
                    exit
                      (record { requeue = false; requeue_after = requeue_delay })
                      (some (api e)))))
  reconcile-Reports w d v s found live guarded deployed served =
      let name = deploy_name_of w.metadata.name in
      let here : workload_at C s (workload_key w) ≡ ok w =
        rw (consistent.workload-key key s w found) found in
      let run = reconcile-Settled C set_reference scheme key not_found w d v s (record {
        has_workload = found;
        is_live = live;
        is_guarded = guarded;
        has_deployment = rw (consistent.get_workload-state key s) deployed;
        has_service =
            rw (consistent.get_workload-state key s)
              (rw (consistent.get_deployment-state (deploy_key w) s) served);
      }) in
      let still : looked_up C set_reference scheme key not_found w d v s ≡ s =
        ap (λ t. (C.get_service (svc_key w) (C.get_deployment (deploy_key w) t).1).1)
          (consistent.get_workload-state key s)
        ∙ (ap (λ t. (C.get_service (svc_key w) t).1)
              (consistent.get_deployment-state (deploy_key w) s)
            ∙ consistent.get_service-state (svc_key w) s) in
      rw run (
        rw still (elim (update_readiness-Closes C w d name s) [
          | inl written ↦ inl (
            ap (λ x. returned x) written,
            update_readiness-Reports C consistent w d name s here written,
          )
          | inr (u, e, refused, q) ↦ inr (u, e, refused, ap (λ x. returned x) q)
        ]))
