-- ===== src/Controller/Status/Stored.antt =====
-- What a consistent API server stores when the operator reports the status of a workload.
use aperture_ai.Prelude.{
  ◌≡◌, refl, [], arith, Bool-cases, inl, inr, some, none, String, Option, ltb_ℤ, pos, ◌==◌,
}
use aperture_ai.Kube.{Kube}
use aperture_ai.Kube.Objects.{Deployment, DeploymentCondition}
use aperture_ai.V1alpha1.{
  GpuWorkload, GpuWorkloadPhase, phase_pending, phase_running, phase_failed, workload_key,
}
use aperture_ai.Client.{Client, ok}
use aperture_ai.Client.Laws.{IsConsistent, IsPresent, workload_at, SameDeployments, SameServices}
use aperture_ai.Client.Trace.{traced}
use aperture_ai.Controller.Flow.{exit, empty_result}
use aperture_ai.Controller.Status.{
  update_status, with_status, update_readiness, is_ready, first_failure, unless_phase,
  when_unavailable,
}
use aperture_ai.Controller.Status.Laws.{Observed, reported, update_readiness-Observed}

module _ {K : Kube} (C : Client K) (lawful : IsConsistent C) (w : GpuWorkload K) where
  -- The workload is stored with this phase, and the Deployments and the Services are as before.
  pub record Reports (s s' : C.State) (phase : GpuWorkloadPhase) : Type 0 where
    pub stored : GpuWorkload K
    pub is_stored : workload_at C s' (workload_key w) ≡ ok stored
    pub has_metadata : stored.metadata ≡ w.metadata
    pub has_spec : stored.spec ≡ w.spec
    pub has_phase : stored.status.phase ≡ phase
    pub same_deployments : SameDeployments C s s'
    pub same_services : SameServices C s s'

  pub update_status-Reports :
      (phase : GpuWorkloadPhase) (name message : String) (s : C.State)
      → workload_at C s (workload_key w) ≡ ok w
      → (update_status C w phase name message s).0 ≡ exit empty_result none
      → Reports s (update_status C w phase name message s).1 phase
  unfolding update_status with_status
  update_status-Reports phase name message s here q = record {
    stored = with_status w phase name message;
    is_stored =
        lawful.update_status-stored (with_status w phase name message) w s here (ground arith);
    has_metadata = refl;
    has_spec = refl;
    has_phase = refl;
    same_deployments = (lawful.update_status-frame (with_status w phase name message) s).0;
    same_services = (lawful.update_status-frame (with_status w phase name message) s).1;
  }

  unchanged-Reports :
      (phase : GpuWorkloadPhase) (s : C.State)
      → workload_at C s (workload_key w) ≡ ok w
      → w.status.phase ≡ phase
      → Reports s s phase
  unchanged-Reports phase s here e = record {
    stored = w;
    is_stored = here;
    has_metadata = refl;
    has_spec = refl;
    has_phase = e;
    same_deployments = λ k. refl;
    same_services = λ k. refl;
  }

module _ {K : Kube} (C : Client K) (lawful : IsConsistent C) (w : GpuWorkload K) (d : Deployment K)
    (name : String) (s : C.State) (here : workload_at C s (workload_key w) ≡ ok w) where
  unless_phase-Reports :
      (phase : GpuWorkloadPhase) (message : String)
      → (unless_phase C w d name phase message s).0 ≡ exit empty_result none
      → Reports C lawful w s
          (unless_phase C w d name phase message s).1
          (reported (unless_phase (traced C) w d name phase message (s, [])).1.1 w.status.phase)
  unfolding unless_phase with_status
  unless_phase-Reports phase message q = elim (Bool-cases (w.status.phase == phase)) [
    | inl same ↦ rw same (unchanged-Reports C lawful w w.status.phase s here refl)
    | inr differs ↦
        rw differs (update_status-Reports C lawful w phase name message s here (rw differs at q))
  ]

  when_unavailable-Reports :
      (c : Option DeploymentCondition)
      → (when_unavailable C w d name c s).0 ≡ exit empty_result none
      → Reports C lawful w s
          (when_unavailable C w d name c s).1
          (reported (when_unavailable (traced C) w d name c (s, [])).1.1 w.status.phase)
  unfolding when_unavailable with_status
  when_unavailable-Reports none q = unless_phase-Reports phase_pending _ q
  when_unavailable-Reports (some c) q =
      update_status-Reports C lawful w phase_failed name _ s here q

  -- The phase in the store is the last one that was written.
  update_readiness-written :
      (update_readiness C w d name s).0 ≡ exit empty_result none
      → Reports C lawful w s
          (update_readiness C w d name s).1
          (reported (update_readiness (traced C) w d name (s, [])).1.1 w.status.phase)
  unfolding update_readiness
  update_readiness-written q = elim (Bool-cases (is_ready d)) [
    | inl ready ↦ rw ready (unless_phase-Reports phase_running _ (rw ready at q))
    | inr unready ↦ elim (Bool-cases (ltb_ℤ (pos 0) d.status.unavailable_replicas)) [
      | inl lacking ↦ rw unready (
          rw lacking (
            when_unavailable-Reports (first_failure d.status.conditions)
              (rw lacking at (rw unready at q))))
      | inr all_there ↦
          rw unready (
            rw all_there (unless_phase-Reports phase_pending _ (rw all_there at (rw unready at q))))
    ]
  ]

  pub update_readiness-Reports :
      (update_readiness C w d name s).0 ≡ exit empty_result none
      → (phase : GpuWorkloadPhase) × Reports C lawful w s (update_readiness C w d name s).1 phase
        × Observed d phase
  update_readiness-Reports q = (
    reported (update_readiness (traced C) w d name (s, [])).1.1 w.status.phase,
    update_readiness-written q,
    update_readiness-Observed C w d name s [] refl,
  )

  pub update_status-accepted :
      ((u : GpuWorkload K)
        → IsPresent K (workload_at C s (workload_key u))
        → (C.update_workload_status u s).0 ≡ none)
      → (phase : GpuWorkloadPhase) (message : String)
      → (update_status C w phase name message s).0 ≡ exit empty_result none
  unfolding update_status with_status
  update_status-accepted accepts phase message =
      rw (accepts (with_status w phase name message) (w, here)) refl

  pub update_readiness-accepted :
      ((u : GpuWorkload K)
        → IsPresent K (workload_at C s (workload_key u))
        → (C.update_workload_status u s).0 ≡ none)
      → (update_readiness C w d name s).0 ≡ exit empty_result none
  unfolding update_readiness unless_phase when_unavailable
  update_readiness-accepted accepts = grind (arith, update_status-accepted accepts)
