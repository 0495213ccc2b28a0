-- ===== src/Controller/Status/Closes.antt =====
-- The two ways in which the report of a status ends.
use aperture_ai.Prelude.{
  String, ◌≡◌, refl, ◌⊎◌, inl, inr, Bool, true, false, not, ◌==◌, ltb_ℤ, pos, if◌then◌else◌, none,
  some, Option, Option-cases,
}
use aperture_ai.Kube.{Kube}
use aperture_ai.Kube.Objects.{Deployment, DeploymentCondition}
use aperture_ai.V1alpha1.{GpuWorkload, GpuWorkloadPhase, phase_pending, phase_running, phase_failed}
use aperture_ai.Client.{Client}
use aperture_ai.Controller.{requeue_delay}
use aperture_ai.Controller.Flow.{Exit, exit, empty_result, api}
use aperture_ai.Controller.Status.{
  update_status, with_status, update_readiness, unless_phase, when_unavailable, is_ready,
}

-- It was written, or there was no need to; or the server refused the write of a status `u`, and its error
-- comes back.
abbrev pub Closes : {K : Kube} (C : Client K) → C.State → Exit K × C.State → Type 0
Closes {K} C s (x, s') =
    (x ≡ exit empty_result none)
    ⊎ ((u : GpuWorkload K) × (e : K.Error) × ((C.update_workload_status u s).0 ≡ some e)
        × (x ≡ exit (record { requeue = false; requeue_after = requeue_delay }) (some (api e))))

module _ {K : Kube} (C : Client K) (w : GpuWorkload K) (d : Deployment K) (name : String) where
  update_status-Closes :
      (phase : GpuWorkloadPhase) (pod_name message : String) (s : C.State)
      → Closes C s (update_status C w phase pod_name message s)
  unfolding update_status with_status
  update_status-Closes phase pod_name message s =
      elim (Option-cases (C.update_workload_status (with_status w phase pod_name message) s).0) [
        | inl accepted ↦ inl (rw accepted refl)
        | inr (e, refused) ↦ inr (with_status w phase pod_name message, e, refused, rw refused refl)
      ]

  if-Closes :
      (b : Bool) (s : C.State) (x y : Exit K × C.State)
      → Closes C s x
      → Closes C s y
      → Closes C s (if b then x else y)
  if-Closes true s x y h k = h
  if-Closes false s x y h k = k

  unless_phase-Closes :
      (phase : GpuWorkloadPhase) (message : String) (s : C.State)
      → Closes C s (unless_phase C w d name phase message s)
  unfolding unless_phase
  unless_phase-Closes phase message s =
      if-Closes (not (w.status.phase == phase)) s _ _ (update_status-Closes phase name message s)
        (inl refl)

  when_unavailable-Closes :
      (c : Option DeploymentCondition) (s : C.State) → Closes C s (when_unavailable C w d name c s)
  unfolding when_unavailable
  when_unavailable-Closes (some c) s = update_status-Closes phase_failed name _ s
  when_unavailable-Closes none s = unless_phase-Closes phase_pending _ s

  pub update_readiness-Closes : (s : C.State) → Closes C s (update_readiness C w d name s)
  unfolding update_readiness
  update_readiness-Closes s = if-Closes (is_ready d) s _ _ (unless_phase-Closes phase_running _ s) (
      if-Closes (ltb_ℤ (pos 0) d.status.unavailable_replicas) s _ _ (when_unavailable-Closes _ s)
        (unless_phase-Closes phase_pending _ s))
