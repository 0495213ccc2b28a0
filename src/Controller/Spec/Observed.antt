-- ===== src/Controller/Spec/Observed.antt =====
-- Every Deployment shows exactly one phase.
use aperture_ai.Prelude.{◌≡◌, refl, Bool-cases, Option-cases, ◌∙◌, sym, arith, inl, inr, pos, ltb_ℤ}
use aperture_ai.Kube.{Kube}
use aperture_ai.Kube.Objects.{Deployment}
use aperture_ai.V1alpha1.{GpuWorkloadPhase, phase_running, phase_failed, phase_pending}
use aperture_ai.Controller.Status.{is_ready, first_failure}
use aperture_ai.Controller.Status.Laws.{
  is_ready-IsReady, not-IsReady, first_failure-none, first_failure-some, Observed, running, failed,
  pending,
}

module _ {K : Kube} (d : Deployment K) where
  pub Observed-unique : (p q : GpuWorkloadPhase) → Observed d p → Observed d q → p ≡ q
  Observed-unique p q (running ready e) (running _ f) = e ∙ sym f
  Observed-unique p q (running ready e) (failed unready _ _ f) = absurd (unready ready)
  Observed-unique p q (running ready e) (pending unready _ f) = absurd (unready ready)
  Observed-unique p q (failed unready _ _ e) (running ready f) = absurd (unready ready)
  Observed-unique p q (failed _ _ _ e) (failed _ _ _ f) = e ∙ sym f
  Observed-unique p q (failed _ missing (c, m, h) e) (pending _ (inl there) f) =
      absurd (omega arith)
  Observed-unique p q (failed _ missing (c, m, h) e) (pending _ (inr sound) f) =
      absurd (sound c m h)
  Observed-unique p q (pending unready _ e) (running ready f) = absurd (unready ready)
  Observed-unique p q (pending _ (inl there) e) (failed _ missing (c, m, h) f) =
      absurd (omega arith)
  Observed-unique p q (pending _ (inr sound) e) (failed _ missing (c, m, h) f) =
      absurd (sound c m h)
  Observed-unique p q (pending _ _ e) (pending _ _ f) = e ∙ sym f

  pub Observed-total : (phase : GpuWorkloadPhase) × Observed d phase
  Observed-total = elim (Bool-cases (is_ready d)) [
    | inl ready ↦ (phase_running, running (is_ready-IsReady d ready) refl)
    | inr unready ↦ elim (Bool-cases (ltb_ℤ (pos 0) d.status.unavailable_replicas)) [
      | inl missing ↦ elim (Option-cases (first_failure d.status.conditions)) [
        | inl e ↦ (
          phase_pending,
          pending (not-IsReady d unready) (inr (first_failure-none d.status.conditions e)) refl,
        )
        | inr (c, e) ↦
            let (m, f) = first_failure-some d.status.conditions c e in
            (phase_failed, failed (not-IsReady d unready) (ground arith) (c, m, f) refl)
      ]
      | inr there ↦ (phase_pending, pending (not-IsReady d unready) (inl (ground arith)) refl)
    ]
  ]
