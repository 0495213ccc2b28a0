-- ===== src/Controller/Reconcile/Progress/Fixed.antt =====
-- Runs that change nothing any more.
use aperture_ai.Prelude.{
  ◌≡◌, ◌≢◌, ◌⊎◌, inl, inr, arith, eq_iff, Bool-cases, none, refl, ◌∙◌, ap, ℕ, zero, suc, ◌==◌,
}
use aperture_ai.Kube.{Kube}
use aperture_ai.Kube.Objects.{NamespacedName, Deployment}
use aperture_ai.V1alpha1.{GpuWorkload, phase_failed}
use aperture_ai.Client.{Client, ok, SetControllerReference}
use aperture_ai.Client.Laws.{IsReliable, IsPresent, deployment_at, service_at}
use aperture_ai.Controller.{deploy_name_of}
use aperture_ai.Controller.Flow.{exit, empty_result, returned}
use aperture_ai.Controller.Cleanup.{deploy_key, svc_key}
use aperture_ai.Controller.Status.Laws.{Observed, update_readiness-idle}
use aperture_ai.Controller.Reconcile.{reconcile}
use aperture_ai.Controller.Reconcile.Progress.{IsHeld, HoldsWith}
use aperture_ai.Controller.Reconcile.Progress.Served.{Serves, reconcile-served}
use aperture_ai.Controller.Reconcile.Progress.Up.{IsNew, after_runs, held, reconcile_brings_up}

module _ {K : Kube} (C : Client K) (set_reference : SetControllerReference K) (scheme : K.Scheme)
    (reliable : IsReliable C set_reference scheme) (key : NamespacedName) where
  reconcile-fixed :
      (w : GpuWorkload K) (d : Deployment K) (s : C.State)
      → IsHeld C set_reference scheme reliable key w s
      → deployment_at C s (deploy_key w) ≡ ok d
      → IsPresent K (service_at C s (svc_key w))
      → Observed d w.status.phase
      → w.status.phase ≢ phase_failed
      → reconcile C set_reference scheme key s ≡ (returned (exit empty_result none), s)
  reconcile-fixed w d s is_held deployed (v, served) shown sound =
      rw (reconcile-served C set_reference scheme reliable key w d v s is_held deployed served)
        (rw (update_readiness-idle C w d (deploy_name_of w.metadata.name) s shown sound))

  -- The phase that is stored is Failed.
  abbrev pub HasFailedPhase : GpuWorkload K → C.State → Type 0
  HasFailedPhase w s = HoldsWith C set_reference scheme reliable key w s phase_failed

  Serves-fixed :
      (w : GpuWorkload K) (d : Deployment K) (s : C.State)
      → Serves C set_reference scheme reliable key w d s
      → (reconcile C set_reference scheme key s ≡ (returned (exit empty_result none), s))
        ⊎ HasFailedPhase w s
  Serves-fixed w d s (deployed, service, (phase, shown, (u, is_held, same, e))) =
      elim (Bool-cases (phase == phase_failed)) [
        | inl failed ↦
            let is_failed : phase ≡ phase_failed = ground (arith, eq_iff phase phase_failed) in
            inr (u, is_held, same, e ∙ is_failed)
        | inr differs ↦
            let sound : phase ≢ phase_failed = ground (arith, eq_iff phase phase_failed) in
            inl (
              reconcile-fixed u d s is_held (rw same deployed) (rw same service) (rw e shown)
                (rw e sound))
      ]

  stays-fixed :
      (s : C.State) (n : ℕ)
      → (reconcile C set_reference scheme key s).1 ≡ s
      → after_runs C set_reference scheme reliable key n s ≡ s
  stays-fixed s zero h = refl
  stays-fixed s (suc n) h =
      ap (after_runs C set_reference scheme reliable key n) h ∙ stays-fixed s n h

  -- A new workload on a reliable server: either no run after the third changes anything on the
  -- server, or the third run stores the phase Failed, which later runs write again.
  pub reconcile_converges :
      (w : GpuWorkload K) (s : C.State)
      → IsNew C set_reference scheme reliable key w s
      → let up = after_runs C set_reference scheme reliable key 3 s in
        ((n : ℕ) → after_runs C set_reference scheme reliable key n up ≡ up)
        ⊎ HasFailedPhase (held C set_reference scheme reliable key w) up
  reconcile_converges w s new =
      let (o₁, holds, o₂, unserved, pending, (d, deployed, stays)) =
        reconcile_brings_up C set_reference scheme reliable key w s new in
      let up = after_runs C set_reference scheme reliable key 3 s in
      elim (Serves-fixed (held C set_reference scheme reliable key w) d up (stays 0)) [
        | inl fixed ↦ inl (λ n. stays-fixed up n (λ i. (fixed i).1))
        | inr failed ↦ inr failed
      ]
