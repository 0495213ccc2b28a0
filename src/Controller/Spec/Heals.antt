-- ===== src/Controller/Spec/Heals.antt =====
-- From any view of a live workload three runs bring it up: they add what is missing and correct the
-- phase.
use aperture_ai.Prelude.{◌≡◌, refl, true, false, some, none, Bool, Option, ℕ, zero, suc, ap, ◌∙◌}
use aperture_ai.Kube.{Kube}
use aperture_ai.Kube.Objects.{NamespacedName}
use aperture_ai.V1alpha1.{GpuWorkloadPhase}
use aperture_ai.Client.{Client, SetControllerReference}
use aperture_ai.Client.Laws.{IsReliable, AcceptsDeletions}
use aperture_ai.Controller.Reconcile.{reconcile}
use aperture_ai.Controller.Reconcile.Progress.Up.{after_runs}
use aperture_ai.Controller.Spec.{Owner, View, Choice, next_view}
use aperture_ai.Controller.Spec.Shows.{Shows}
use aperture_ai.Controller.Spec.Refines.{reconcile_refines}

-- The workload is live and has its finalizer; the Deployment and the Service are there, and the phase
-- is the one that the Deployment shows.
abbrev pub up : GpuWorkloadPhase → View
up shown = record {
  workload = some (record { live = true; guarded = true; phase = shown });
  deployment = some shown;
  service = true;
}

-- Three steps of the specification.
abbrev three : Choice → Choice → Choice → View → View
three c₁ c₂ c₃ v = (next_view c₃ (next_view c₂ (next_view c₁ v).1).1).1

three-up :
    (c₁ c₂ c₃ : Choice) (guarded : Bool) (phase : GpuWorkloadPhase) (d : Option GpuWorkloadPhase)
    (b : Bool)
    → (shown : GpuWorkloadPhase) × (three c₁ c₂ c₃ (record {
      workload = some (record { live = true; guarded = guarded; phase = phase });
      deployment = d;
      service = b;
    })
        ≡ up shown)
three-up c₁ c₂ c₃ true phase none b = (c₁.shown, refl)
three-up c₁ c₂ c₃ true phase (some shown) b = (shown, refl)
three-up c₁ c₂ c₃ false phase none b = (c₂.shown, refl)
three-up c₁ c₂ c₃ false phase (some shown) b = (shown, refl)

module _ {K : Kube} (C : Client K) (set_reference : SetControllerReference K) (scheme : K.Scheme)
    (reliable : IsReliable C set_reference scheme) (deletions : AcceptsDeletions C)
    (key : NamespacedName) where
  abbrev run : C.State → C.State
  run s = (reconcile C set_reference scheme key s).1

  stays_up :
      (shown : GpuWorkloadPhase) (n : ℕ) (s : C.State)
      → Shows C key s (up shown)
      → Shows C key (after_runs C set_reference scheme reliable key n s) (up shown)
  stays_up shown zero s h = h
  stays_up shown (suc n) s h =
      let (c, o, shows) =
        reconcile_refines C set_reference scheme reliable key deletions (up shown) s h in
      stays_up shown n (run s) shows

  three_runs :
      (v : View) (s : C.State)
      → Shows C key s v
      → (c₁ : Choice) × (c₂ : Choice) × (c₃ : Choice) × Shows C key
          (run (run (run s)))
          (three c₁ c₂ c₃ v)
  three_runs v s h =
      let refines = reconcile_refines C set_reference scheme reliable key deletions in
      let (c₁, o₁, h₁) = refines v s h in
      let (c₂, o₂, h₂) = refines (next_view c₁ v).1 (run s) h₁ in
      let (c₃, o₃, h₃) = refines (next_view c₂ (next_view c₁ v).1).1 (run (run s)) h₂ in
      (c₁, c₂, c₃, h₃)

  -- On a reliable server that accepts deletions, with no other actor, from every state that has a view
  -- with a live workload in it: whether or not the finalizer, the Deployment and the Service are there
  -- at first, and whatever the phase is, after three runs, and after each one that follows, the
  -- workload has its finalizer, a Deployment and a Service are there, and the phase is the one that
  -- the Deployment shows. What a Deployment or a Service that was there before holds is not looked at.
  pub reconcile_heals :
      (v : View) (a : Owner) (s : C.State)
      → v.workload ≡ some a
      → a.live ≡ true
      → Shows C key s v
      → (shown : GpuWorkloadPhase) × ((n : ℕ)
          → Shows C key
              (after_runs C set_reference scheme reliable key (suc (suc (suc n))) s)
              (up shown))
  reconcile_heals v a s owned live h =
      let owner : v.workload ≡ some (record a { live = true }) =
        owned ∙ ap (λ (l : Bool). some (record a { live = l })) live in
      let from : View = record v { workload = some (record a { live = true }) } in
      let same : v ≡ from = λ i. record v { workload = owner i } in
      let (c₁, c₂, c₃, shows) = three_runs from s (rw same at h) in
      let (shown, brought) = three-up c₁ c₂ c₃ a.guarded a.phase v.deployment v.service in
      (shown, λ n. stays_up shown n (run (run (run s))) (rw brought at shows))
