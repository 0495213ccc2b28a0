-- ===== src/Controller/Status/Laws.antt =====
-- The phase that the operator reports, against a description of what a Deployment shows.
use mathlib.Core.List.{Memᴰ}
use mathlib.Core.Option.{some-injective, none-ne-some}
use aperture_ai.Prelude.{
  ◌≡◌, ◌≢◌, refl, sym, List, [], ◌∷◌, ◌⊎◌, inl, inr, arith, Bool, true, false, some, none, Option,
  String, ◌≤ℤ◌, ℤ, pos, ltb_ℤ, if◌then◌else◌, Bool-cases, Option-cases, eq_iff,
}
use aperture_ai.Kube.{Kube}
use aperture_ai.Kube.Objects.{Deployment, DeploymentCondition}
use aperture_ai.V1alpha1.{GpuWorkload, GpuWorkloadPhase, phase_pending, phase_running, phase_failed}
use aperture_ai.Client.{Client}
use aperture_ai.Client.Trace.{Trace, traced, updated_status}
use aperture_ai.Controller.Flow.{exit, empty_result}
use aperture_ai.Controller.Status.{
  update_readiness, desired_replicas, is_ready, first_failure, is_replica_failure, unless_phase,
  when_unavailable, with_status,
}

-- The number of replicas that the Deployment is to have: what its spec says, or one.
abbrev pub Desires : {K : Kube} → Deployment K → ℤ → Type 0
Desires d n = (d.spec.replicas ≡ some n) ⊎ ((d.spec.replicas ≡ none) × (n ≡ pos 1))

-- All replicas that are wanted are ready, and at least one is wanted.
abbrev pub IsReady : {K : Kube} → Deployment K → Type 0
IsReady d = (n : ℤ) × Desires d n × (pos 1 ≤ℤ n) × (n ≤ℤ d.status.ready_replicas)

abbrev pub HasFailed : DeploymentCondition → Type 0
HasFailed c = (c.condition_type ≡ "ReplicaFailure") × (c.status ≡ "True")

if_both : {A : Type 0} {z : A} (b : Bool) {x y : A} → x ≡ z → y ≡ z → (if b then x else y) ≡ z
if_both true p q = p
if_both false p q = q

-- What a Deployment shows of its workload: Running if it is ready; Failed if it is not, replicas are
-- unavailable and one of its conditions says that replicas cannot be made; else Pending.
pub data Observed {K : Kube} (d : Deployment K) (phase : GpuWorkloadPhase) : Type 0 where
  running : IsReady d → phase ≡ phase_running → Observed d phase
  failed :
      ¬ IsReady d
      → pos 1 ≤ℤ d.status.unavailable_replicas
      → (c : DeploymentCondition) × Memᴰ c d.status.conditions × HasFailed c
      → phase ≡ phase_failed
      → Observed d phase
  pending :
      ¬ IsReady d
      → (d.status.unavailable_replicas ≤ℤ pos 0)
        ⊎ ((c : DeploymentCondition) → Memᴰ c d.status.conditions → ¬ HasFailed c)
      → phase ≡ phase_pending
      → Observed d phase

is_failure : (c : DeploymentCondition) → is_replica_failure c ≡ true → HasFailed c
unfolding is_replica_failure
is_failure c h = ground (arith, eq_iff c.condition_type "ReplicaFailure", eq_iff c.status "True")

not_failure : (c : DeploymentCondition) → is_replica_failure c ≡ false → ¬ HasFailed c
unfolding is_replica_failure
not_failure c h f = ground (arith, eq_iff c.condition_type "ReplicaFailure", eq_iff c.status "True")

pub first_failure-some :
    (cs : List DeploymentCondition) (c : DeploymentCondition)
    → first_failure cs ≡ some c
    → Memᴰ c cs × HasFailed c
unfolding first_failure
first_failure-some [] c h = cc
first_failure-some (x ∷ cs) c h = elim (Bool-cases (is_replica_failure x)) [
  | inl yes_it ↦
      let e : x ≡ c = some-injective x c (rw yes_it at h) in
      (Memᴰ.head (sym e), rw e at (is_failure x yes_it))
  | inr not_it ↦ let (m, f) = first_failure-some cs c (rw not_it at h) in (Memᴰ.tail m, f)
]

pub first_failure-none :
    (cs : List DeploymentCondition)
    → first_failure cs ≡ none
    → (c : DeploymentCondition) → Memᴰ c cs
    → ¬ HasFailed c
unfolding first_failure
first_failure-none [] h c (m) = elim m [ ]
first_failure-none (x ∷ cs) h c m = elim (Bool-cases (is_replica_failure x)) [
  | inl yes_it ↦ absurd (none-ne-some x (sym (rw yes_it at h)))
  | inr not_it ↦ member m (not_failure x not_it) (first_failure-none cs (rw not_it at h) c)
]
  where
    member : Memᴰ c (x ∷ cs) → ¬ HasFailed x → (Memᴰ c cs → ¬ HasFailed c) → ¬ HasFailed c
    member (Memᴰ.head e) nx rest = rw e nx
    member (Memᴰ.tail m) nx rest = rest m

module _ {K : Kube} (d : Deployment K) where
  pub is_ready-IsReady : is_ready d ≡ true → IsReady d
  unfolding desired_replicas
  is_ready-IsReady h = elim (Option-cases d.spec.replicas) [
    | inl e ↦ (pos 1, inr (e, refl), ground arith, ground arith)
    | inr (n, e) ↦ (n, inl e, ground arith, ground arith)
  ]

  IsReady-is_ready : IsReady d → is_ready d ≡ true
  unfolding desired_replicas
  IsReady-is_ready (n, inl e, low, high) = ground arith
  IsReady-is_ready (n, inr (e, one), low, high) = ground arith

  pub not-IsReady : is_ready d ≡ false → ¬ IsReady d
  unfolding desired_replicas
  not-IsReady h (n, inl e, low, high) = ground arith
  not-IsReady h (n, inr (e, one), low, high) = ground arith

-- No condition fails, and so none is found.
first_failure-eq_none :
    (cs : List DeploymentCondition)
    → ((c : DeploymentCondition) → Memᴰ c cs → ¬ HasFailed c)
    → first_failure cs ≡ none
unfolding first_failure
first_failure-eq_none [] h = refl
first_failure-eq_none (x ∷ cs) h = elim (Bool-cases (is_replica_failure x)) [
  | inl bad ↦ absurd (h x (Memᴰ.head refl) (is_failure x bad))
  | inr good ↦ rw good (first_failure-eq_none cs (λ c m. h c (Memᴰ.tail m)))
]

module _ {K : Kube} (C : Client K) (w : GpuWorkload K) (d : Deployment K) (name : String)
    (s : C.State) where
  unless_phase-idle :
      (phase : GpuWorkloadPhase) (message : String)
      → w.status.phase ≡ phase
      → unless_phase C w d name phase message s ≡ (exit empty_result none, s)
  unfolding unless_phase
  unless_phase-idle phase message e = ground (arith, eq_iff w.status.phase phase)

  is_unready : ¬ IsReady d → is_ready d ≡ false
  is_unready n = elim (Bool-cases (is_ready d)) [
    | inl h ↦ absurd (n (is_ready-IsReady d h))
    | inr h ↦ h
  ]

  -- A phase that the Deployment shows already is not written again, unless it is Failed.
  pub update_readiness-idle :
      Observed d w.status.phase
      → w.status.phase ≢ phase_failed
      → update_readiness C w d name s ≡ (exit empty_result none, s)
  unfolding update_readiness
  update_readiness-idle (running ready e) ne =
      rw (IsReady-is_ready d ready) (unless_phase-idle phase_running _ e)
  update_readiness-idle (failed unready _ _ e) ne = absurd (ne e)
  update_readiness-idle (pending unready (inl none_missing) e) ne =
      let all_there : ltb_ℤ (pos 0) d.status.unavailable_replicas ≡ false = ground arith in
      rw (is_unready unready) (rw all_there (unless_phase-idle phase_pending _ e))
  update_readiness-idle (pending unready (inr sound) e) ne = rw (is_unready unready) (
      if_both (ltb_ℤ (pos 0) d.status.unavailable_replicas)
        (rw (first_failure-eq_none d.status.conditions sound) (unless_phase-idle phase_pending _ e))
        (unless_phase-idle phase_pending _ e))

-- The phase that a trace leaves: the last that it wrote, or the one before it.
abbrev pub reported : {K : Kube} → Trace K → GpuWorkloadPhase → GpuWorkloadPhase
reported [] phase = phase
reported (updated_status u e ∷ t) phase = u.status.phase
reported (_ ∷ t) phase = reported t phase

module _ {K : Kube} (C : Client K) (w : GpuWorkload K) (d : Deployment K) (name : String)
    (s : C.State) (t : Trace K) (unwritten : reported t w.status.phase ≡ w.status.phase) where
  unless_phase-reported :
      (phase : GpuWorkloadPhase) (message : String)
      → reported (unless_phase (traced C) w d name phase message (s, t)).1.1 w.status.phase ≡ phase
  unfolding unless_phase with_status
  unless_phase-reported phase message = ground (arith, eq_iff w.status.phase phase, unwritten)

  when_unavailable-reported :
      (c : Option DeploymentCondition)
      → reported (when_unavailable (traced C) w d name c (s, t)).1.1 w.status.phase
        ≡ (elim c [ none ↦ phase_pending | some _ ↦ phase_failed ])
  unfolding when_unavailable with_status
  when_unavailable-reported none = unless_phase-reported phase_pending _
  when_unavailable-reported (some c) = refl

  unready-Observed :
      ¬ IsReady d
      → Observed d (
          reported
            (if ltb_ℤ (pos 0) d.status.unavailable_replicas
              then when_unavailable (traced C) w d name (first_failure d.status.conditions) (s, t)
              else unless_phase
                  (traced C)
                  w
                  d
                  name
                  phase_pending
                  "Waiting for inference pods to schedule"
                  (s, t)).1.1
            w.status.phase)
  unready-Observed unready = elim (Bool-cases (ltb_ℤ (pos 0) d.status.unavailable_replicas)) [
    | inl some_missing ↦ rw some_missing (elim (Option-cases (first_failure d.status.conditions)) [
      | inl e ↦
          pending unready (inr (first_failure-none d.status.conditions e))
            (rw when_unavailable-reported (rw e))
      | inr (c, e) ↦
          let (m, f) = first_failure-some d.status.conditions c e in
          failed unready (ground arith) (c, m, f) (rw when_unavailable-reported (rw e))
    ])
    | inr all_there ↦
        rw all_there (pending unready (inl (ground arith)) (unless_phase-reported phase_pending _))
  ]

  -- Whatever the phase was before, the phase that is left is the one that the Deployment shows: it
  -- is written if it differs, and the old one is right if nothing is written.
  pub update_readiness-Observed :
      Observed d (reported (update_readiness (traced C) w d name (s, t)).1.1 w.status.phase)
  unfolding update_readiness
  update_readiness-Observed = elim (Bool-cases (is_ready d)) [
    | inl ready ↦
        rw ready (running (is_ready-IsReady d ready) (unless_phase-reported phase_running _))
    | inr unready ↦ rw unready (unready-Observed (not-IsReady d unready))
  ]
