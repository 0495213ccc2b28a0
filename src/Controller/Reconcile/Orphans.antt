-- ===== src/Controller/Reconcile/Orphans.antt =====
-- Runs among the changes that other actors make: nothing is orphaned.
pub mod Guarded
pub mod Spared
pub mod Runs
pub mod Interleaved
use aperture_ai.Prelude.{◌≡◌, ◌⊎◌, inl, inr, arith, false}
use aperture_ai.Kube.{Kube}
use aperture_ai.Kube.Objects.{NamespacedName}
use aperture_ai.V1alpha1.{GpuWorkload}
use aperture_ai.Client.{Client, ok, SetControllerReference}
use aperture_ai.Client.Laws.{
  RefusalsAreLawful, IsConsistent, IsAbsent, workload_at, deployment_at, service_at,
}
use aperture_ai.Controller.Reconcile.{reconcile}
use aperture_ai.Controller.Reconcile.Names.{deployment_of, service_of}
use aperture_ai.Client.Spares.{Clears}
use aperture_ai.Controller.Reconcile.Orphans.Runs.{Wards, reconcile-Safe}
use aperture_ai.Controller.Reconcile.Permitted.{HasFinalizer}
use aperture_ai.Controller.Reconcile.Orphans.Guarded.{IsGuarded, IsGuarded-Spares}

module _ {K : Kube} (C : Client K) (lawful : IsConsistent C) (refusals : RefusalsAreLawful C)
    (key : NamespacedName) where
  -- There is no Deployment and no Service under the names that belong to the key.
  abbrev pub IsClear : C.State → Type 0
  IsClear s =
      IsAbsent K (deployment_at C s (deployment_of key))
      × IsAbsent K (service_at C s (service_of key))

  -- Whoever owns the Deployment or the Service is stored, with its finalizer.
  abbrev pub NoOrphans : C.State → Type 0
  NoOrphans s = IsGuarded C lawful refusals key s ⊎ IsClear s

  IsClear-of_bare :
      (w : GpuWorkload K) (s : C.State)
      → workload_at C s key ≡ ok w
      → HasFinalizer w false
      → NoOrphans s
      → IsClear s
  IsClear-of_bare w s found bare (inl (u, stored, guarded)) = ground arith
  IsClear-of_bare w s found bare (inr clear) = clear

  pub server-Clears :
      Clears C
        (deployment_of key)
        (service_of key)
        (λ s. IsAbsent K (deployment_at C s (deployment_of key)))
        (λ s. IsAbsent K (service_at C s (service_of key)))
  server-Clears = record {
    deployment_absent =
        λ s e q missing. rw (lawful.get_deployment-state (deployment_of key) s) (e, q, missing);
    deployment_deleted = λ s s' d q gone.
        let here = lawful.deployment-key (deployment_of key) s d q in
        elim gone [
          | inl accepted ↦ rw here at (lawful.delete_deployment-stored d s' accepted)
          | inr (e, refused, missing) ↦
              rw here at (lawful.delete_deployment-missing d s' e refused missing)
        ];
    service_absent =
        λ s e q missing. rw (lawful.get_service-state (service_of key) s) (e, q, missing);
    service_deleted = λ s s' v q gone.
        let here = lawful.service-key (service_of key) s v q in
        elim gone [
          | inl accepted ↦ rw here at (lawful.delete_service-stored v s' accepted)
          | inr (e, refused, missing) ↦
              rw here at (lawful.delete_service-missing v s' e refused missing)
        ];
    get_service_clear = λ k s h. rw (lawful.get_service-state k s) h;
    delete_service_clear = λ v s h. rw ((lawful.delete_service-frame v s).1 (deployment_of key)) h;
  }

  -- What each call of the operator does to the promise.
  pub server-Wards :
      Wards C key
        (IsGuarded C lawful refusals key)
        (λ s. IsAbsent K (deployment_at C s (deployment_of key)))
        (λ s. IsAbsent K (service_at C s (service_of key)))
  server-Wards = record {
    spares = IsGuarded-Spares C lawful refusals key;
    clears = server-Clears;
    workload_named = λ s w found. lawful.workload-key key s w found;
    looked_up = λ s h. rw (lawful.get_workload-state key s) h;
    found_guarded = λ s w found guarded. rw (lawful.get_workload-state key s) (w, found, guarded);
    found_bare =
        λ s w found bare h. rw (lawful.get_workload-state key s) (IsClear-of_bare w s found bare h);
    update_clear = λ u s (d, v).
        let (deployments, services) = lawful.update_workload-frame u s in
        (rw (deployments _) d, rw (services _) v);
  }

  module _ (set_reference : SetControllerReference K) (scheme : K.Scheme) where
    -- On a consistent server whose refusals change nothing, a run leaves no orphans: if the Deployment
    -- or the Service exists after it, then the workload is stored and has the finalizer. That holds
    -- of every run, also of one that returns an error.
    run-NoOrphans :
        (s : C.State) → NoOrphans s → NoOrphans (reconcile C set_reference scheme key s).1
    run-NoOrphans = reconcile-Safe C key _ _ _ server-Wards set_reference scheme

    -- Other actors create nothing under the operator's names while nothing is there, and take
    -- neither the finalizer nor a workload that has it away.
    pub record IsFair (s s' : C.State) : Type 0 where
      pub keeps_clear : IsClear s → IsClear s'
      pub keeps_guarded : IsGuarded C lawful refusals key s → IsGuarded C lawful refusals key s'

    -- What happens to the server: runs for the workload, and changes that other actors make.
    pub data Step (s : C.State) : C.State → Type 0 where
      run : Step s (reconcile C set_reference scheme key s).1
      change : (s' : C.State) → IsFair s s' → Step s s'

    pub data Reachable (s : C.State) : C.State → Type 0 where
      start : Reachable s s
      step : (s' s'' : C.State) → Reachable s s' → Step s' s'' → Reachable s s''

    Step-NoOrphans : (s s' : C.State) → Step s s' → NoOrphans s → NoOrphans s'
    Step-NoOrphans s s' run h = run-NoOrphans s h
    Step-NoOrphans s s' (change _ fair) (inl guarded) = inl (fair.keeps_guarded guarded)
    Step-NoOrphans s s' (change _ fair) (inr clear) = inr (fair.keeps_clear clear)

    -- On a consistent server (so one that never answers from a stale cache) whose refusals change
    -- nothing: whatever runs and fair changes by other actors follow on a state in which neither the
    -- Deployment nor the Service of the key is there, one of them never stands there without the
    -- workload and its finalizer. A run counts as one step.
    pub Reachable-NoOrphans : (s s' : C.State) → IsClear s → Reachable s s' → NoOrphans s'
    Reachable-NoOrphans s s' clear start = inr clear
    Reachable-NoOrphans s s' clear (step t _ before last) =
        Step-NoOrphans t s' last (Reachable-NoOrphans s t clear before)
