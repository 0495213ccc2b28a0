-- ===== src/Controller/Reconcile/Orphans/Guarded.antt =====
-- A workload that has its finalizer keeps it while the operator works for it, or cleans up.
use aperture_ai.Prelude.{◌≡◌, ◌∙◌, inl, inr, true, Option-cases}
use aperture_ai.Kube.{Kube}
use aperture_ai.Kube.Objects.{NamespacedName}
use aperture_ai.V1alpha1.{GpuWorkload, workload_key}
use aperture_ai.Client.{Client, ok}
use aperture_ai.Client.Laws.{RefusalsAreLawful, IsConsistent, workload_at, SameWorkloads}
use aperture_ai.Controller.Reconcile.Permitted.{HasFinalizer}
use aperture_ai.Client.Spares.{Spares}

module _ {K : Kube} (C : Client K) (lawful : IsConsistent C) (refusals : RefusalsAreLawful C)
    (key : NamespacedName) where
  -- The workload at the key is stored with its finalizer.
  abbrev pub IsGuarded : C.State → Type 0
  IsGuarded s = (w : GpuWorkload K) × (workload_at C s key ≡ ok w) × HasFinalizer w true

  pub IsGuarded-frame : (s s' : C.State) → SameWorkloads C s s' → IsGuarded s → IsGuarded s'
  IsGuarded-frame s s' same (w, found, guarded) = (w, same key ∙ found, guarded)

  update_workload_status-IsGuarded :
      (u : GpuWorkload K) (s : C.State)
      → workload_key u ≡ key
      → IsGuarded s
      → IsGuarded (C.update_workload_status u s).1
  update_workload_status-IsGuarded u s at_key (old, found, guarded) =
      elim (Option-cases (C.update_workload_status u s).0) [
        | inl accepted ↦
            let stored = lawful.update_status-stored u old s (rw at_key found) accepted in
            (record old { status = u.status }, rw at_key at stored, guarded)
        | inr (e, refused) ↦
            IsGuarded-frame s (C.update_workload_status u s).1
              (refusals.update_status-refused u s e refused) (old, found, guarded)
      ]

  -- No call that the operator makes while it works for the workload, or cleans up, takes it away.
  pub IsGuarded-Spares : Spares C key IsGuarded
  IsGuarded-Spares = record {
    attends = record {
      get_service_kept = λ k s h. rw (lawful.get_service-state k s) h;
      create_service_kept = λ v s h. IsGuarded-frame s _ (lawful.create_service-frame v s).0 h;
      status_kept = λ u s at_key h. update_workload_status-IsGuarded u s at_key h;
    };
    get_deployment_kept = λ k s h. rw (lawful.get_deployment-state k s) h;
    create_deployment_kept = λ d s h. IsGuarded-frame s _ (lawful.create_deployment-frame d s).0 h;
    delete_deployment_kept = λ d s h. IsGuarded-frame s _ (lawful.delete_deployment-frame d s).0 h;
    delete_service_kept = λ v s h. IsGuarded-frame s _ (lawful.delete_service-frame v s).0 h;
  }
