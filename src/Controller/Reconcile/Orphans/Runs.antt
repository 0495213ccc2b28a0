-- ===== src/Controller/Reconcile/Orphans/Runs.antt =====
-- One run, and what it does to the promise that nothing is orphaned, for a server of which only the
-- effect of each call on the promise is known.
use mathlib.Core.Path.{subst}
use aperture_ai.Prelude.{◌≡◌, refl, sym, ◌⊎◌, inl, inr, true, false, some, none, Option, Bool-cases}
use aperture_ai.Kube.{Kube}
use aperture_ai.Kube.Objects.{NamespacedName}
use aperture_ai.V1alpha1.{GpuWorkload, workload_key}
use aperture_ai.Client.{Client, Result, ok, err, SetControllerReference}
use aperture_ai.Client.Spares.{Spares, Clears}
use aperture_ai.Controller.{finalizer_name}
use aperture_ai.Controller.Flow.{Error, continue}
use aperture_ai.Controller.Cleanup.Kept.{
  delete_owned_resources_kept, delete_owned_resources_cleared,
}
use aperture_ai.Controller.Reconcile.{
  fetched, handle_deletion, clean_up, after_cleanup, ensure_finalizer, live_flow, reconcile,
}
use aperture_ai.Controller.Reconcile.Names.{deployment_of, service_of}
use aperture_ai.Controller.Reconcile.Permitted.{HasFinalizer}
use aperture_ai.Controller.Reconcile.Orphans.Spared.{reconcile_owned-Keeps}

-- Either the workload is guarded (`G`), or neither Deployment (`D`) nor Service (`V`) is there.
pub record Wards {K : Kube} (C : Client K) (key : NamespacedName) (G D V : C.State → Type 0)
    : Type 0 where
  pub spares : Spares C key G
  pub clears : Clears C (deployment_of key) (service_of key) D V
  pub workload_named :
      (s : C.State) (w : GpuWorkload K) → (C.get_workload key s).0 ≡ ok w → workload_key w ≡ key
  pub looked_up :
      (s : C.State)
      → G s ⊎ (D s × V s)
      → G (C.get_workload key s).1 ⊎ (D (C.get_workload key s).1 × V (C.get_workload key s).1)
  pub found_guarded :
      (s : C.State) (w : GpuWorkload K)
      → (C.get_workload key s).0 ≡ ok w
      → HasFinalizer w true
      → G (C.get_workload key s).1
  pub found_bare :
      (s : C.State) (w : GpuWorkload K)
      → (C.get_workload key s).0 ≡ ok w
      → HasFinalizer w false
      → G s ⊎ (D s × V s)
      → D (C.get_workload key s).1 × V (C.get_workload key s).1
  pub update_clear :
      (u : GpuWorkload K) (s : C.State)
      → D s × V s
      → D (C.update_workload u s).1 × V (C.update_workload u s).1

module _ {K : Kube} (C : Client K) (key : NamespacedName) (G D V : C.State → Type 0)
    (wards : Wards C key G D V) where
  abbrev Safe : C.State → Type 0
  Safe s = G s ⊎ (D s × V s)

  after_cleanup-Safe :
      (w : GpuWorkload K) (e : Option (Error K)) (s : C.State)
      → G s
      → (e ≡ none → D s × V s)
      → Safe (after_cleanup C w e s).1
  unfolding after_cleanup
  after_cleanup-Safe w (some e) s guarded cleared = inl guarded
  after_cleanup-Safe w none s guarded cleared = inr (wards.update_clear _ s (cleared refl))

  module _ (w : GpuWorkload K) (named : workload_key w ≡ key) where
    clean_up-Safe : (s : C.State) → G s → Safe (clean_up C w s).1
    unfolding clean_up
    clean_up-Safe s guarded =
        let here =
          subst (λ k. Clears C (deployment_of k) (service_of k) D V) (sym named) wards.clears in
        after_cleanup-Safe w _ _ (delete_owned_resources_kept C w key G wards.spares s guarded)
          (delete_owned_resources_cleared C w D V here s)

    module _ (set_reference : SetControllerReference K) (scheme : K.Scheme) where
      live_flow-Safe :
          (s : C.State)
          → (HasFinalizer w true → G s)
          → (HasFinalizer w false → D s × V s)
          → Safe s
          → Safe (live_flow C set_reference scheme w s).1
      unfolding live_flow handle_deletion ensure_finalizer
      live_flow-Safe s guards bares h =
          elim (Bool-cases (K.is_zero w.metadata.deletion_timestamp)) [
            | inl live ↦
                elim (Bool-cases (K.contains_finalizer w.metadata.finalizers finalizer_name)) [
                  | inl guarded ↦ rw live (
                      rw guarded (
                        inl (
                          reconcile_owned-Keeps C key G wards.spares w named set_reference scheme s
                            (guards guarded))))
                  | inr bare ↦ rw live (rw bare (inr (wards.update_clear _ s (bares bare))))
                ]
            | inr deleting ↦
                elim (Bool-cases (K.contains_finalizer w.metadata.finalizers finalizer_name)) [
                  | inl guarded ↦ rw deleting (rw guarded (clean_up-Safe s (guards guarded)))
                  | inr bare ↦ rw deleting (rw bare h)
                ]
          ]

  module _ (set_reference : SetControllerReference K) (scheme : K.Scheme) where
    fetched-Safe :
        (s : C.State) (r : Result K.Error (GpuWorkload K))
        → (C.get_workload key s).0 ≡ r
        → Safe s
        → Safe
            (continue (fetched C r) (live_flow C set_reference scheme) (C.get_workload key s).1).1
    unfolding fetched
    fetched-Safe s (ok w) e h =
        live_flow-Safe w (wards.workload_named s w e) set_reference scheme (C.get_workload key s).1
          (wards.found_guarded s w e) (λ bare. wards.found_bare s w e bare h) (wards.looked_up s h)
    fetched-Safe s (err e) q h = elim (Bool-cases (K.is_not_found (some e))) [
      | inl missing ↦ rw missing (wards.looked_up s h)
      | inr other ↦ rw other (wards.looked_up s h)
    ]

    pub reconcile-Safe : (s : C.State) → Safe s → Safe (reconcile C set_reference scheme key s).1
    unfolding reconcile
    reconcile-Safe s h = fetched-Safe s _ refl h
