-- ===== src/Controller/Reconcile/Deletion.antt =====
-- The finalizer's promise: a workload that is being deleted is let go only when its Deployment and its
-- Service are gone. The statements hold of any client.
use aperture_ai.Prelude.{◌≡◌, refl, ◌⊎◌, [], ◌∷◌, arith, Bool, true, some, none, Option}
use aperture_ai.Kube.{Kube}
use aperture_ai.Kube.Objects.{NamespacedName}
use aperture_ai.V1alpha1.{GpuWorkload}
use aperture_ai.Client.{Client, ok, err, SetControllerReference}
use aperture_ai.Client.Trace.{
  Event, Trace, traced, got_workload, got_deployment, got_service, updated_workload,
  deleted_deployment, deleted_service,
}
use aperture_ai.Controller.{finalizer_name}
use aperture_ai.Controller.Cleanup.{deploy_key, svc_key}
use aperture_ai.Controller.Flow.{exit, empty_result, returned}
use aperture_ai.Controller.Reconcile.{with_finalizers, handle_deletion, clean_up, reconcile}
use aperture_ai.Controller.Reconcile.Permitted.{IsDeleting, HasFinalizer}

-- Answers which show that the object is gone: a deletion that was accepted, or NotFound.
abbrev pub is_gone : (K : Kube) → Option K.Error → Bool
is_gone K none = true
is_gone K (some e) = K.is_not_found (some e)

abbrev pub last_event : {K : Kube} → Trace K → Option (Event K)
last_event [] = none
last_event (e ∷ t) = some e

module _ {K : Kube} (w : GpuWorkload K) where
  -- The Deployment of this workload is gone: the lookup of its key said NotFound, or what the lookup of
  -- its key had just found was deleted.
  abbrev pub DeploymentGone : Trace K → Type 0
  DeploymentGone [] = ⊥
  DeploymentGone (got_deployment k (err e) ∷ t) =
      ((k ≡ deploy_key w) × (K.is_not_found (some e) ≡ true)) ⊎ DeploymentGone t
  DeploymentGone (deleted_deployment d e ∷ t) =
      ((last_event t ≡ some (got_deployment (deploy_key w) (ok d))) × (is_gone K e ≡ true))
      ⊎ DeploymentGone t
  DeploymentGone (_ ∷ t) = DeploymentGone t

  abbrev pub ServiceGone : Trace K → Type 0
  ServiceGone [] = ⊥
  ServiceGone (got_service k (err e) ∷ t) =
      ((k ≡ svc_key w) × (K.is_not_found (some e) ≡ true)) ⊎ ServiceGone t
  ServiceGone (deleted_service v e ∷ t) =
      ((last_event t ≡ some (got_service (svc_key w) (ok v))) × (is_gone K e ≡ true))
      ⊎ ServiceGone t
  ServiceGone (_ ∷ t) = ServiceGone t

  -- Each update of the workload comes after the answers which show that both objects are gone.
  abbrev pub CleanFirst : Trace K → Type 0
  CleanFirst [] = Unit
  CleanFirst (updated_workload u e ∷ t) = DeploymentGone t × ServiceGone t × CleanFirst t
  CleanFirst (_ ∷ t) = CleanFirst t

module _ {K : Kube} (C : Client K) (w : GpuWorkload K) (st : C.State × Trace K) where
  clean_up_lem :
      CleanFirst w st.1
      → CleanFirst w (clean_up (traced C) w st).1.1
        × (returned (clean_up (traced C) w st).0 ≡ returned (exit {K = K} empty_result none)
            → last_event (clean_up (traced C) w st).1.1
              ≡ some (
                  updated_workload
                    (with_finalizers w (K.remove_finalizer w.metadata.finalizers finalizer_name))
                    none))
  unfolding clean_up
  clean_up_lem h = ground arith

module _ {K : Kube} (C : Client K) (set_reference : SetControllerReference K) (scheme : K.Scheme)
    (key : NamespacedName) (w : GpuWorkload K) (s : C.State)
    (found : (C.get_workload key s).0 ≡ ok w) (deleting : IsDeleting w) where
  abbrev start : C.State × Trace K
  start = ((C.get_workload key s).1, got_workload key (ok w) ∷ [])

  reconcile-clean_up :
      HasFinalizer w true
      → reconcile (traced C) set_reference scheme key (s, [])
        ≡ (returned (clean_up (traced C) w start).0, (clean_up (traced C) w start).1)
  unfolding reconcile handle_deletion
  reconcile-clean_up guarded = rw found (rw deleting (rw guarded refl))

  -- In a run for a workload that is being deleted and has the finalizer, any update of it comes behind
  -- answers which show that its own Deployment and its own Service are gone: the lookup of the key said
  -- NotFound, or the object that this lookup found was deleted or is NotFound. And a run that reports
  -- success has taken the finalizer off: its last call is the update without it, which was accepted.
  pub reconcile_deletion :
      HasFinalizer w true
      → let (o, st) = reconcile (traced C) set_reference scheme key (s, []) in
        CleanFirst w st.1
        × (o ≡ returned (exit empty_result none)
            → last_event st.1
              ≡ some (
                  updated_workload
                    (with_finalizers w (K.remove_finalizer w.metadata.finalizers finalizer_name))
                    none))
  reconcile_deletion guarded = rw (reconcile-clean_up guarded) (clean_up_lem C w start tt)
