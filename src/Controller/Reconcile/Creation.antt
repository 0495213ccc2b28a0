-- ===== src/Controller/Reconcile/Creation.antt =====
-- What a run does about a Deployment that cannot be created, for any client.
use aperture_ai.Prelude.{◌≡◌, refl, [], ◌∷◌, arith, some, none, Option, String, ◌<>◌}
use aperture_ai.Kube.{Kube}
use aperture_ai.Kube.Objects.{NamespacedName, Deployment}
use aperture_ai.V1alpha1.{GpuWorkload, phase_failed}
use aperture_ai.Client.{Client, SetControllerReference}
use aperture_ai.Client.Trace.{Event, Trace, traced, created_deployment, updated_status}
use aperture_ai.Controller.{deploy_name_of}
use aperture_ai.Controller.Flow.{◌>>=◌, Action}
use aperture_ai.Controller.Keeps.{Keeps, Keeps-bind}
use aperture_ai.Controller.Status.{with_status}
use aperture_ai.Controller.Reconcile.{
  fetch_workload, handle_deletion, ensure_finalizer, reconcile_deployment, reconcile_service,
  report_readiness, reconcile_owned, live_flow, reconcile_flow, reconcile,
}

-- The error of the newest call, if that failed to create a Deployment.
abbrev pub creation_error : {K : Kube} → Trace K → Option K.Error
creation_error [] = none
creation_error (created_deployment d e ∷ t) = e
creation_error (_ ∷ t) = none

-- The call that follows on a failed creation reports the phase Failed and the error's text.
abbrev pub Reports : {K : Kube} → Option K.Error → Event K → Type 0
Reports none event = Unit
Reports {K} (some e) (updated_status u r) =
    (u.status.phase ≡ phase_failed)
    × (u.status.message ≡ "Deployment creation failed: " <> K.error_text e)
Reports (some e) _ = ⊥

abbrev pub EachReported : {K : Kube} → Trace K → Type 0
EachReported [] = Unit
EachReported (event ∷ t) = Reports (creation_error t) event × EachReported t

module _ {K : Kube} (C : Client K) where
  -- Each failed creation has been reported by the next call.
  abbrev I : C.State × Trace K → Type 0
  I st = EachReported st.1 × (creation_error st.1 ≡ none)

  fetch_workload-Keeps : (key : NamespacedName) → Keeps I (fetch_workload (traced C) key)
  unfolding fetch_workload
  fetch_workload-Keeps key s h = grind arith

  handle_deletion-Keeps : (w : GpuWorkload K) → Keeps I (handle_deletion (traced C) w)
  unfolding handle_deletion
  handle_deletion-Keeps w s h = grind arith

  ensure_finalizer-Keeps : (w : GpuWorkload K) → Keeps I (ensure_finalizer (traced C) w)
  unfolding ensure_finalizer
  ensure_finalizer-Keeps w s h = grind arith

module _ {K : Kube} (C : Client K) (set_reference : SetControllerReference K) (scheme : K.Scheme)
    (w : GpuWorkload K) (name : String) where
  reconcile_deployment-Keeps :
      Keeps (I C) (reconcile_deployment (traced C) set_reference scheme w name)
  unfolding reconcile_deployment with_status
  reconcile_deployment-Keeps s h = grind arith

  reconcile_service-Keeps : Keeps (I C) (reconcile_service (traced C) set_reference scheme w name)
  unfolding reconcile_service
  reconcile_service-Keeps s h = grind arith

  report_readiness-Keeps : (d : Deployment K) → Keeps (I C) (report_readiness (traced C) w d name)
  unfolding report_readiness
  report_readiness-Keeps d s h = grind arith

module _ {K : Kube} (C : Client K) (set_reference : SetControllerReference K)
    (scheme : K.Scheme) where
  -- One action after another, both of which report.
  then_Keeps :
      {A B : Type 0} (m : Action K (C.State × Trace K) A) (f : A → Action K (C.State × Trace K) B)
      → Keeps (I C) m
      → ((a : A) → Keeps (I C) (f a))
      → Keeps (I C) (m >>= f)
  then_Keeps m f km kf = Keeps-bind (I C) (λ _. Unit {0}) m f km (λ _ _ _. tt) (λ a _. kf a)

  reconcile_owned-Keeps :
      (w : GpuWorkload K) → Keeps (I C) (reconcile_owned (traced C) set_reference scheme w)
  unfolding reconcile_owned
  reconcile_owned-Keeps w =
      let name = deploy_name_of w.metadata.name in
      let service = reconcile_service (traced C) set_reference scheme w name in
      then_Keeps (reconcile_deployment (traced C) set_reference scheme w name)
        (λ d. service >>= λ _. report_readiness (traced C) w d name)
        (reconcile_deployment-Keeps C set_reference scheme w name)
        (λ d.
          then_Keeps service (λ _. report_readiness (traced C) w d name)
            (reconcile_service-Keeps C set_reference scheme w name)
            (λ _. report_readiness-Keeps C set_reference scheme w name d))

  live_flow-Keeps : (w : GpuWorkload K) → Keeps (I C) (live_flow (traced C) set_reference scheme w)
  unfolding live_flow
  live_flow-Keeps w =
      let owned = reconcile_owned (traced C) set_reference scheme w in
      then_Keeps (handle_deletion (traced C) w) (λ _. ensure_finalizer (traced C) w >>= λ _. owned)
        (handle_deletion-Keeps C w)
        (λ _.
          then_Keeps (ensure_finalizer (traced C) w) (λ _. owned) (ensure_finalizer-Keeps C w)
            (λ _. reconcile_owned-Keeps w))

  reconcile_flow-Keeps :
      (key : NamespacedName) → Keeps (I C) (reconcile_flow (traced C) set_reference scheme key)
  unfolding reconcile_flow
  reconcile_flow-Keeps key =
      then_Keeps (fetch_workload (traced C) key) (live_flow (traced C) set_reference scheme)
        (fetch_workload-Keeps C key) live_flow-Keeps

  -- Whatever the server answers, if it refuses to create the Deployment, then the next call of the
  -- run is an update of the status to Failed, with the text of that error in the message; a run
  -- never ends before that call.
  pub reconcile_reports_creation :
      (key : NamespacedName) (s : C.State)
      → EachReported (reconcile (traced C) set_reference scheme key (s, [])).1.1
        × (creation_error (reconcile (traced C) set_reference scheme key (s, [])).1.1 ≡ none)
  unfolding reconcile
  reconcile_reports_creation key s = reconcile_flow-Keeps key (s, []) (tt, refl)
