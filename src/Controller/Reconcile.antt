-- ===== src/Controller/Reconcile.antt =====
-- `Reconcile`, section by section, and the whole.
pub mod Permitted
pub mod Creation
pub mod Deletion
pub mod Names
pub mod Attended
pub mod Untouched
pub mod Orphans
pub mod Panics
pub mod Calls
pub mod Finished
pub mod Errors
pub mod Readiness
pub mod Progress
use aperture_ai.Prelude.{String, true, Option, none, some, List, not, ◌<>◌, if◌then◌else◌}
use mathlib.Core.Option
use aperture_ai.Kube.{Kube}
use aperture_ai.Kube.Objects.{NamespacedName, ObjectMeta, Deployment, Service}
use aperture_ai.V1alpha1.{GpuWorkload, phase_pending, phase_failed}
use aperture_ai.Client.{Client, Result, ok, err, SetControllerReference}
use aperture_ai.Controller.{finalizer_name, deploy_name_of, svc_name_of}
use aperture_ai.Controller.Flow.{
  Flow, next, return, panic, Action, ◌>>=◌, ◌>>◌, Exit, exit, empty_result, Error, api, Outcome,
  outcome,
}
use aperture_ai.Controller.Build.{build_inference_deployment}
use aperture_ai.Controller.Service.{build_inference_service}
use aperture_ai.Controller.Cleanup.{delete_owned_resources}
use aperture_ai.Controller.Status.{update_status, update_readiness}

-- `return ctrl.Result{}, err`
abbrev pub fail : {K : Kube} {A : Type 0} → Error K → Flow K A
fail e = return (exit empty_result (some e))

abbrev pub with_finalizers : {K : Kube} → GpuWorkload K → List String → GpuWorkload K
with_finalizers w l = record w { metadata = record w.metadata { finalizers = l } }

module _ {K : Kube} (C : Client K) where
  abbrev pub Step : Type 0 → Type 0
  Step A = Action K C.State A

  -- Section 1: the workload is fetched.
  pub fetched : Result K.Error (GpuWorkload K) → Flow K (GpuWorkload K)
  fetched (ok workload) = next workload
  fetched (err e) =
      if K.is_not_found (some e) then return (exit empty_result none) else fail (api e)

  pub fetch_workload : NamespacedName → Step (GpuWorkload K)
  unfolding fetched
  fetch_workload key s = let (r, s') = C.get_workload key s in (fetched r, s')

  -- Section 2, with the finalizer in place: cleanup, then the finalizer is removed.
  pub after_cleanup : GpuWorkload K → Option (Error K) → C.State → Exit K × C.State
  after_cleanup workload (some e) s = (exit empty_result (some e), s)
  after_cleanup workload none s =
      let w =
        with_finalizers workload (K.remove_finalizer workload.metadata.finalizers finalizer_name) in
      let (e, s') = C.update_workload w s in (exit empty_result (Option.map api e), s')

  pub clean_up : GpuWorkload K → C.State → Exit K × C.State
  unfolding after_cleanup delete_owned_resources
  clean_up workload s =
      let (e, s') = delete_owned_resources C workload s in after_cleanup workload e s'

  pub handle_deletion : GpuWorkload K → Step (Unit {0})
  unfolding clean_up
  handle_deletion workload s =
      if not (K.is_zero workload.metadata.deletion_timestamp)
      then if K.contains_finalizer workload.metadata.finalizers finalizer_name
        then (let (x, s') = clean_up workload s in (return x, s'))
        else (return (exit empty_result none), s)
      else (next tt, s)

  -- Section 3: the finalizer is added.
  pub finalizer_exit : Option K.Error → Exit K
  finalizer_exit (some e) = exit empty_result (some (api e))
  finalizer_exit none = exit (record { requeue = true; requeue_after = 0 }) none

  pub ensure_finalizer : GpuWorkload K → Step (Unit {0})
  unfolding finalizer_exit
  ensure_finalizer workload s =
      if not (K.contains_finalizer workload.metadata.finalizers finalizer_name)
      then (let w =
            with_finalizers workload
              (K.add_finalizer workload.metadata.finalizers finalizer_name) in
          let (e, s') = C.update_workload w s in (return (finalizer_exit e), s'))
      else (next tt, s)

  -- Section 4: the Deployment is looked up, and created if it is missing.
  pub after_create : GpuWorkload K → String → Option K.Error → C.State → Exit K × C.State
  unfolding update_status
  after_create workload deploy_name (some e) s =
      update_status C workload phase_failed "" ("Deployment creation failed: " <> K.error_text e) s
  after_create workload deploy_name none s =
      update_status C workload phase_pending deploy_name
        "Inference Deployment created, waiting for pods to become ready" s

  pub create_with_owner :
      GpuWorkload K → String → Deployment K → Result K.Error (ObjectMeta K) → Step (Deployment K)
  unfolding after_create
  create_with_owner workload deploy_name deploy (err e) s = (fail (api e), s)
  create_with_owner workload deploy_name deploy (ok metadata) s =
      let (e, s') = C.create_deployment (record deploy { metadata = metadata }) s in
      let (x, s'') = after_create workload deploy_name e s' in (return x, s'')

  -- Section 5: the Service is looked up, and created if it is missing. An error of `Create` is only
  -- logged.
  pub create_service_with_owner : Service K → Result K.Error (ObjectMeta K) → Step (Unit {0})
  create_service_with_owner svc (err e) s = (fail (api e), s)
  create_service_with_owner svc (ok metadata) s =
      let (e, s') = C.create_service (record svc { metadata = metadata }) s in (next tt, s')

  -- Section 6.
  pub report_readiness : GpuWorkload K → Deployment K → String → Step (Exit K)
  unfolding update_readiness
  report_readiness workload deploy deploy_name s =
      let (x, s') = update_readiness C workload deploy deploy_name s in (return x, s')

module _ {K : Kube} (C : Client K) (set_reference : SetControllerReference K)
    (scheme : K.Scheme) where
  pub create_built : GpuWorkload K → String → Option (Deployment K) → Step C (Deployment K)
  unfolding create_with_owner
  create_built workload deploy_name none s = (panic, s)
  create_built workload deploy_name (some deploy) s =
      create_with_owner C workload deploy_name deploy
        (set_reference workload deploy.metadata scheme) s

  pub create_missing_deployment : GpuWorkload K → String → Step C (Deployment K)
  unfolding create_built build_inference_deployment
  create_missing_deployment workload deploy_name =
      create_built workload deploy_name (build_inference_deployment workload deploy_name)

  pub found_deployment :
      GpuWorkload K → String → Result K.Error (Deployment K) → Step C (Deployment K)
  unfolding create_missing_deployment
  found_deployment workload deploy_name (err e) s =
      if not (K.is_not_found (some e))
      then (fail (api e), s)
      else create_missing_deployment workload deploy_name s
  found_deployment workload deploy_name (ok deploy) s =
      if K.is_not_found none
      then create_missing_deployment workload deploy_name s
      else (next deploy, s)

  pub reconcile_deployment : GpuWorkload K → String → Step C (Deployment K)
  unfolding found_deployment
  reconcile_deployment workload deploy_name s =
      let (r, s') =
        C.get_deployment (record { name = deploy_name; namespace = workload.metadata.namespace })
          s in
      found_deployment workload deploy_name r s'

  pub create_missing_service : GpuWorkload K → String → String → Step C (Unit {0})
  unfolding create_service_with_owner build_inference_service
  create_missing_service workload svc_name deploy_name =
      let svc = build_inference_service workload svc_name deploy_name in
      create_service_with_owner C svc (set_reference workload svc.metadata scheme)

  pub found_service :
      GpuWorkload K → String → String → Result K.Error (Service K) → Step C (Unit {0})
  unfolding create_missing_service
  found_service workload svc_name deploy_name (err e) s =
      if not (K.is_not_found (some e))
      then (fail (api e), s)
      else create_missing_service workload svc_name deploy_name s
  found_service workload svc_name deploy_name (ok svc) s =
      if K.is_not_found none
      then create_missing_service workload svc_name deploy_name s
      else (next tt, s)

  pub reconcile_service : GpuWorkload K → String → Step C (Unit {0})
  unfolding found_service
  reconcile_service workload deploy_name s =
      let svc_name = svc_name_of workload.metadata.name in
      let (r, s') =
        C.get_service (record { name = svc_name; namespace = workload.metadata.namespace }) s in
      found_service workload svc_name deploy_name r s'

  -- What is done for a live workload that has the finalizer.
  pub reconcile_owned : GpuWorkload K → Step C (Exit K)
  unfolding reconcile_deployment reconcile_service report_readiness
  reconcile_owned workload = do
    let deploy_name = deploy_name_of workload.metadata.name
    existing_deploy ← reconcile_deployment workload deploy_name
    reconcile_service workload deploy_name
    report_readiness C workload existing_deploy deploy_name

  -- Sections 2 to 6.
  pub live_flow : GpuWorkload K → Step C (Exit K)
  unfolding handle_deletion ensure_finalizer reconcile_owned
  live_flow workload = do
    handle_deletion C workload
    ensure_finalizer C workload
    reconcile_owned workload

  pub reconcile_flow : NamespacedName → Step C (Exit K)
  unfolding fetch_workload live_flow
  reconcile_flow key = do workload ← fetch_workload C key; live_flow workload

  unfoldable pub reconcile : NamespacedName → C.State → Outcome K × C.State
  unfolding reconcile_flow
  reconcile key s = let (r, s') = reconcile_flow key s in (outcome r, s')
