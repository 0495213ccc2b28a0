-- ===== src/Controller/Cleanup.antt =====
-- `deleteOwnedResources`: the Deployment and the Service of a workload are deleted, in this order.
pub mod Laws
pub mod Kept
pub mod Accepted
use aperture_ai.Prelude.{String, Option, none, some, not, ◌<>◌, if◌then◌else◌}
use aperture_ai.Kube.{Kube}
use aperture_ai.Kube.Objects.{NamespacedName, Deployment, Service}
use aperture_ai.V1alpha1.{GpuWorkload}
use aperture_ai.Client.{Client, Result, ok, err}
use aperture_ai.Controller.{deploy_name_of, svc_name_of}
use aperture_ai.Controller.Flow.{Error, wrapped}

module _ {K : Kube} (workload : GpuWorkload K) where
  abbrev pub deploy_key : NamespacedName
  deploy_key = record {
    name = deploy_name_of workload.metadata.name;
    namespace = workload.metadata.namespace;
  }

  abbrev pub svc_key : NamespacedName
  svc_key = record {
    name = svc_name_of workload.metadata.name;
    namespace = workload.metadata.namespace;
  }

module _ {K : Kube} (C : Client K) (workload : GpuWorkload K) where
  -- `err != nil && !errors.IsNotFound(err)`, where the error of `Delete` is wrapped and returned.
  unless_not_found : String → Option K.Error → Option (Error K)
  unless_not_found text none = none
  unless_not_found text (some e) = if K.is_not_found (some e) then none else some (wrapped text e)

  -- The `else` branch of the lookup, and its `if` branch.
  pub delete_found_deployment : Result K.Error (Deployment K) → C.State → Option (Error K) × C.State
  unfolding unless_not_found
  delete_found_deployment (ok deploy) s =
      let (e, s') = C.delete_deployment deploy s in
      (unless_not_found ("failed to delete owned Deployment " <> (deploy_key workload).name) e, s')
  delete_found_deployment (err e) s = (
    if not (K.is_not_found (some e))
        then some (wrapped ("failed to get owned Deployment " <> (deploy_key workload).name) e)
        else none,
    s,
  )

  unfoldable pub delete_owned_deployment : C.State → Option (Error K) × C.State
  unfolding delete_found_deployment
  delete_owned_deployment s =
      let (found, s') = C.get_deployment (deploy_key workload) s in delete_found_deployment found s'

  pub delete_found_service : Result K.Error (Service K) → C.State → Option (Error K) × C.State
  unfolding unless_not_found
  delete_found_service (ok svc) s =
      let (e, s') = C.delete_service svc s in
      (unless_not_found ("failed to delete owned Service " <> (svc_key workload).name) e, s')
  delete_found_service (err e) s = (
    if not (K.is_not_found (some e))
        then some (wrapped ("failed to get owned Service " <> (svc_key workload).name) e)
        else none,
    s,
  )

  unfoldable pub delete_owned_service : C.State → Option (Error K) × C.State
  unfolding delete_found_service
  delete_owned_service s =
      let (found, s') = C.get_service (svc_key workload) s in delete_found_service found s'

  pub after_deployment : Option (Error K) → C.State → Option (Error K) × C.State
  unfolding delete_owned_service
  after_deployment (some e) s = (some e, s)
  after_deployment none s = delete_owned_service s

  unfoldable pub delete_owned_resources : C.State → Option (Error K) × C.State
  unfolding delete_owned_deployment after_deployment
  delete_owned_resources s = let (e, s') = delete_owned_deployment s in after_deployment e s'
