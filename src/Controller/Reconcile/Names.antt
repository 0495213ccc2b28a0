-- ===== src/Controller/Reconcile/Names.antt =====
-- The names of the Deployment and of the Service, from the key of the request.
use aperture_ai.Prelude.{◌≡◌}
use aperture_ai.Kube.{Kube}
use aperture_ai.Kube.Objects.{NamespacedName}
use aperture_ai.V1alpha1.{GpuWorkload, workload_key}
use aperture_ai.Controller.{deploy_name_of, svc_name_of}
use aperture_ai.Controller.Cleanup.{deploy_key, svc_key}

module _ (key : NamespacedName) where
  abbrev pub deployment_of : NamespacedName
  deployment_of = record { name = deploy_name_of key.name; namespace = key.namespace }

  abbrev pub service_of : NamespacedName
  service_of = record { name = svc_name_of key.name; namespace = key.namespace }

module _ {K : Kube} {key : NamespacedName} (w : GpuWorkload K) (named : workload_key w ≡ key) where
  -- The names that belong to the workload are those that belong to its key.
  pub deploy_key_of_key : deploy_key w ≡ deployment_of key
  deploy_key_of_key = λ i. deployment_of (named i)

  pub svc_key_of_key : svc_key w ≡ service_of key
  svc_key_of_key = λ i. service_of (named i)
