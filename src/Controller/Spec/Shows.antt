-- ===== src/Controller/Spec/Shows.antt =====
-- The view of a state of the API server.
use aperture_ai.Prelude.{◌≡◌, Bool, true, false, Option, none, some}
use aperture_ai.Kube.{Kube}
use aperture_ai.Kube.Objects.{NamespacedName, Deployment}
use aperture_ai.V1alpha1.{GpuWorkload, GpuWorkloadPhase}
use aperture_ai.Client.{Client, ok}
use aperture_ai.Client.Laws.{IsAbsent, IsPresent, workload_at, deployment_at, service_at}
use aperture_ai.Controller.{finalizer_name}
use aperture_ai.Controller.Status.Laws.{Observed}
use aperture_ai.Controller.Reconcile.Names.{deployment_of, service_of}
use aperture_ai.Controller.Spec.{Owner, View}

-- The workload is as its owner's view says.
pub record Looks {K : Kube} (w : GpuWorkload K) (a : Owner) : Type 0 where
  pub looks_live : K.is_zero w.metadata.deletion_timestamp ≡ a.live
  pub looks_guarded : K.contains_finalizer w.metadata.finalizers finalizer_name ≡ a.guarded
  pub looks_phase : w.status.phase ≡ a.phase

module _ {K : Kube} (C : Client K) (key : NamespacedName) (s : C.State) where
  abbrev pub ShowsWorkload : Option Owner → Type 0
  ShowsWorkload none = IsAbsent K (workload_at C s key)
  ShowsWorkload (some a) = (w : GpuWorkload K) × (workload_at C s key ≡ ok w) × Looks w a

  abbrev pub ShowsDeployment : Option GpuWorkloadPhase → Type 0
  ShowsDeployment none = IsAbsent K (deployment_at C s (deployment_of key))
  ShowsDeployment (some phase) =
      (d : Deployment K) × (deployment_at C s (deployment_of key) ≡ ok d) × Observed d phase

  abbrev pub ShowsService : Bool → Type 0
  ShowsService false = IsAbsent K (service_at C s (service_of key))
  ShowsService true = IsPresent K (service_at C s (service_of key))

  -- The state is seen as `v`. No view fits a state in which a lookup fails otherwise than by NotFound.
  pub record Shows (v : View) : Type 0 where
    pub shows_workload : ShowsWorkload v.workload
    pub shows_deployment : ShowsDeployment v.deployment
    pub shows_service : ShowsService v.service
