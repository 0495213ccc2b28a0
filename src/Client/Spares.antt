-- ===== src/Client/Spares.antt =====
-- What the calls of the operator do to a predicate on the state of the server.
use aperture_ai.Prelude.{◌≡◌, ◌⊎◌, some, none, true, Option}
use aperture_ai.Kube.{Kube}
use aperture_ai.Kube.Objects.{NamespacedName, Deployment, Service}
use aperture_ai.V1alpha1.{GpuWorkload, workload_key}
use aperture_ai.Client.{Client, ok, err}

-- The calls that a run makes behind the lookup of a Deployment that exists keep it.
pub record Attends {K : Kube} (C : Client K) (key : NamespacedName) (I : C.State → Type 0)
    : Type 0 where
  pub get_service_kept : (k : NamespacedName) (s : C.State) → I s → I (C.get_service k s).1
  pub create_service_kept : (v : Service K) (s : C.State) → I s → I (C.create_service v s).1
  pub status_kept :
      (u : GpuWorkload K) (s : C.State)
      → workload_key u ≡ key
      → I s
      → I (C.update_workload_status u s).1

-- All calls but the updates of a workload's metadata keep it.
pub record Spares {K : Kube} (C : Client K) (key : NamespacedName) (I : C.State → Type 0)
    : Type 0 where
  pub attends : Attends C key I
  pub get_deployment_kept : (k : NamespacedName) (s : C.State) → I s → I (C.get_deployment k s).1
  pub create_deployment_kept :
      (d : Deployment K) (s : C.State) → I s → I (C.create_deployment d s).1
  pub delete_deployment_kept :
      (d : Deployment K) (s : C.State) → I s → I (C.delete_deployment d s).1
  pub delete_service_kept : (v : Service K) (s : C.State) → I s → I (C.delete_service v s).1

-- The answer to a deletion that says that nothing is left.
abbrev pub IsGone : (K : Kube) → Option K.Error → Type 0
IsGone K o = (o ≡ none) ⊎ ((e : K.Error) × (o ≡ some e) × (K.is_not_found (some e) ≡ true))

-- A lookup that finds nothing, or a deletion, establishes it for a Deployment (`D`) or a Service (`V`).
pub record Clears {K : Kube} (C : Client K) (deployment service : NamespacedName)
    (D V : C.State → Type 0) : Type 0 where
  pub deployment_absent :
      (s : C.State) (e : K.Error)
      → (C.get_deployment deployment s).0 ≡ err e
      → K.is_not_found (some e) ≡ true
      → D (C.get_deployment deployment s).1
  pub deployment_deleted :
      (s s' : C.State) (d : Deployment K)
      → (C.get_deployment deployment s).0 ≡ ok d
      → IsGone K (C.delete_deployment d s').0
      → D (C.delete_deployment d s').1
  pub service_absent :
      (s : C.State) (e : K.Error)
      → (C.get_service service s).0 ≡ err e
      → K.is_not_found (some e) ≡ true
      → V (C.get_service service s).1
  pub service_deleted :
      (s s' : C.State) (v : Service K)
      → (C.get_service service s).0 ≡ ok v
      → IsGone K (C.delete_service v s').0
      → V (C.delete_service v s').1
  pub get_service_clear : (k : NamespacedName) (s : C.State) → D s → D (C.get_service k s).1
  pub delete_service_clear : (v : Service K) (s : C.State) → D s → D (C.delete_service v s).1
