-- ===== src/Client.antt =====
-- The calls that the operator makes of the API server, through controller-runtime's `client.Client`.
-- The server is not part of the repository: `Client` is a parameter, over an unknown state. A call
-- gets the state and returns the next one, so the server may do anything between two calls.
pub mod Trace
pub mod Laws
pub mod Spares
pub mod Interleaved
pub mod Memory
use aperture_ai.Prelude.{Option}
use aperture_ai.Kube.{Kube}
use aperture_ai.Kube.Objects.{ObjectMeta, NamespacedName, Deployment, Service}
use aperture_ai.V1alpha1.{GpuWorkload}

-- The object and the error of a call that has both, of which one counts: what `r.Get` leaves behind
-- its pointer if it returns nil, or the error that it returns.
pub data Result {ℓ κ} (E : Type ℓ) (A : Type κ) : Type (ℓ ⊔ κ) where
  ok : A → Result E A
  err : E → Result E A

-- `r.Get`, `r.Create`, `r.Update`, `r.Delete` and `r.Status().Update`, at the types at which the
-- operator calls them. What a call writes back into the object that it is given is not read again.
pub record Client (K : Kube) : Type 1 where
  pub State : Type 0
  pub get_workload : NamespacedName → State → Result K.Error (GpuWorkload K) × State
  pub get_deployment : NamespacedName → State → Result K.Error (Deployment K) × State
  pub get_service : NamespacedName → State → Result K.Error (Service K) × State
  pub create_deployment : Deployment K → State → Option K.Error × State
  pub create_service : Service K → State → Option K.Error × State
  pub update_workload : GpuWorkload K → State → Option K.Error × State
  pub update_workload_status : GpuWorkload K → State → Option K.Error × State
  pub delete_deployment : Deployment K → State → Option K.Error × State
  pub delete_service : Service K → State → Option K.Error × State

-- `controllerutil.SetControllerReference(owner, controlled, scheme)`: the metadata of the controlled
-- object with the reference set, or an error.
abbrev pub SetControllerReference : Kube → Type 0
SetControllerReference K = GpuWorkload K → ObjectMeta K → K.Scheme → Result K.Error (ObjectMeta K)
