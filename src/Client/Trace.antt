-- ===== src/Client/Trace.antt =====
-- A client that also writes down each call with its answer. It wraps any client, so a statement about
-- the calls that the operator makes holds whatever the API server answers.
use aperture_ai.Prelude.{Option, List, ◌∷◌}
use aperture_ai.Kube.{Kube}
use aperture_ai.Kube.Objects.{NamespacedName, Deployment, Service}
use aperture_ai.V1alpha1.{GpuWorkload}
use aperture_ai.Client.{Client, Result}

pub data Event (K : Kube) : Type 0 where
  got_workload : NamespacedName → Result K.Error (GpuWorkload K) → Event K
  got_deployment : NamespacedName → Result K.Error (Deployment K) → Event K
  got_service : NamespacedName → Result K.Error (Service K) → Event K
  created_deployment : Deployment K → Option K.Error → Event K
  created_service : Service K → Option K.Error → Event K
  updated_workload : GpuWorkload K → Option K.Error → Event K
  updated_status : GpuWorkload K → Option K.Error → Event K
  deleted_deployment : Deployment K → Option K.Error → Event K
  deleted_service : Service K → Option K.Error → Event K

-- The newest event stands first.
abbrev pub Trace : Kube → Type 0
Trace K = List (Event K)

-- A call, with the event that its answer makes added to the trace.
abbrev pub record_event :
    {K : Kube} {S A : Type 0} → (S → A × S) → (A → Event K) → S × Trace K → A × (S × Trace K)
record_event call event (s, trace) = let (a, s') = call s in (a, (s', event a ∷ trace))

abbrev pub traced : {K : Kube} → Client K → Client K
traced {K} C = record {
  State = C.State × Trace K;
  get_workload = λ k. record_event (C.get_workload k) (got_workload k);
  get_deployment = λ k. record_event (C.get_deployment k) (got_deployment k);
  get_service = λ k. record_event (C.get_service k) (got_service k);
  create_deployment = λ d. record_event (C.create_deployment d) (created_deployment d);
  create_service = λ v. record_event (C.create_service v) (created_service v);
  update_workload = λ w. record_event (C.update_workload w) (updated_workload w);
  update_workload_status = λ w. record_event (C.update_workload_status w) (updated_status w);
  delete_deployment = λ d. record_event (C.delete_deployment d) (deleted_deployment d);
  delete_service = λ v. record_event (C.delete_service v) (deleted_service v);
}
