-- ===== src/V1alpha1.antt =====
-- The API types of the group aperture.ai/v1alpha1 (operator/api/v1alpha1/gpuworkload_types.go).
-- TypeMeta and ListMeta, which the operator never reads, are left out.
pub mod Memory
pub mod DeepCopy
pub mod Webhook
use aperture_ai.Prelude.{String, Option, List, ℤ, [], ◌∷◌}
use aperture_ai.Prelude.Dict.{Labels}
use aperture_ai.Kube.{Kube}
use aperture_ai.Kube.Objects.{ObjectMeta, NamespacedName, object_key}

pub record GpuWorkloadSpec (K : Kube) : Type 0 where
  pub model_name : String
  pub gpu : ℤ
  pub partition_mode : String
  pub token_quota : ℤ
  pub kv_cache_gb : ℤ
  pub node_selector : Labels
  pub tolerations : List K.Toleration
  pub priority_class_name : String

-- A phase is any text; the empty one stands in a workload that has no status yet.
abbrev pub GpuWorkloadPhase : Type 0
GpuWorkloadPhase = String

abbrev pub phase_pending : GpuWorkloadPhase
phase_pending = "Pending"

abbrev pub phase_running : GpuWorkloadPhase
phase_running = "Running"

abbrev pub phase_completed : GpuWorkloadPhase
phase_completed = "Completed"

abbrev pub phase_failed : GpuWorkloadPhase
phase_failed = "Failed"

pub record GpuWorkloadStatus (K : Kube) : Type 0 where
  pub phase : GpuWorkloadPhase
  pub conditions : List K.Condition
  pub pod_name : String
  pub message : String
  pub start_time : Option K.Time
  pub observed_generation : ℤ

pub record GpuWorkload (K : Kube) : Type 0 where
  pub metadata : ObjectMeta K
  pub spec : GpuWorkloadSpec K
  pub status : GpuWorkloadStatus K

-- The key under which the API server keeps a workload.
abbrev pub workload_key : {K : Kube} → GpuWorkload K → NamespacedName
workload_key w = object_key w.metadata

-- schema.GroupVersion
pub record GroupVersion : Type 0 where
  pub group : String
  pub version : String

abbrev pub group_version : GroupVersion
group_version = record { group = "aperture.ai"; version = "v1alpha1" }

-- The Go types of the API group.
pub data ApiType : Type 0 where
  gpu_workload : ApiType
  gpu_workload_list : ApiType

-- `SchemeBuilder.Register(&GPUWorkload{}, &GPUWorkloadList{})`
abbrev pub registered_types : List ApiType
registered_types = gpu_workload ∷ gpu_workload_list ∷ []
