-- ===== src/Controller.antt =====
-- The reconciler of GPUWorkloads (operator/controllers/gpuworkload_controller.go).
-- Its calls of the logger change no state and are left out.
pub mod Flow
pub mod Build
pub mod Service
pub mod Cleanup
pub mod Status
pub mod Reconcile
pub mod Spec
pub mod Keeps
use aperture_ai.Prelude.{String, ℕ, ◌<>◌, ◌*◌}

abbrev pub finalizer_name : String
finalizer_name = "aperture.ai/gpuworkload-finalizer"

abbrev pub inference_image : String
inference_image = "aperture-inference:latest"

abbrev pub inference_port : ℕ
inference_port = 8080

abbrev pub model_volume_name : String
model_volume_name = "model-storage"

abbrev pub model_mount_path : String
model_mount_path = "/models"

-- In nanoseconds, as a `time.Duration` counts.
abbrev pub requeue_delay : ℕ
requeue_delay = 5 * 1000000000

abbrev pub container_memory_limit : String
container_memory_limit = "16Gi"

abbrev pub container_cpu_limit : String
container_cpu_limit = "4"

-- `fmt.Sprintf("%s-inference", name)` and `fmt.Sprintf("%s-svc", name)`
abbrev pub deploy_name_of : String → String
deploy_name_of name = name <> "-inference"

abbrev pub svc_name_of : String → String
svc_name_of name = name <> "-svc"
