-- ===== src/Tests/Build.antt =====
-- The Deployment and the Service of the sample workload.
use mathlib.Core.Option
use mathlib.Core.Bool.{Bool}
use aperture_ai.Prelude.{some, none, [], ◌∷◌, pos, negsuc, ◌≡◌, ◌≢◌, ◌↔◌, refl, map, All}
use aperture_ai.Prelude.Dict.{Selects, lookup}
use aperture_ai.Prelude.Format.{sprint_int, quote}
use aperture_ai.Prelude.Format.RoundTrip.{read_int}
use aperture_ai.Kube.Objects.{Deployment, Container, ResourceRequirements}
use aperture_ai.V1alpha1.{GpuWorkload}
use aperture_ai.Controller.Build.{
  build_inference_deployment, inference_deployment, resource_requirements,
}
use aperture_ai.V1alpha1.Webhook.{validate_create}
use aperture_ai.Controller.Build.Accepted.{built_accepted}
use aperture_ai.Controller.Build.Laws.{
  gpu_quantity, getenv, reschedule, build_inference_deployment-ne-none, built_selectors, built_gpus,
  built_env, built_unscheduled,
}
use aperture_ai.Controller.Service.{build_inference_service}
use aperture_ai.Tests.Toy.{toy, toy_field, toy-QuantitiesAreLawful, workload}

abbrev sample : GpuWorkload toy
sample = workload [] none ""

printed : (sprint_int (pos 50000) ≡ "50000") × (sprint_int (negsuc 11) ≡ "-12")
unfolding sprint_int
printed = (refl, refl)

quoted : quote (λ c. Bool.true) "test-workload" ≡ "\"test-workload\""
unfolding quote
quoted = refl

abbrev resources : ResourceRequirements toy
resources = record {
  limits = ("memory", "1Gi") ∷ ("cpu", "1") ∷ ("nvidia.com/gpu", "1") ∷ [];
  requests = ("memory", "512Mi") ∷ ("cpu", "250m") ∷ ("nvidia.com/gpu", "1") ∷ [];
}

resources_built : resource_requirements sample ≡ some resources
unfolding resource_requirements sprint_int
resources_built = refl

build_inference_deployment-ne-none_example :
    build_inference_deployment sample "test-workload-inference" ≢ none
build_inference_deployment-ne-none_example =
    build_inference_deployment-ne-none toy-QuantitiesAreLawful sample "test-workload-inference"

preloader : Container toy
preloader = record {
  name = "model-preloader";
  image = "aperture-inference:latest";
  command = "python" ∷ "/app/model_preloader.py" ∷ [];
  ports = [];
  env =
      record { name = "MODEL_PATH"; value = "facebook/opt-125m" }
      ∷ record { name = "CACHE_DIR"; value = "/models" }
      ∷ [];
  resources = record {
    limits = ("memory", "2Gi") ∷ ("cpu", "2") ∷ [];
    requests = ("memory", "512Mi") ∷ ("cpu", "500m") ∷ [];
  };
  security_context = none;
  volume_mounts = record { name = "model-storage"; mount_path = "/models" } ∷ [];
  readiness_probe = none;
  liveness_probe = none;
}

deployment : Deployment toy
deployment = inference_deployment sample "test-workload-inference" resources preloader

deployment_built : build_inference_deployment sample "test-workload-inference" ≡ some deployment
unfolding build_inference_deployment deployment preloader sprint_int
deployment_built = refl

built_selectors_example :
    let svc = build_inference_service sample "test-workload-svc" "test-workload-inference" in
    Selects deployment.spec.match_labels deployment.spec.template.labels
    × Selects svc.spec.selector deployment.spec.template.labels
    × All
        (λ c. map (λ p. p.container_port) c.ports ≡ map (λ p. p.target_port) svc.spec.ports)
        deployment.spec.template.spec.containers
built_selectors_example =
    built_selectors sample "test-workload-inference" deployment_built "test-workload-svc"

built_gpus_example :
    All
      (λ c.
        (lookup "nvidia.com/gpu" c.resources.limits ≡ gpu_quantity sample)
        × (lookup "nvidia.com/gpu" c.resources.requests ≡ gpu_quantity sample)
        × (lookup "memory" c.resources.limits ≡ some "1Gi")
        × (lookup "cpu" c.resources.limits ≡ some "1"))
      deployment.spec.template.spec.containers
built_gpus_example = built_gpus sample "test-workload-inference" deployment_built

built_env_example :
    All
      (λ c.
        (getenv "MODEL_PATH" c.env ≡ some "facebook/opt-125m")
        × (getenv "GPU_PARTITION_MODE" c.env ≡ some "MPS")
        × (Option.bind (getenv "TOKEN_QUOTA" c.env) read_int ≡ some (pos 50000))
        × (Option.bind (getenv "KV_CACHE_GB" c.env) read_int ≡ some (pos 4))
        × ((getenv "USE_GPU" c.env ≡ some "false") ↔ (pos 1 ≡ pos 0))
        × ((getenv "USE_GPU" c.env ≡ some "true") ↔ (pos 1 ≢ pos 0)))
      deployment.spec.template.spec.containers
built_env_example = built_env sample "test-workload-inference" deployment_built

built_unscheduled_example :
    (build_inference_deployment
        (reschedule sample (("zone", "a") ∷ []) ("gpu" ∷ []) "high")
        "test-workload-inference"
      ≡ build_inference_deployment sample "test-workload-inference")
    × ((d : Deployment toy)
        → build_inference_deployment sample "test-workload-inference" ≡ some d
        → (d.spec.template.spec.node_selector ≡ [])
          × (d.spec.template.spec.tolerations ≡ [])
          × (d.spec.template.spec.priority_class_name ≡ ""))
built_unscheduled_example =
    built_unscheduled sample "test-workload-inference" (("zone", "a") ∷ []) ("gpu" ∷ []) "high"

sample_accepted : (validate_create toy_field toy sample).1 ≡ none
unfolding validate_create
sample_accepted = refl

built_accepted_example :
    All
      (λ c.
        (getenv "USE_GPU" c.env ≡ some "false")
        ↔ (lookup "nvidia.com/gpu" c.resources.limits ≡ none))
      deployment.spec.template.spec.containers
built_accepted_example =
    built_accepted toy-QuantitiesAreLawful toy_field sample "test-workload-inference"
      deployment_built sample_accepted
