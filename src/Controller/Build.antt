-- ===== src/Controller/Build.antt =====
-- `buildInferenceDeployment`: the Deployment of the inference server of a workload. It panics, which
-- is `none` here, if `MustParse` does.
pub mod Laws
pub mod Accepted
use aperture_ai.Prelude.{
  String, true, Option, none, some, List, [], ◌∷◌, ℕ, ℤ, pos, ltb_ℤ, eqb_ℤ, if◌then◌else◌,
}
use aperture_ai.Prelude.Dict.{Dict, Labels, insert}
use aperture_ai.Prelude.Format.{sprint_int}
use aperture_ai.Kube.{Kube}
use aperture_ai.Kube.Objects.{
  EnvVar, VolumeMount, Volume, persistent_volume_claim, empty_dir, Probe, ResourceRequirements,
  Container, PodSpec, Deployment, new_meta,
}
use aperture_ai.V1alpha1.{GpuWorkload}
use aperture_ai.Controller.{inference_image, inference_port, model_volume_name, model_mount_path}

infixl 5 ◌>>=◌
abbrev pub ◌>>=◌ : {A B : Type 0} → Option A → (A → Option B) → Option B
none >>= f = none
some a >>= f = f a

abbrev env_var : String → String → EnvVar
env_var name value = record { name = name; value = value }

abbrev mount : String → String → VolumeMount
mount name path = record { name = name; mount_path = path }

-- A probe of the path "/health" at the inference port.
abbrev health_probe : ℕ → ℕ → ℕ → ℕ → Probe
health_probe initial period timeout failures = record {
  path = "/health";
  port = inference_port;
  initial_delay_seconds = initial;
  period_seconds = period;
  timeout_seconds = timeout;
  failure_threshold = failures;
}

unfoldable pub use_gpu_of : ℤ → String
use_gpu_of gpu = if eqb_ℤ gpu (pos 0) then "false" else "true"

module _ {K : Kube} (workload : GpuWorkload K) where
  -- `corev1.ResourceList{ResourceMemory: ..., ResourceCPU: ...}`
  abbrev pub resource_list : String → String → Option (Dict K.Quantity)
  resource_list memory cpu = do
    m ← K.must_parse memory
    c ← K.must_parse cpu
    some (("memory", m) ∷ ("cpu", c) ∷ [])

  -- The two maps with the GPUs of the workload, if it has any.
  unfoldable pub with_gpus : ResourceRequirements K → Option (ResourceRequirements K)
  unfolding insert
  with_gpus r =
      if ltb_ℤ (pos 0) workload.spec.gpu
      then K.must_parse (sprint_int workload.spec.gpu) >>= (λ gpu_quantity. some (record {
        limits = insert "nvidia.com/gpu" gpu_quantity r.limits;
        requests = insert "nvidia.com/gpu" gpu_quantity r.requests;
      }))
      else some r

  -- The limits and requests of the inference container.
  unfoldable pub resource_requirements : Option (ResourceRequirements K)
  unfolding with_gpus
  resource_requirements = do
    limits ← resource_list "1Gi" "1"
    requests ← resource_list "512Mi" "250m"
    with_gpus (record { limits = limits; requests = requests })

  unfoldable pub pod_labels : Labels
  pod_labels =
      ("app", "aperture-inference")
      ∷ ("aperture.ai/workload", workload.metadata.name)
      ∷ ("aperture.ai/partition-mode", workload.spec.partition_mode)
      ∷ []

  unfoldable pub inference_env : List EnvVar
  unfolding use_gpu_of
  inference_env =
      env_var "MODEL_PATH" workload.spec.model_name
      ∷ env_var "TOKEN_QUOTA" (sprint_int workload.spec.token_quota)
      ∷ env_var "KV_CACHE_GB" (sprint_int workload.spec.kv_cache_gb)
      ∷ env_var "GPU_PARTITION_MODE" workload.spec.partition_mode
      ∷ env_var "USE_GPU" (use_gpu_of workload.spec.gpu)
      ∷ env_var "HOME" "/tmp"
      ∷ env_var "TORCHINDUCTOR_CACHE_DIR" "/tmp/torchinductor"
      ∷ env_var "TORCH_HOME" "/tmp/torch"
      ∷ env_var "HF_HOME" "/tmp/huggingface"
      ∷ []

  unfoldable pub inference_container : ResourceRequirements K → Container K
  unfolding inference_env
  inference_container resources = record {
    name = "inference";
    image = inference_image;
    command = [];
    ports = record { name = "http"; container_port = inference_port; protocol = "TCP" } ∷ [];
    env = inference_env;
    resources = resources;
    security_context = some (record { read_only_root_filesystem = some true; drop = "ALL" ∷ [] });
    volume_mounts = mount model_volume_name model_mount_path ∷ mount "tmp" "/tmp" ∷ [];
    readiness_probe = some (health_probe 30 10 5 6);
    liveness_probe = some (health_probe 60 15 5 3);
  }

  -- The init container, which downloads the model's weights to the shared volume.
  unfoldable pub preloader_container : Option (Container K)
  preloader_container = do
    limits ← resource_list "2Gi" "2"
    requests ← resource_list "512Mi" "500m"
    some (record {
      name = "model-preloader";
      image = inference_image;
      command = "python" ∷ "/app/model_preloader.py" ∷ [];
      ports = [];
      env =
          env_var "MODEL_PATH" workload.spec.model_name ∷ env_var "CACHE_DIR" model_mount_path ∷ [];
      resources = record { limits = limits; requests = requests };
      security_context = none;
      volume_mounts = mount model_volume_name model_mount_path ∷ [];
      readiness_probe = none;
      liveness_probe = none;
    })

  abbrev volumes : List Volume
  volumes =
      record { name = model_volume_name; source = persistent_volume_claim "aperture-model-cache" }
      ∷ record { name = "tmp"; source = empty_dir }
      ∷ []

  unfoldable pub pod_spec : ResourceRequirements K → Container K → PodSpec K
  unfolding inference_container
  pod_spec resources preloader = record {
    security_context = some (record {
      run_as_non_root = some true;
      run_as_user = some (pos 1000);
      fs_group = some (pos 1000);
    });
    containers = inference_container resources ∷ [];
    init_containers = preloader ∷ [];
    volumes = volumes;
    node_selector = [];
    tolerations = [];
    priority_class_name = "";
  }

  -- The literal, with the values of its calls of `MustParse`.
  unfoldable pub inference_deployment : String → ResourceRequirements K → Container K → Deployment K
  unfolding pod_labels pod_spec
  inference_deployment deploy_name resources preloader = record {
    metadata = new_meta K deploy_name workload.metadata.namespace pod_labels;
    spec = record {
      replicas = some (pos 1);
      match_labels =
          ("app", "aperture-inference") ∷ ("aperture.ai/workload", workload.metadata.name) ∷ [];
      template = record { labels = pod_labels; spec = pod_spec resources preloader };
    };
    status = record { ready_replicas = pos 0; unavailable_replicas = pos 0; conditions = [] };
  }

  unfoldable pub build_inference_deployment : String → Option (Deployment K)
  unfolding resource_requirements preloader_container inference_deployment
  build_inference_deployment deploy_name = do
    resources ← resource_requirements
    preloader ← preloader_container
    some (inference_deployment deploy_name resources preloader)
