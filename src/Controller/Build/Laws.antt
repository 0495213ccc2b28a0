-- ===== src/Controller/Build/Laws.antt =====
-- What holds of the Deployment and the Service that are built for a workload.
use mathlib.Core.Option
use aperture_ai.Prelude.Format.RoundTrip.{read_int, read_int-sprint_int}
use aperture_ai.Prelude.{
  ◌↔◌, String, Option, some, none, List, [], ◌∷◌, true, ℤ, pos, negsuc, ltb_ℤ, ◌≡◌, ◌≢◌, refl,
  arith, All, if◌then◌else◌, eq_iff, map, ◌==◌,
}
use aperture_ai.Prelude.Dict.{Labels, Selects, lookup}
use aperture_ai.Prelude.Format.{sprint_int}
use aperture_ai.Kube.{Kube}
use aperture_ai.Kube.Laws.{QuantitiesAreLawful}
use aperture_ai.Kube.Objects.{object_key, Deployment, Container, EnvVar, ResourceRequirements}
use aperture_ai.V1alpha1.{GpuWorkload}
use aperture_ai.Controller.Build.{
  ◌>>=◌, resource_list, resource_requirements, with_gpus, preloader_container,
  build_inference_deployment, inference_deployment, use_gpu_of,
}
use aperture_ai.Controller.Service.{build_inference_service}

-- The GPUs to ask for, if any.
abbrev pub gpu_quantity : {K : Kube} → GpuWorkload K → Option K.Quantity
gpu_quantity {K} w = if ltb_ℤ (pos 0) w.spec.gpu then K.must_parse (sprint_int w.spec.gpu) else none

-- Inversion of a step that goes on.
bind-eq_some :
    {A B : Type 0} (o : Option A) (f : A → Option B) {b : B}
    → (o >>= f) ≡ some b
    → (a : A) × (o ≡ some a) × (f a ≡ some b)
bind-eq_some none f h = cc
bind-eq_some (some a) f h = (a, refl, h)

bind-ne_none :
    {A B : Type 0} (o : Option A) (f : A → Option B)
    → o ≢ none
    → ((a : A) → f a ≢ none)
    → (o >>= f) ≢ none
bind-ne_none none f h k = absurd (h refl)
bind-ne_none (some a) f h k = k a

module _ {K : Kube} (lawful : QuantitiesAreLawful K) where
  pub parses-gpu : (g : ℤ) → ltb_ℤ (pos 0) g ≡ true → K.must_parse (sprint_int g) ≢ none
  parses-gpu (pos n) h = lawful.parses-number n
  parses-gpu (negsuc n) h = ground arith

  resource_list-ne_none :
      (w : GpuWorkload K) (memory cpu : String)
      → K.must_parse memory ≢ none
      → K.must_parse cpu ≢ none
      → resource_list w memory cpu ≢ none
  resource_list-ne_none w memory cpu m c =
      bind-ne_none (K.must_parse memory) _ m (λ _. bind-ne_none (K.must_parse cpu) _ c (λ _ e. cc))

  with_gpus-ne_none : (w : GpuWorkload K) (r : ResourceRequirements K) → with_gpus w r ≢ none
  unfolding with_gpus
  with_gpus-ne_none w r = ground (arith, parses-gpu w.spec.gpu)

  resource_requirements-ne_none : (w : GpuWorkload K) → resource_requirements w ≢ none
  unfolding resource_requirements
  resource_requirements-ne_none w =
      bind-ne_none (resource_list w "1Gi" "1") _
        (resource_list-ne_none w "1Gi" "1" lawful.parses-memory_limit lawful.parses-cpu_limit)
        (λ l.
          bind-ne_none (resource_list w "512Mi" "250m") _
            (resource_list-ne_none w "512Mi" "250m" lawful.parses-memory_request
              lawful.parses-cpu_request)
            (λ r. with_gpus-ne_none w (record { limits = l; requests = r })))

  preloader_container-ne_none : (w : GpuWorkload K) → preloader_container w ≢ none
  unfolding preloader_container
  preloader_container-ne_none w =
      bind-ne_none (resource_list w "2Gi" "2") _
        (resource_list-ne_none w "2Gi" "2" lawful.parses-preload_memory_limit
          lawful.parses-preload_cpu_limit)
        (λ _.
          bind-ne_none (resource_list w "512Mi" "500m") _
            (resource_list-ne_none w "512Mi" "500m" lawful.parses-memory_request
              lawful.parses-preload_cpu_request)
            (λ _ e. cc))

  -- If `MustParse` accepts the constants and every decimal number, building the Deployment of a
  -- workload does not panic, whatever its spec.
  pub build_inference_deployment-ne-none :
      (w : GpuWorkload K) (deploy_name : String) → build_inference_deployment w deploy_name ≢ none
  unfolding build_inference_deployment
  build_inference_deployment-ne-none w deploy_name =
      bind-ne_none (resource_requirements w) _ (resource_requirements-ne_none w)
        (λ _. bind-ne_none (preloader_container w) _ (preloader_container-ne_none w) (λ _ e. cc))

module _ {K : Kube} (w : GpuWorkload K) (deploy_name : String) {d : Deployment K}
    (built : build_inference_deployment w deploy_name ≡ some d) where
  -- The parts from which the Deployment is put together.
  pub built_parts :
      (r : ResourceRequirements K) × (p : Container K) × (resource_requirements w ≡ some r)
      × (preloader_container w ≡ some p)
      × (d ≡ inference_deployment w deploy_name r p)
  unfolding build_inference_deployment
  built_parts =
      let (r, hr, e) = bind-eq_some (resource_requirements w) _ built in
      let (p, hp, e') = bind-eq_some (preloader_container w) _ e in (r, p, hr, hp, cc)

  pub built_key :
      object_key d.metadata ≡ record { name = deploy_name; namespace = w.metadata.namespace }
  unfolding inference_deployment
  built_key = rw (built_parts.4) refl

  -- The pods that the Deployment makes carry the labels by which it selects them and those by which
  -- the Service of the workload finds them, and each container of them opens just the ports that
  -- the Service sends to.
  pub built_selectors :
      (svc_name : String)
      → let svc = build_inference_service w svc_name deploy_name in
        Selects d.spec.match_labels d.spec.template.labels
        × Selects svc.spec.selector d.spec.template.labels
        × All
            (λ c. map (λ p. p.container_port) c.ports ≡ map (λ p. p.target_port) svc.spec.ports)
            d.spec.template.spec.containers
  unfolding build_inference_deployment build_inference_service
  built_selectors svc_name = rw (built_parts.4) ((refl, (refl, tt)), (refl, (refl, tt)), (refl, tt))

  requirements-gpus :
      {r : ResourceRequirements K}
      → resource_requirements w ≡ some r
      → (lookup "nvidia.com/gpu" r.limits ≡ gpu_quantity w)
        × (lookup "nvidia.com/gpu" r.requests ≡ gpu_quantity w)
        × (lookup "memory" r.limits ≡ K.must_parse "1Gi")
        × (lookup "cpu" r.limits ≡ K.must_parse "1")
  unfolding resource_requirements
  requirements-gpus h = ground arith

  -- Limits and requests name the same number of GPUs: that of the spec if it is positive, and none
  -- if it is not. The limits of memory and of CPU are "1Gi" and "1" for every workload.
  pub built_gpus :
      All
        (λ c.
          (lookup "nvidia.com/gpu" c.resources.limits ≡ gpu_quantity w)
          × (lookup "nvidia.com/gpu" c.resources.requests ≡ gpu_quantity w)
          × (lookup "memory" c.resources.limits ≡ K.must_parse "1Gi")
          × (lookup "cpu" c.resources.limits ≡ K.must_parse "1"))
        d.spec.template.spec.containers
  unfolding build_inference_deployment
  built_gpus = rw (built_parts.4) (requirements-gpus built_parts.2, tt)

-- The value of an environment variable of a container.
abbrev pub getenv : String → List EnvVar → Option String
getenv name [] = none
getenv name (v ∷ vs) = if v.name == name then some v.value else getenv name vs

-- The workload with other fields that say where its pods may run.
abbrev pub reschedule :
    {K : Kube} → GpuWorkload K → Labels → List K.Toleration → String → GpuWorkload K
reschedule w selector tolerations priority = record w {
  spec = record w.spec {
    node_selector = selector;
    tolerations = tolerations;
    priority_class_name = priority;
  };
}

module _ {K : Kube} (w : GpuWorkload K) (deploy_name : String) where
  -- The node selector, the tolerations and the priority class of a spec have no effect: the
  -- Deployment is the same whatever they are, and its pods have none of them.
  pub built_unscheduled :
      (selector : Labels) (tolerations : List K.Toleration) (priority : String)
      → (build_inference_deployment (reschedule w selector tolerations priority) deploy_name
          ≡ build_inference_deployment w deploy_name)
        × ((d : Deployment K)
            → build_inference_deployment w deploy_name ≡ some d
            → (d.spec.template.spec.node_selector ≡ [])
              × (d.spec.template.spec.tolerations ≡ [])
              × (d.spec.template.spec.priority_class_name ≡ ""))
  unfolding build_inference_deployment
  built_unscheduled selector tolerations priority =
      (refl, λ d built. rw ((built_parts w deploy_name built).4) (refl, refl, refl))

use_gpu_iff :
    (g : ℤ)
    → ((some (use_gpu_of g) ≡ some "false") ↔ (g ≡ pos 0))
      × ((some (use_gpu_of g) ≡ some "true") ↔ (g ≢ pos 0))
unfolding use_gpu_of
use_gpu_iff g = ground (arith, eq_iff "false" "true", eq_iff "true" "false")

module _ {K : Kube} (w : GpuWorkload K) (deploy_name : String) {d : Deployment K}
    (built : build_inference_deployment w deploy_name ≡ some d) where
  -- The environment hands the spec to the inference server without loss: the texts as they are, and
  -- the two numbers in decimal digits from which an integer reader gets them back. USE_GPU is "false"
  -- if the spec asks for 0 GPUs, and "true" for any other number, a negative one included.
  pub built_env :
      All
        (λ c.
          (getenv "MODEL_PATH" c.env ≡ some w.spec.model_name)
          × (getenv "GPU_PARTITION_MODE" c.env ≡ some w.spec.partition_mode)
          × (Option.bind (getenv "TOKEN_QUOTA" c.env) read_int ≡ some w.spec.token_quota)
          × (Option.bind (getenv "KV_CACHE_GB" c.env) read_int ≡ some w.spec.kv_cache_gb)
          × ((getenv "USE_GPU" c.env ≡ some "false") ↔ (w.spec.gpu ≡ pos 0))
          × ((getenv "USE_GPU" c.env ≡ some "true") ↔ (w.spec.gpu ≢ pos 0)))
        d.spec.template.spec.containers
  unfolding build_inference_deployment Option.bind
  built_env = rw ((built_parts w deploy_name built).4) (
    (
      refl,
      refl,
      read_int-sprint_int w.spec.token_quota,
      read_int-sprint_int w.spec.kv_cache_gb,
      (use_gpu_iff w.spec.gpu).0,
      (use_gpu_iff w.spec.gpu).1,
    ),
    tt,
  )
