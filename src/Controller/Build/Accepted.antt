-- ===== src/Controller/Build/Accepted.antt =====
-- What is built for the workloads that the webhook accepts.
use aperture_ai.Prelude.{
  String, ◌≡◌, sym, ◌∙◌, ◌↔◌, none, some, All, List, [], ◌∷◌, arith, pos, ltb_ℤ, Bool-cases, inl,
  inr,
}
use aperture_ai.Prelude.Dict.{lookup}
use aperture_ai.Kube.{Kube}
use aperture_ai.Kube.Laws.{QuantitiesAreLawful}
use aperture_ai.Kube.Objects.{Deployment}
use aperture_ai.V1alpha1.{GpuWorkload}
use aperture_ai.V1alpha1.Webhook.{Field, validate_create}
use aperture_ai.V1alpha1.Webhook.Laws.{IsValidSpec, validate_create_iff}
use aperture_ai.Controller.Build.{build_inference_deployment}
use aperture_ai.Controller.Build.Laws.{getenv, gpu_quantity, built_gpus, built_env, parses-gpu}

-- From two facts of each element to a third.
All-join :
    {A : Type 0} {P Q R : A → Type 0}
    → ((a : A) → P a → Q a → R a)
    → (l : List A) → All P l
    → All Q l
    → All R l
All-join f [] p q = tt
All-join f (a ∷ l) (p, ps) (q, qs) = (f a p q, All-join f l ps qs)

module _ {K : Kube} (quantities : QuantitiesAreLawful K) (w : GpuWorkload K)
    (valid : IsValidSpec w.spec) where
  gpu_quantity-none : (w.spec.gpu ≡ pos 0) ↔ (gpu_quantity w ≡ none)
  gpu_quantity-none =
      let (low, high) = valid.gpu_in_range in
      elim (Bool-cases (ltb_ℤ (pos 0) w.spec.gpu)) [
        | inl positive ↦ (
          λ e. ground arith,
          λ e. absurd (parses-gpu quantities w.spec.gpu positive (rw positive at e)),
        )
        | inr zero_or_less ↦ (λ e. rw zero_or_less, λ e. ground arith)
      ]

module _ {K : Kube} (quantities : QuantitiesAreLawful K) (F : Field) (w : GpuWorkload K)
    (deploy_name : String) {d : Deployment K}
    (built : build_inference_deployment w deploy_name ≡ some d) where
  -- For a spec that the webhook accepts, the inference server is told to use GPUs just when its
  -- container is given any: USE_GPU is "false" exactly when the limits name no GPUs. (It takes a
  -- positive decimal number to be a quantity.)
  pub built_accepted :
      (validate_create F K w).1 ≡ none
      → All
          (λ c.
            (getenv "USE_GPU" c.env ≡ some "false")
            ↔ (lookup "nvidia.com/gpu" c.resources.limits ≡ none))
          d.spec.template.spec.containers
  built_accepted accepted =
      let valid = (validate_create_iff F K w).0.0 accepted in
      All-join
        (λ c env gpus.
          let text = env.4 in
          let quantity = gpus.0 in
          let given = gpu_quantity-none quantities w valid in
          (λ e. quantity ∙ given.0 (text.0 e), λ e. text.1 (given.1 (sym quantity ∙ e))))
        d.spec.template.spec.containers (built_env w deploy_name built)
        (built_gpus w deploy_name built)
