-- ===== src/Tests/Webhook.antt =====
-- The webhook at the sample workload, as in operator/api/v1alpha1/gpuworkload_webhook_test.go.
use aperture_ai.Prelude.{String, ◌≡◌, refl, ◌↔◌, none, [], ◌∷◌, map, pos, negsuc}
use aperture_ai.V1alpha1.{GpuWorkload}
use aperture_ai.V1alpha1.Webhook.{all_errs, validate_create}
use aperture_ai.V1alpha1.Webhook.Laws.{
  IsValidSpec, PathsAreKept, all_errs_fields, validate_create_iff,
}
use aperture_ai.Tests.Toy.{toy, toy_field, workload}

abbrev sample : GpuWorkload toy
sample = workload [] none ""

abbrev invalid : GpuWorkload toy
invalid = record sample {
  spec = record sample.spec {
    model_name = "";
    gpu = negsuc 0;
    partition_mode = "INVALID";
    token_quota = pos 200000;
    kv_cache_gb = pos 0;
  };
}

sample_accepted : validate_create toy_field toy sample ≡ ([], none)
unfolding validate_create
sample_accepted = refl

-- An error of the sample package is a path with a text.
toy-PathsAreKept : PathsAreKept toy_field (λ e. e.0)
toy-PathsAreKept = record {
  path-required = λ p text. refl;
  path-invalid = λ p n text. refl;
  path-not_supported = λ p mode modes. refl;
}

-- All five fields of this spec are out of their range.
all_errs_fields_example :
    map (λ (e : String × String). e.0) (all_errs toy_field toy invalid)
    ≡ "spec.modelName" ∷ "spec.gpu" ∷ "spec.partitionMode" ∷ "spec.tokenQuota" ∷ "spec.kvCacheGB"
      ∷ []
all_errs_fields_example = all_errs_fields toy_field toy (λ e. e.0) toy-PathsAreKept invalid

validate_create_iff_example :
    (((validate_create toy_field toy sample).1 ≡ none) ↔ IsValidSpec sample.spec)
    × ((validate_create toy_field toy sample).0 ≡ [])
validate_create_iff_example = validate_create_iff toy_field toy sample
