-- ===== src/V1alpha1/Webhook.antt =====
-- The validating webhook (operator/api/v1alpha1/gpuworkload_webhook.go).
-- The package field of apimachinery is a parameter. Its calls of the logger change no state and are
-- left out. A validator returns its warnings and its error.
pub mod Laws
use aperture_ai.Prelude.{
  String, Bool, Option, none, some, List, [], ◌∷◌, ◌++◌, ℕ, ℤ, pos, ◌<>◌, ◌==◌, ◌&&◌, ◌||◌, not,
  ltb, length, ltb_ℤ, if◌then◌else◌,
}
use aperture_ai.Prelude.Format.{quote}
use aperture_ai.Kube.{Kube}
use aperture_ai.V1alpha1.{GpuWorkload}

-- k8s.io/apimachinery/pkg/util/validation/field. `aggregate` is the text of the error that
-- `ErrorList.ToAggregate` makes. `is_print` is the table of `unicode.IsPrint`, which `%q` consults.
pub record Field : Type 1 where
  pub FieldPath : Type 0
  pub new_path : String → FieldPath
  pub child : FieldPath → String → FieldPath
  pub Error : Type 0
  pub required : FieldPath → String → Error
  pub invalid : FieldPath → ℤ → String → Error
  pub not_supported : FieldPath → String → List String → Error
  pub aggregate : List Error → String
  pub is_print : ℕ → Bool

-- The results of a validator: admission.Warnings and an error, here its text.
abbrev pub Verdict : Type 0
Verdict = List String × Option String

module _ (F : Field) (K : Kube) where
  abbrev spec_path : F.FieldPath
  spec_path = F.new_path "spec"

  -- Rule 1 adds an error to the list.
  pub rule_model_name : GpuWorkload K → List F.Error → List F.Error
  rule_model_name r errs =
      if r.spec.model_name == ""
      then errs
        ++ (F.required (F.child spec_path "modelName") "modelName is required and must not be empty"
            ∷ [])
      else errs

  pub rule_gpu : GpuWorkload K → List F.Error → List F.Error
  rule_gpu r errs =
      if ltb_ℤ r.spec.gpu (pos 0) || ltb_ℤ (pos 8) r.spec.gpu
      then errs
        ++ (F.invalid (F.child spec_path "gpu") r.spec.gpu
              "gpu count must be between 0 and 8 (inclusive)"
            ∷ [])
      else errs

  pub rule_partition_mode : GpuWorkload K → List F.Error → List F.Error
  rule_partition_mode r errs =
      if not (r.spec.partition_mode == "MPS") && not (r.spec.partition_mode == "MIG")
      then errs
        ++ (F.not_supported (F.child spec_path "partitionMode") r.spec.partition_mode
              ("MPS" ∷ "MIG" ∷ [])
            ∷ [])
      else errs

  pub rule_quota_max : GpuWorkload K → List F.Error → List F.Error
  rule_quota_max r errs =
      if ltb_ℤ (pos 100000) r.spec.token_quota
      then errs
        ++ (F.invalid (F.child spec_path "tokenQuota") r.spec.token_quota
              "tokenQuota must be ≤ 100000"
            ∷ [])
      else errs

  pub rule_quota_min : GpuWorkload K → List F.Error → List F.Error
  rule_quota_min r errs =
      if ltb_ℤ r.spec.token_quota (pos 1)
      then errs
        ++ (F.invalid (F.child spec_path "tokenQuota") r.spec.token_quota "tokenQuota must be ≥ 1"
            ∷ [])
      else errs

  pub rule_kv_cache : GpuWorkload K → List F.Error → List F.Error
  rule_kv_cache r errs =
      if ltb_ℤ r.spec.kv_cache_gb (pos 1)
      then errs
        ++ (F.invalid (F.child spec_path "kvCacheGB") r.spec.kv_cache_gb "kvCacheGB must be ≥ 1"
            ∷ [])
      else errs

  -- `allErrs`, as it stands after the six rules.
  pub all_errs : GpuWorkload K → List F.Error
  unfolding rule_model_name rule_gpu rule_partition_mode rule_quota_max rule_quota_min rule_kv_cache
  all_errs r = rule_kv_cache r (
      rule_quota_min r
        (rule_quota_max r (rule_partition_mode r (rule_gpu r (rule_model_name r [])))))

  unfoldable pub validate_create : GpuWorkload K → Verdict
  unfolding all_errs
  validate_create r =
      let errs = all_errs r in
      if ltb 0 (length errs)
      then (
        [],
        some (
            "validation failed for GPUWorkload "
            <> (quote F.is_print r.metadata.name <> (": " <> F.aggregate errs))),
      )
      else ([], none)

  -- `old` is any runtime.Object.
  unfoldable pub validate_update : {Old : Type 0} → GpuWorkload K → Old → Verdict
  unfolding validate_create
  validate_update r old = validate_create r

  unfoldable pub validate_delete : GpuWorkload K → Verdict
  validate_delete r = ([], none)
