-- ===== src/V1alpha1/Webhook/Laws.antt =====
-- What the validating webhook accepts and what it reports, for every workload.
use mathlib.Core.List.{map-append, append-nil}
use aperture_ai.Prelude.{
  String, Bool, true, false, none, List, [], ◌∷◌, ◌++◌, map, ℤ, pos, ◌≤ℤ◌, ◌==◌, eq_iff, ◌≡◌, refl,
  sym, ap, ◌∙◌, ◌≢◌, ◌↔◌, ◌⊎◌, arith, length, if◌then◌else◌, ltb, leb_ℤ, ltb_ℤ, not, ◌&&◌, ◌||◌,
}
use aperture_ai.Kube.{Kube}
use aperture_ai.V1alpha1.{GpuWorkload, GpuWorkloadSpec}
use aperture_ai.V1alpha1.Webhook.{
  Field, all_errs, rule_model_name, rule_gpu, rule_partition_mode, rule_quota_min, rule_quota_max,
  rule_kv_cache, validate_create,
}

-- The specs that a workload may have: the rules, read as ranges.
pub record IsValidSpec {K : Kube} (s : GpuWorkloadSpec K) : Type 0 where
  pub model_named : s.model_name ≢ ""
  pub gpu_in_range : (pos 0 ≤ℤ s.gpu) × (s.gpu ≤ℤ pos 8)
  pub mode_known : (s.partition_mode ≡ "MPS") ⊎ (s.partition_mode ≡ "MIG")
  pub quota_in_range : (pos 1 ≤ℤ s.token_quota) × (s.token_quota ≤ℤ pos 100000)
  pub cache_positive : pos 1 ≤ℤ s.kv_cache_gb

module _ (F : Field) (K : Kube) (r : GpuWorkload K) where
  all_errs-eq_nil : IsValidSpec r.spec → all_errs F K r ≡ []
  unfolding all_errs
  all_errs-eq_nil v = ground (
    arith,
    eq_iff r.spec.model_name "",
    eq_iff r.spec.partition_mode "MPS",
    eq_iff r.spec.partition_mode "MIG",
  )

  IsValidSpec-of_no_errs : all_errs F K r ≡ [] → IsValidSpec r.spec
  unfolding all_errs
  IsValidSpec-of_no_errs h = ground (
    arith,
    eq_iff r.spec.model_name "",
    eq_iff r.spec.partition_mode "MPS",
    eq_iff r.spec.partition_mode "MIG",
  )

-- `field.Error` keeps the path of its field, whichever function made it.
pub record PathsAreKept (F : Field) (path_of : F.Error → F.FieldPath) : Type 0 where
  pub path-required : (p : F.FieldPath) (text : String) → path_of (F.required p text) ≡ p
  pub path-invalid : (p : F.FieldPath) (n : ℤ) (text : String) → path_of (F.invalid p n text) ≡ p
  pub path-not_supported :
      (p : F.FieldPath) (mode : String) (modes : List String)
      → path_of (F.not_supported p mode modes) ≡ p

-- The name of a field whose value is out of its range.
abbrev unless : Bool → String → List String
unless true name = []
unless false name = name ∷ []

append-unless_once :
    (a b : Bool) (names : List String) (name : String)
    → (a ≡ true) ⊎ (b ≡ true)
    → (names ++ unless a name) ++ unless b name ≡ names ++ unless (b && a) name
append-unless_once true true names name h = append-nil (names ++ [])
append-unless_once true false names name h = ap (λ l. l ++ (name ∷ [])) (append-nil names)
append-unless_once false true names name h = append-nil (names ++ (name ∷ []))
append-unless_once false false names name h = ground arith

-- The names of the validated fields that are out of their range, in the order of the rules.
abbrev pub invalid_fields : {K : Kube} → GpuWorkloadSpec K → List String
invalid_fields s =
    (((unless (not (s.model_name == "")) "modelName"
          ++ unless (leb_ℤ (pos 0) s.gpu && leb_ℤ s.gpu (pos 8)) "gpu")
        ++ unless (s.partition_mode == "MPS" || s.partition_mode == "MIG") "partitionMode")
      ++ unless (leb_ℤ (pos 1) s.token_quota && leb_ℤ s.token_quota (pos 100000)) "tokenQuota")
    ++ unless (leb_ℤ (pos 1) s.kv_cache_gb) "kvCacheGB"

module _ (F : Field) (K : Kube) (path_of : F.Error → F.FieldPath) (kept : PathsAreKept F path_of)
    (r : GpuWorkload K) where
  -- The paths of the named fields of the spec.
  abbrev pub paths : List String → List F.FieldPath
  paths names = map (λ name. F.child (F.new_path "spec") name) names

  -- A rule that adds an error adds the name of its field.
  map-append_if :
      (b : Bool) (errs : List F.Error) (x : F.Error) (names : List String) (name : String)
      → map path_of errs ≡ paths names
      → path_of x ≡ F.child (F.new_path "spec") name
      → map path_of (if b then errs ++ (x ∷ []) else errs) ≡ paths (names ++ unless (not b) name)
  map-append_if true errs x names name known here =
      map-append path_of errs (x ∷ [])
      ∙ ((λ i. known i ++ (here i ∷ []))
          ∙ sym (map-append (λ n. F.child (F.new_path "spec") n) names (name ∷ [])))
  map-append_if false errs x names name known here = known ∙ ap paths (sym (append-nil names))

  module _ (errs : List F.Error) (names : List String)
      (known : map path_of errs ≡ paths names) where
    map-rule_model_name :
        map path_of (rule_model_name F K r errs)
        ≡ paths (names ++ unless (not (r.spec.model_name == "")) "modelName")
    unfolding rule_model_name
    map-rule_model_name =
        map-append_if _ errs _ names "modelName" known (kept.path-required _ _)
        ∙ ap (λ b. paths (names ++ unless b "modelName")) (ground arith)

    map-rule_gpu :
        map path_of (rule_gpu F K r errs)
        ≡ paths (names ++ unless (leb_ℤ (pos 0) r.spec.gpu && leb_ℤ r.spec.gpu (pos 8)) "gpu")
    unfolding rule_gpu
    map-rule_gpu =
        map-append_if _ errs _ names "gpu" known (kept.path-invalid _ _ _)
        ∙ ap (λ b. paths (names ++ unless b "gpu")) (ground arith)

    map-rule_partition_mode :
        map path_of (rule_partition_mode F K r errs)
        ≡ paths (
            names
            ++ unless
                (r.spec.partition_mode == "MPS" || r.spec.partition_mode == "MIG")
                "partitionMode")
    unfolding rule_partition_mode
    map-rule_partition_mode =
        map-append_if _ errs _ names "partitionMode" known (kept.path-not_supported _ _ _)
        ∙ ap (λ b. paths (names ++ unless b "partitionMode")) (ground arith)

    map-rule_kv_cache :
        map path_of (rule_kv_cache F K r errs)
        ≡ paths (names ++ unless (leb_ℤ (pos 1) r.spec.kv_cache_gb) "kvCacheGB")
    unfolding rule_kv_cache
    map-rule_kv_cache =
        map-append_if _ errs _ names "kvCacheGB" known (kept.path-invalid _ _ _)
        ∙ ap (λ b. paths (names ++ unless b "kvCacheGB")) (ground arith)

    -- A quota cannot be below and above its range at once.
    map-rule_quota :
        map path_of (rule_quota_min F K r (rule_quota_max F K r errs))
        ≡ paths (
            names
            ++ unless
                (leb_ℤ (pos 1) r.spec.token_quota && leb_ℤ r.spec.token_quota (pos 100000))
                "tokenQuota")
    unfolding rule_quota_min rule_quota_max
    map-rule_quota =
        let high = ltb_ℤ (pos 100000) r.spec.token_quota in
        let low = ltb_ℤ r.spec.token_quota (pos 1) in
        let first = map-append_if high errs _ names "tokenQuota" known (kept.path-invalid _ _ _) in
        map-append_if low _ _ (names ++ unless (not high) "tokenQuota") "tokenQuota" first
          (kept.path-invalid _ _ _)
        ∙ ap paths (
            append-unless_once (not high) (not low) names "tokenQuota" (ground arith)
            ∙ ap (λ b. names ++ unless b "tokenQuota") (ground arith))

  -- The validator does not stop at the first problem: the list of errors that `validate_create`
  -- aggregates has exactly one error for each field that is out of its range, in the order of the
  -- rules, and that error stands at the path of that field. An error keeps the path that it is made
  -- with, as documented.
  pub all_errs_fields : map path_of (all_errs F K r) ≡ paths (invalid_fields r.spec)
  unfolding all_errs
  all_errs_fields = map-rule_kv_cache _ _ (
      map-rule_quota _ _
        (map-rule_partition_mode _ _ (map-rule_gpu _ _ (map-rule_model_name [] [] refl))))

module _ (F : Field) (K : Kube) (r : GpuWorkload K) where
  length-eq_nil : (l : List F.Error) → ltb 0 (length l) ≡ false → l ≡ []
  length-eq_nil [] h = refl
  length-eq_nil (x ∷ l) h = ground arith

  -- A creation is accepted exactly when the spec is valid, and there are never warnings.
  pub validate_create_iff :
      (((validate_create F K r).1 ≡ none) ↔ IsValidSpec r.spec) × ((validate_create F K r).0 ≡ [])
  unfolding validate_create
  validate_create_iff = (
    (
      λ h. IsValidSpec-of_no_errs F K r (length-eq_nil (all_errs F K r) (ground arith)),
      λ v. rw (all_errs-eq_nil F K r v),
    ),
    ground arith,
  )
