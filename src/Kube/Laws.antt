-- ===== src/Kube/Laws.antt =====
-- The documented behaviour of the pure library functions that the operator relies on, as
-- hypotheses of the theorems that need it.
use aperture_ai.Prelude.{String, none, ◌≡◌, ◌≢◌, true, false, List, pos, ℕ}
use aperture_ai.Prelude.Format.{sprint_int}
use aperture_ai.Kube.{Kube}

-- `IsNotFound` reports false of a nil error.
pub record NotFoundIsLawful (K : Kube) : Type 0 where
  pub not_found-nil : K.is_not_found none ≡ false

-- A finalizer is there after it is added and gone after it is removed.
pub record FinalizersAreLawful (K : Kube) : Type 0 where
  pub contains-add :
      (l : List String) (f : String) → K.contains_finalizer (K.add_finalizer l f) f ≡ true
  pub contains-remove :
      (l : List String) (f : String) → K.contains_finalizer (K.remove_finalizer l f) f ≡ false

-- `MustParse` accepts the quantities that the operator writes out, and every decimal number.
pub record QuantitiesAreLawful (K : Kube) : Type 0 where
  pub parses-memory_limit : K.must_parse "1Gi" ≢ none
  pub parses-cpu_limit : K.must_parse "1" ≢ none
  pub parses-memory_request : K.must_parse "512Mi" ≢ none
  pub parses-cpu_request : K.must_parse "250m" ≢ none
  pub parses-preload_memory_limit : K.must_parse "2Gi" ≢ none
  pub parses-preload_cpu_limit : K.must_parse "2" ≢ none
  pub parses-preload_cpu_request : K.must_parse "500m" ≢ none
  pub parses-number : (n : ℕ) → K.must_parse (sprint_int (pos n)) ≢ none
