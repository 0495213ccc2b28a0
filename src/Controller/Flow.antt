-- ===== src/Controller/Flow.antt =====
-- How a Go function of the reconciler runs: it goes on with a value, it returns early with a
-- `ctrl.Result` and an error, or it panics. State that was written before stays written.
use aperture_ai.Prelude.{String, Bool, false, Option, ℕ, ◌<>◌}
use aperture_ai.Kube.{Kube}

-- ctrl.Result
pub record CtrlResult : Type 0 where
  pub requeue : Bool
  pub requeue_after : ℕ

abbrev pub empty_result : CtrlResult
empty_result = record { requeue = false; requeue_after = 0 }

-- A Go error: one that a library call returned, or one that `fmt.Errorf` wraps round such a one by a
-- final `: %w`, with the text before that.
pub data Error (K : Kube) : Type 0 where
  api : K.Error → Error K
  wrapped : String → K.Error → Error K

-- The method `Error`.
abbrev pub message_of : {K : Kube} → Error K → String
message_of {K} (api e) = K.error_text e
message_of {K} (wrapped text e) = text <> (": " <> K.error_text e)

-- What `Reconcile` returns.
pub record Exit (K : Kube) : Type 0 where
  pub result : CtrlResult
  pub error : Option (Error K)

abbrev pub exit : {K : Kube} → CtrlResult → Option (Error K) → Exit K
exit r e = record { result = r; error = e }

pub data Flow (K : Kube) (A : Type 0) : Type 0 where
  next : A → Flow K A
  return : Exit K → Flow K A
  panic : Flow K A

abbrev pub Action : Kube → Type 0 → Type 0 → Type 0
Action K S A = S → Flow K A × S

module _ {K : Kube} {S A B : Type 0} where
  abbrev pub continue : Flow K A → (A → Action K S B) → Action K S B
  continue (next a) f s = f a s
  continue (return x) f s = (return x, s)
  continue panic f s = (panic, s)

  infixl 10 ◌>>=◌
  abbrev pub ◌>>=◌ : Action K S A → (A → Action K S B) → Action K S B
  ◌>>=◌ m f s = let (r, s') = m s in continue r f s'

infixl 10 ◌>>◌
abbrev pub ◌>>◌ : {K : Kube} {S B : Type 0} → Action K S (Unit {0}) → Action K S B → Action K S B
m >> n = m >>= λ _. n

-- What a call of `Reconcile` comes to.
pub data Outcome (K : Kube) : Type 0 where
  returned : Exit K → Outcome K
  panicked : Outcome K

abbrev pub outcome : {K : Kube} → Flow K (Exit K) → Outcome K
outcome (next x) = returned x
outcome (return x) = returned x
outcome panic = panicked
