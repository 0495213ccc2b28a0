-- ===== src/Controller/Reconcile/Errors.antt =====
-- Which errors a run of `Reconcile` may pass over, and what becomes of the others, for any client.
use aperture_ai.Prelude.{◌≡◌, [], ◌∷◌, All, some, none, Option, if◌then◌else◌}
use aperture_ai.Kube.{Kube}
use aperture_ai.Client.{Client, Result, ok, err}
use aperture_ai.Client.Trace.{
  Event, Trace, got_workload, got_deployment, got_service, created_deployment, created_service,
  updated_workload, updated_status, deleted_deployment, deleted_service,
}
use aperture_ai.Controller.Flow.{
  Flow, next, return, panic, Action, Error, api, wrapped, Outcome, returned, panicked,
}

-- The error of an answer, if it is one that a run may not pass over. NotFound of a lookup or a deletion is
-- none, and neither is a failed creation.
abbrev unless_missing : (K : Kube) → K.Error → Option K.Error
unless_missing K e = if K.is_not_found (some e) then none else some e

abbrev failure_of : (K : Kube) {A : Type 0} → Result K.Error A → Option K.Error
failure_of K (ok a) = none
failure_of K (err e) = unless_missing K e

abbrev deletion_failure : (K : Kube) → Option K.Error → Option K.Error
deletion_failure K none = none
deletion_failure K (some e) = unless_missing K e

abbrev pub failure : {K : Kube} → Event K → Option K.Error
failure {K} (got_workload k r) = failure_of K r
failure {K} (got_deployment k r) = failure_of K r
failure {K} (got_service k r) = failure_of K r
failure (created_deployment d e) = none
failure (created_service v e) = none
failure (updated_workload u e) = e
failure (updated_status u e) = e
failure {K} (deleted_deployment d e) = deletion_failure K e
failure {K} (deleted_service v e) = deletion_failure K e

abbrev pub HasNoFailure : {K : Kube} → Event K → Type 0
HasNoFailure e = failure e ≡ none

-- The error that a run returns is the one of the API server, as it is or wrapped by a text.
abbrev pub ComesFrom : {K : Kube} → Option (Error K) → K.Error → Type 0
ComesFrom none e = ⊥
ComesFrom (some (api e')) e = e' ≡ e
ComesFrom (some (wrapped text e')) e = e' ≡ e

abbrev pub Passes : {K : Kube} → Option K.Error → Option (Error K) → Type 0
Passes none x = Unit
Passes (some e) x = ComesFrom x e

-- No answer but the last is a failure, and if that is one, the run returns its error.
abbrev pub Ends : {K : Kube} → Option (Error K) → Trace K → Type 0
Ends x [] = Unit
Ends x (e ∷ t) = All HasNoFailure t × Passes (failure e) x

abbrev pub ReturnsFailure : {K : Kube} → Outcome K → Trace K → Type 0
ReturnsFailure (returned x) t = Ends x.error t
ReturnsFailure panicked t = All HasNoFailure t

abbrev Sound : {K : Kube} {A : Type 0} → Flow K A → Trace K → Type 0
Sound (next a) t = All HasNoFailure t
Sound (return x) t = Ends x.error t
Sound panic t = All HasNoFailure t

-- An action that is run behind answers of which none is a failure.
abbrev IsSound : {K : Kube} {S A : Type 0} → Action K (S × Trace K) A → Type 0
IsSound {K} {S} m = (st : S × Trace K) → All HasNoFailure st.1 → Sound (m st).0 (m st).1.1
