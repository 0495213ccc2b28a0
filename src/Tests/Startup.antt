-- ===== src/Tests/Startup.antt =====
-- The start on a runtime whose calls succeed a given number of times and fail from then on.
use aperture_ai.Prelude.{
  any, ◌++◌, false, ℕ, zero, suc, Option, some, none, [], List, ◌∷◌, ◌≡◌, refl, ◌⊎◌, String,
}
use aperture_ai.V1alpha1.{GroupVersion, ApiType}
use aperture_ai.Startup.{Runtime, finished, exited, Kind, main}
use aperture_ai.Startup.Laws.{
  traced, RanToEnd, StoppedBy, main_order, main_unvalidated, completes_webhook,
}

abbrev spend : {A : Type 0} → A → ℕ → Option A × ℕ
spend a zero = (none, zero)
spend a (suc n) = (some a, n)

abbrev budget_runtime : Runtime
budget_runtime = record {
  State = ℕ;
  Config = Unit {0};
  Manager = String;
  Builder = List Kind;
  add_client_go_types = spend tt;
  SchemeBuilder = GroupVersion × List ApiType;
  WebhookBuilder = List ApiType;
  new_scheme_builder = λ g. (g, []);
  register = λ (g, l) types. (g, types ++ l);
  add_to_scheme = λ b. spend tt;
  new_webhook = λ m. [];
  webhook_for = λ b t. t ∷ b;
  complete_webhook = λ b. spend tt;
  parse_flags = λ f. spend f;
  parse_code = 2;
  get_config = spend tt;
  config_code = 1;
  new_manager = λ c o. spend "manager";
  new_controller = λ m. [];
  for_kind = λ b k. k ∷ b;
  owns = λ b k. k ∷ b;
  complete = λ b. spend tt;
  add_healthz_check = λ m n. spend tt;
  add_readyz_check = λ m n. spend tt;
  start = λ m. spend tt;
}

runs_to_end : (main budget_runtime 9).0 ≡ finished
unfolding main
runs_to_end = refl

stops_at_flags : (main budget_runtime 2).0 ≡ exited 2
unfolding main
stops_at_flags = refl

stops_at_controller : (main budget_runtime 5).0 ≡ exited 1
unfolding main
stops_at_controller = refl

main_order_example :
    let (e, (s', t)) = main (traced budget_runtime) (5, []) in
    ((e ≡ finished) × RanToEnd budget_runtime t) ⊎ StoppedBy budget_runtime e t
main_order_example = main_order budget_runtime 5

main_unvalidated_example :
    any (λ c. completes_webhook c.0) (main (traced budget_runtime) (9, [])).1.1 ≡ false
main_unvalidated_example = main_unvalidated budget_runtime 9
