-- ===== src/Startup/Laws.antt =====
-- The order of the calls that the start makes, and how it ends, for any runtime.
use aperture_ai.Prelude.{
  ℕ, suc, any, String, Bool, true, false, Option, some, none, List, [], ◌∷◌, ◌≡◌, ◌⊎◌, arith,
}
use aperture_ai.Startup.{
  Runtime, Flags, Options, default_flags, options_of, controller, scheme_builder, Ending, finished,
  exited, panicked, Flow, next, stop, init, run_manager, main,
}

-- A call of the libraries.
pub data Call (R : Runtime) : Type 0 where
  adding_client_go_types : Call R
  adding_types : R.SchemeBuilder → Call R
  parsing_flags : Flags → Call R
  getting_config : Call R
  making_manager : R.Config → Options → Call R
  completing : R.Builder → Call R
  completing_webhook : R.WebhookBuilder → Call R
  adding_healthz_check : R.Manager → String → Call R
  adding_readyz_check : R.Manager → String → Call R
  starting : R.Manager → Call R

-- The calls that were made, each with whether it succeeded, the newest first.
abbrev pub Trace : Runtime → Type 0
Trace R = List (Call R × Bool)

abbrev succeeds : {A : Type 0} → Option A → Bool
succeeds none = false
succeeds (some _) = true

abbrev noted :
    {R : Runtime} {A : Type 0}
    → Call R
    → (R.State → Option A × R.State)
    → R.State × Trace R
    → Option A × (R.State × Trace R)
noted c call (s, t) = let (r, s') = call s in (r, (s', (c, succeeds r) ∷ t))

-- The runtime, which also writes down its calls.
abbrev pub traced : Runtime → Runtime
traced R = record R {
  State = R.State × Trace R;
  add_client_go_types = noted adding_client_go_types R.add_client_go_types;
  add_to_scheme = λ b. noted (adding_types b) (R.add_to_scheme b);
  complete_webhook = λ b. noted (completing_webhook b) (R.complete_webhook b);
  parse_flags = λ f. noted (parsing_flags f) (R.parse_flags f);
  get_config = noted getting_config R.get_config;
  new_manager = λ c o. noted (making_manager c o) (R.new_manager c o);
  complete = λ b. noted (completing b) (R.complete b);
  add_healthz_check = λ m n. noted (adding_healthz_check m n) (R.add_healthz_check m n);
  add_readyz_check = λ m n. noted (adding_readyz_check m n) (R.add_readyz_check m n);
  start = λ m. noted (starting m) (R.start m);
}

-- The call would register the validation of workloads.
abbrev pub completes_webhook : {R : Runtime} → Call R → Bool
completes_webhook (completing_webhook _) = true
completes_webhook _ = false

-- The place of a call in the order of the start.
abbrev pub place : {R : Runtime} → Call R → ℕ
place adding_client_go_types = 0
place (adding_types _) = 1
place (parsing_flags _) = 2
place getting_config = 3
place (making_manager _ _) = 4
place (completing _) = 5
place (adding_healthz_check _ _) = 6
place (adding_readyz_check _ _) = 7
place (starting _) = 8
place (completing_webhook _) = 9

-- How the process ends if this call fails.
abbrev pub failure : (R : Runtime) → Call R → Ending
failure R adding_client_go_types = panicked
failure R (adding_types _) = panicked
failure R (parsing_flags _) = exited R.parse_code
failure R getting_config = exited R.config_code
failure R _ = exited 1

-- A call stands at its place if just the calls that come before it were made, all with success.
abbrev pub InOrder : {R : Runtime} → Trace R → ℕ → Type 0
InOrder [] n = n ≡ 0
InOrder ((c, ok) ∷ t) n = (n ≡ suc (place c)) × (ok ≡ true) × InOrder t (place c)

-- The last call failed and ended the process.
abbrev pub StoppedBy : (R : Runtime) → Ending → Trace R → Type 0
StoppedBy R e [] = ⊥
StoppedBy R e ((c, ok) ∷ t) = (ok ≡ false) × (e ≡ failure R c) × InOrder t (place c)

-- The manager was set up for one set of options, behind the calls `t`, and run to its end.
abbrev pub RanManager : (R : Runtime) → Flags → Trace R → Trace R → Type 0
RanManager R flags t t' =
    (config : R.Config) × (mgr : R.Manager) × (t'
      ≡ (starting mgr, true)
        ∷ (adding_readyz_check mgr "readyz", true)
        ∷ (adding_healthz_check mgr "healthz", true)
        ∷ (completing (controller R mgr), true)
        ∷ (making_manager config (options_of flags), true)
        ∷ (getting_config, true)
        ∷ t)

abbrev pub RanToEnd : (R : Runtime) → Trace R → Type 0
RanToEnd R t' =
    (flags : Flags) × RanManager R flags
      ((parsing_flags default_flags, true)
        ∷ (adding_types (scheme_builder R), true)
        ∷ (adding_client_go_types, true)
        ∷ [])
      t'

abbrev Ran : (R : Runtime) → Flags → Trace R → Flow (Unit {0}) → Trace R → Type 0
Ran R flags t (next _) t' = RanManager R flags t t'
Ran R flags t (stop e) t' = StoppedBy R e t'

module _ (R : Runtime) where
  run_manager_lem :
      (flags : Flags) (s : R.State) (t : Trace R)
      → InOrder t 3
      → Ran R flags t
          (run_manager (traced R) flags (s, t)).0
          (run_manager (traced R) flags (s, t)).1.1
  unfolding run_manager
  run_manager_lem flags s t h = grind arith

  -- The process makes its calls in one order and stops at the first that fails, which decides how it
  -- ends; otherwise it has run the manager, set up with the options of the command line, and ends as
  -- the manager returns.
  pub main_order :
      (s : R.State)
      → let (e, (s', t)) = main (traced R) (s, []) in
        ((e ≡ finished) × RanToEnd R t) ⊎ StoppedBy R e t
  unfolding main init
  main_order s = grind arith

  -- Whatever the libraries answer, the start never asks for the completion of the validating webhook.
  pub main_unvalidated :
      (s : R.State) → any (λ c. completes_webhook c.0) (main (traced R) (s, [])).1.1 ≡ false
  unfolding main init run_manager
  main_unvalidated s = grind arith
