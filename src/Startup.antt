-- ===== src/Startup.antt =====
-- The start of the operator's process: operator/main.go, and `SetupWithManager` of
-- operator/controllers/gpuworkload_controller.go. Controller-runtime, the flag package and the
-- registration of types with a scheme are parameters (`Runtime`).
pub mod Laws
use aperture_ai.Prelude.{List, String, Bool, false, Option, some, none, ℕ}
use aperture_ai.V1alpha1.{GroupVersion, group_version, ApiType, gpu_workload, registered_types}

-- The variables that the command line sets.
pub record Flags : Type 0 where
  pub metrics_addr : String
  pub probe_addr : String
  pub enable_leader_election : Bool

abbrev pub default_flags : Flags
default_flags = record {
  metrics_addr = ":8080";
  probe_addr = ":8081";
  enable_leader_election = false;
}

-- ctrl.Options, the fields that `main` sets.
pub record Options : Type 0 where
  pub metrics_bind_address : String
  pub health_probe_bind_address : String
  pub leader_election : Bool
  pub leader_election_id : String
  pub webhook_port : ℕ

-- The types of the objects that a controller watches.
pub data Kind : Type 0 where
  api : ApiType → Kind
  deployment : Kind
  service : Kind

-- What the process asks of the libraries. A call answers `none` if it fails.
pub record Runtime : Type 1 where
  pub State : Type 0
  pub Config : Type 0
  pub Manager : Type 0
  pub Builder : Type 0
  pub SchemeBuilder : Type 0
  pub WebhookBuilder : Type 0
  -- clientgoscheme.AddToScheme(scheme)
  pub add_client_go_types : State → Option (Unit {0}) × State
  -- &scheme.Builder{GroupVersion: …}, Register and AddToScheme
  pub new_scheme_builder : GroupVersion → SchemeBuilder
  pub register : SchemeBuilder → List ApiType → SchemeBuilder
  pub add_to_scheme : SchemeBuilder → State → Option (Unit {0}) × State
  -- flag.Parse, ctrl.GetConfigOrDie: they end the process if they fail, with this code
  pub parse_flags : Flags → State → Option Flags × State
  pub parse_code : ℕ
  pub get_config : State → Option Config × State
  pub config_code : ℕ
  pub new_manager : Config → Options → State → Option Manager × State
  -- ctrl.NewControllerManagedBy(mgr), For, Owns and Complete
  pub new_controller : Manager → Builder
  pub for_kind : Builder → Kind → Builder
  pub owns : Builder → Kind → Builder
  pub complete : Builder → State → Option (Unit {0}) × State
  -- ctrl.NewWebhookManagedBy(mgr), For and Complete
  pub new_webhook : Manager → WebhookBuilder
  pub webhook_for : WebhookBuilder → ApiType → WebhookBuilder
  pub complete_webhook : WebhookBuilder → State → Option (Unit {0}) × State
  pub add_healthz_check : Manager → String → State → Option (Unit {0}) × State
  pub add_readyz_check : Manager → String → State → Option (Unit {0}) × State
  -- It returns when the process is told to end.
  pub start : Manager → State → Option (Unit {0}) × State

-- How the process ends.
pub data Ending : Type 0 where
  finished : Ending
  exited : ℕ → Ending
  panicked : Ending

pub data Flow (A : Type 0) : Type 0 where
  next : A → Flow A
  stop : Ending → Flow A

-- `if err != nil { …; os.Exit(…) }`
abbrev pub check : {A : Type 0} → Ending → Option A → Flow A
check e none = stop e
check e (some a) = next a

abbrev pub or_end : {S A : Type 0} → Ending → (S → Option A × S) → S → Flow A × S
or_end e call s = let (r, s') = call s in (check e r, s')

module _ {S A B : Type 0} where
  abbrev pub continue : Flow A → (A → S → Flow B × S) → S → Flow B × S
  continue (next a) f s = f a s
  continue (stop e) f s = (stop e, s)

  infixl 10 ◌>>=◌
  abbrev pub ◌>>=◌ : (S → Flow A × S) → (A → S → Flow B × S) → S → Flow B × S
  ◌>>=◌ m f s = let (r, s') = m s in continue r f s'

infixl 10 ◌>>◌
abbrev pub ◌>>◌ : {S B : Type 0} → (S → Flow (Unit {0}) × S) → (S → Flow B × S) → S → Flow B × S
m >> n = m >>= λ _. n

abbrev pub options_of : Flags → Options
options_of flags = record {
  metrics_bind_address = flags.metrics_addr;
  health_probe_bind_address = flags.probe_addr;
  leader_election = flags.enable_leader_election;
  leader_election_id = "aperture-gpu-operator.aperture.ai";
  webhook_port = 9443;
}

module _ (R : Runtime) where
  -- `SetupWithManager`: what is watched, and its completion.
  abbrev pub controller : R.Manager → R.Builder
  controller mgr =
      R.owns (R.owns (R.for_kind (R.new_controller mgr) (api gpu_workload)) deployment) service

  abbrev pub setup_with_manager : R.Manager → R.State → Option (Unit {0}) × R.State
  setup_with_manager mgr = R.complete (controller mgr)

  -- `SetupWebhookWithManager`, which nothing calls.
  abbrev pub setup_webhook_with_manager : R.Manager → R.State → Option (Unit {0}) × R.State
  setup_webhook_with_manager mgr =
      R.complete_webhook (R.webhook_for (R.new_webhook mgr) gpu_workload)

  -- `SchemeBuilder`, as it is behind the `init` of the API package.
  abbrev pub scheme_builder : R.SchemeBuilder
  scheme_builder = R.register (R.new_scheme_builder group_version) registered_types

  -- `init` of the main package
  unfoldable pub init : R.State → Flow (Unit {0}) × R.State
  init = do or_end panicked R.add_client_go_types; or_end panicked (R.add_to_scheme scheme_builder)

  -- The manager is made, set up and run. Its webhook is commented out.
  unfoldable pub run_manager : Flags → R.State → Flow (Unit {0}) × R.State
  run_manager flags = do
    config ← or_end (exited R.config_code) R.get_config
    mgr ← or_end (exited 1) (R.new_manager config (options_of flags))
    or_end (exited 1) (setup_with_manager mgr)
    or_end (exited 1) (R.add_healthz_check mgr "healthz")
    or_end (exited 1) (R.add_readyz_check mgr "readyz")
    or_end (exited 1) (R.start mgr)

  unfoldable pub main_flow : R.State → Flow (Unit {0}) × R.State
  unfolding init run_manager
  main_flow = do
    init
    flags ← or_end (exited R.parse_code) (R.parse_flags default_flags)
    run_manager flags

  abbrev ending : Flow (Unit {0}) → Ending
  ending (next _) = finished
  ending (stop e) = e

  -- The whole process.
  unfoldable pub main : R.State → Ending × R.State
  unfolding main_flow
  main s = let (r, s') = main_flow s in (ending r, s')
