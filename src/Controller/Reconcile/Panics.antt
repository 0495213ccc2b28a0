-- ===== src/Controller/Reconcile/Panics.antt =====
-- `resource.MustParse` panics on a text that is no quantity: no run of `Reconcile` gets there.
use aperture_ai.Prelude.{refl, ◌≢◌, arith, none, some, String, Option}
use aperture_ai.Kube.{Kube}
use aperture_ai.Kube.Laws.{QuantitiesAreLawful}
use aperture_ai.Kube.Objects.{NamespacedName, Deployment}
use aperture_ai.V1alpha1.{GpuWorkload}
use aperture_ai.Client.{Client, SetControllerReference}
use aperture_ai.Controller.{deploy_name_of}
use aperture_ai.Controller.Flow.{
  Flow, next, return, panic, Action, Exit, outcome, panicked, continue, ◌>>=◌,
}
use aperture_ai.Controller.Build.{build_inference_deployment}
use aperture_ai.Controller.Build.Laws.{build_inference_deployment-ne-none}
use aperture_ai.Controller.Reconcile.{
  fetch_workload, handle_deletion, ensure_finalizer, create_built, create_missing_deployment,
  reconcile_deployment, reconcile_service, report_readiness, reconcile_owned, live_flow,
  reconcile_flow, reconcile,
}

-- The action does not panic.
abbrev IsCalm : {K : Kube} {S A : Type 0} → Action K S A → Type 0
IsCalm {S = S} m = (s : S) → (m s).0 ≢ panic

IsCalm-bind :
    {K : Kube} {S A B : Type 0} (m : Action K S A) (f : A → Action K S B)
    → IsCalm m
    → ((a : A) → IsCalm (f a))
    → IsCalm (m >>= f)
IsCalm-bind {K} {S} {A} m f hm hf s = go (m s).0 (m s).1 (hm s)
  where
    go : (r : Flow K A) (s' : S) → r ≢ panic → (continue r f s').0 ≢ panic
    go (next a) s' h = hf a s'
    go (return x) s' h = λ e. cc
    go panic s' h = absurd (h refl)

module _ {K : Kube} (C : Client K) (set_reference : SetControllerReference K) (scheme : K.Scheme)
    (quantities : QuantitiesAreLawful K) (w : GpuWorkload K) (name : String) where
  create_built-IsCalm :
      (built : Option (Deployment K))
      → built ≢ none
      → IsCalm (create_built C set_reference scheme w name built)
  unfolding create_built
  create_built-IsCalm none h s = absurd (h refl)
  create_built-IsCalm (some d) h s = ground arith

  create_missing_deployment-IsCalm :
      IsCalm (create_missing_deployment C set_reference scheme w name)
  unfolding create_missing_deployment
  create_missing_deployment-IsCalm =
      create_built-IsCalm (build_inference_deployment w name)
        (build_inference_deployment-ne-none quantities w name)

  reconcile_deployment-IsCalm : IsCalm (reconcile_deployment C set_reference scheme w name)
  unfolding reconcile_deployment
  reconcile_deployment-IsCalm s = grind (arith, create_missing_deployment-IsCalm)

  reconcile_service-IsCalm : IsCalm (reconcile_service C set_reference scheme w name)
  unfolding reconcile_service
  reconcile_service-IsCalm s = ground arith

outcome-ne-panicked : {K : Kube} (r : Flow K (Exit K)) → r ≢ panic → outcome r ≢ panicked
outcome-ne-panicked (next x) h = λ e. cc
outcome-ne-panicked (return x) h = λ e. cc
outcome-ne-panicked panic h = absurd (h refl)

module _ {K : Kube} (C : Client K) where
  fetch_workload-IsCalm : (key : NamespacedName) → IsCalm (fetch_workload C key)
  unfolding fetch_workload
  fetch_workload-IsCalm key s = ground arith

  handle_deletion-IsCalm : (w : GpuWorkload K) → IsCalm (handle_deletion C w)
  unfolding handle_deletion
  handle_deletion-IsCalm w s = ground arith

  ensure_finalizer-IsCalm : (w : GpuWorkload K) → IsCalm (ensure_finalizer C w)
  unfolding ensure_finalizer
  ensure_finalizer-IsCalm w s = ground arith

  report_readiness-IsCalm :
      (w : GpuWorkload K) (d : Deployment K) (name : String) → IsCalm (report_readiness C w d name)
  unfolding report_readiness
  report_readiness-IsCalm w d name s = λ e. cc

module _ {K : Kube} (C : Client K) (set_reference : SetControllerReference K) (scheme : K.Scheme)
    (quantities : QuantitiesAreLawful K) where
  reconcile_owned-IsCalm : (w : GpuWorkload K) → IsCalm (reconcile_owned C set_reference scheme w)
  unfolding reconcile_owned
  reconcile_owned-IsCalm w =
      let name = deploy_name_of w.metadata.name in
      let service = reconcile_service C set_reference scheme w name in
      IsCalm-bind (reconcile_deployment C set_reference scheme w name)
        (λ d. service >>= λ _. report_readiness C w d name)
        (reconcile_deployment-IsCalm C set_reference scheme quantities w name)
        (λ d.
          IsCalm-bind service (λ _. report_readiness C w d name)
            (reconcile_service-IsCalm C set_reference scheme quantities w name)
            (λ _. report_readiness-IsCalm C w d name))

  live_flow-IsCalm : (w : GpuWorkload K) → IsCalm (live_flow C set_reference scheme w)
  unfolding live_flow
  live_flow-IsCalm w =
      let owned = reconcile_owned C set_reference scheme w in
      IsCalm-bind (handle_deletion C w) (λ _. ensure_finalizer C w >>= λ _. owned)
        (handle_deletion-IsCalm C w)
        (λ _.
          IsCalm-bind (ensure_finalizer C w) (λ _. owned) (ensure_finalizer-IsCalm C w)
            (λ _. reconcile_owned-IsCalm w))

  reconcile_flow-IsCalm :
      (key : NamespacedName) → IsCalm (reconcile_flow C set_reference scheme key)
  unfolding reconcile_flow
  reconcile_flow-IsCalm key =
      IsCalm-bind (fetch_workload C key) (live_flow C set_reference scheme)
        (fetch_workload-IsCalm C key) live_flow-IsCalm

  -- If `MustParse` accepts the quantities that the operator writes out and every decimal number,
  -- then a run never panics, whatever the server answers.
  pub reconcile-ne-panicked :
      (key : NamespacedName) (s : C.State) → (reconcile C set_reference scheme key s).0 ≢ panicked
  unfolding reconcile
  reconcile-ne-panicked key s =
      outcome-ne-panicked (reconcile_flow C set_reference scheme key s).0
        (reconcile_flow-IsCalm key s)
