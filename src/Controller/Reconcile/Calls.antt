-- ===== src/Controller/Reconcile/Calls.antt =====
-- How many calls of the API server a run of `Reconcile` makes, and that it does not panic.
use aperture_ai.Prelude.{[], ◌∷◌, arith, ℕ, ◌+◌, ◌≤◌, String}
use aperture_ai.Kube.{Kube}
use aperture_ai.Kube.Objects.{NamespacedName, Deployment}
use aperture_ai.V1alpha1.{GpuWorkload}
use aperture_ai.Client.{Client, SetControllerReference}
use aperture_ai.Client.Trace.{Trace, traced}
use aperture_ai.Controller.{deploy_name_of}
use aperture_ai.Controller.Flow.{Flow, next, return, panic, Action, Exit, continue, ◌>>=◌}
use aperture_ai.Controller.Reconcile.{
  fetch_workload, handle_deletion, ensure_finalizer, reconcile_deployment, reconcile_service,
  report_readiness, reconcile_owned, live_flow, reconcile_flow, reconcile,
}

-- The number of calls in a trace.
abbrev pub calls : {K : Kube} → Trace K → ℕ
calls [] = 0
calls (e ∷ t) = 1 + calls t

-- One bound if the action goes on, another if it does not.
abbrev Within : {K : Kube} {A : Type 0} → ℕ → ℕ → Flow K A → ℕ → ℕ → Type 0
Within stops goes (next a) before after = after ≤ goes + before
Within stops goes (return x) before after = after ≤ stops + before
Within stops goes panic before after = after ≤ stops + before

abbrev Costs : {K : Kube} {S A : Type 0} → ℕ → ℕ → Action K (S × Trace K) A → Type 0
Costs {S = S} stops goes m =
    (s : S × Trace _) → Within stops goes (m s).0 (calls s.1) (calls (m s).1.1)

module _ {K : Kube} {S A B : Type 0} where
  Costs-bind :
      (m : Action K (S × Trace K) A) (f : A → Action K (S × Trace K) B)
      (stops goes later end all : ℕ)
      → Costs stops goes m
      → ((a : A) → Costs later end (f a))
      → stops ≤ all
      → goes + later ≤ all
      → Costs all (goes + end) (m >>= f)
  Costs-bind m f stops goes later end all hm hf first rest s = go (m s).0 (m s).1 (hm s)
    where
      go :
          (r : Flow K A) (s' : S × Trace K)
          → Within stops goes r (calls s.1) (calls s'.1)
          → Within all (goes + end) (continue r f s').0 (calls s.1) (calls (continue r f s').1.1)
      go (next a) s' h = later_bound (f a s').0 (f a s').1 h (hf a s')
        where
          later_bound :
              (r : Flow K B) (s'' : S × Trace K)
              → calls s'.1 ≤ goes + calls s.1
              → Within later end r (calls s'.1) (calls s''.1)
              → Within all (goes + end) r (calls s.1) (calls s''.1)
          later_bound (next b) s'' h k = omega arith
          later_bound (return x) s'' h k = omega arith
          later_bound panic s'' h k = omega arith
      go (return x) s' h = omega arith
      go panic s' h = omega arith

module _ {K : Kube} (C : Client K) where
  fetch_workload-Costs : (key : NamespacedName) → Costs 1 1 (fetch_workload (traced C) key)
  unfolding fetch_workload
  fetch_workload-Costs key s = ground arith

  handle_deletion-Costs : (w : GpuWorkload K) → Costs 5 0 (handle_deletion (traced C) w)
  unfolding handle_deletion
  handle_deletion-Costs w s = ground arith

  ensure_finalizer-Costs : (w : GpuWorkload K) → Costs 1 0 (ensure_finalizer (traced C) w)
  unfolding ensure_finalizer
  ensure_finalizer-Costs w s = ground arith

module _ {K : Kube} (C : Client K) (set_reference : SetControllerReference K) (scheme : K.Scheme)
    (w : GpuWorkload K) (name : String) where
  reconcile_deployment-Costs :
      Costs 3 1 (reconcile_deployment (traced C) set_reference scheme w name)
  unfolding reconcile_deployment
  reconcile_deployment-Costs s = ground arith

  reconcile_service-Costs : Costs 1 2 (reconcile_service (traced C) set_reference scheme w name)
  unfolding reconcile_service
  reconcile_service-Costs s = ground arith

  report_readiness-Costs : (d : Deployment K) → Costs 1 0 (report_readiness (traced C) w d name)
  unfolding report_readiness
  report_readiness-Costs d s = ground arith

calls-outcome :
    {K : Kube} (r : Flow K (Exit K)) (stops goes before after : ℕ)
    → Within stops goes r before after
    → goes ≤ stops
    → after ≤ stops + before
calls-outcome (next x) stops goes before after h k = omega arith
calls-outcome (return x) stops goes before after h k = h
calls-outcome panic stops goes before after h k = h

module _ {K : Kube} (C : Client K) (set_reference : SetControllerReference K)
    (scheme : K.Scheme) where
  reconcile_owned-Costs :
      (w : GpuWorkload K) → Costs 4 3 (reconcile_owned (traced C) set_reference scheme w)
  unfolding reconcile_owned
  reconcile_owned-Costs w =
      let name = deploy_name_of w.metadata.name in
      let service = reconcile_service (traced C) set_reference scheme w name in
      Costs-bind (reconcile_deployment (traced C) set_reference scheme w name)
        (λ d. service >>= λ _. report_readiness (traced C) w d name) 3 1 3 2 4
        (reconcile_deployment-Costs C set_reference scheme w name)
        (λ d.
          Costs-bind service (λ _. report_readiness (traced C) w d name) 1 2 1 0 3
            (reconcile_service-Costs C set_reference scheme w name)
            (λ _. report_readiness-Costs C set_reference scheme w name d) (omega arith)
            (omega arith))
        (omega arith) (omega arith)

  live_flow-Costs : (w : GpuWorkload K) → Costs 5 3 (live_flow (traced C) set_reference scheme w)
  unfolding live_flow
  live_flow-Costs w =
      let owned = reconcile_owned (traced C) set_reference scheme w in
      Costs-bind (handle_deletion (traced C) w) (λ _. ensure_finalizer (traced C) w >>= λ _. owned)
        5 0 4 3 5 (handle_deletion-Costs C w)
        (λ _.
          Costs-bind (ensure_finalizer (traced C) w) (λ _. owned) 1 0 4 3 4
            (ensure_finalizer-Costs C w) (λ _. reconcile_owned-Costs w) (omega arith) (omega arith))
        (omega arith) (omega arith)

  reconcile_flow-Costs :
      (key : NamespacedName) → Costs 6 4 (reconcile_flow (traced C) set_reference scheme key)
  unfolding reconcile_flow
  reconcile_flow-Costs key =
      Costs-bind (fetch_workload (traced C) key) (live_flow (traced C) set_reference scheme) 1 1 5 3
        6 (fetch_workload-Costs C key) live_flow-Costs (omega arith) (omega arith)

  -- A run makes at most six calls of the API server, whatever the server answers.
  pub calls-reconcile :
      (key : NamespacedName) (s : C.State)
      → calls (reconcile (traced C) set_reference scheme key (s, [])).1.1 ≤ 6
  unfolding reconcile
  calls-reconcile key s =
      let flow = reconcile_flow (traced C) set_reference scheme key in
      let bound = reconcile_flow-Costs key (s, []) in
      let total =
        calls-outcome (flow (s, [])).0 6 4 0 (calls (flow (s, [])).1.1) bound (omega arith) in
      omega arith
