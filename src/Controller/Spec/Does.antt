-- ===== src/Controller/Spec/Does.antt =====
-- What a run does, in the specification's words.
use aperture_ai.Prelude.{◌≡◌, true, false, some, none, Option, Bool}
use aperture_ai.Kube.{Kube}
use aperture_ai.Kube.Objects.{NamespacedName}
use aperture_ai.V1alpha1.{GpuWorkloadPhase}
use aperture_ai.Client.{Client, SetControllerReference}
use aperture_ai.Client.Laws.{IsReliable, SameDeployments, SameServices}
use aperture_ai.Controller.Flow.{CtrlResult, exit, returned}
use aperture_ai.Controller.Reconcile.{reconcile}
use aperture_ai.Controller.Reconcile.Names.{deployment_of, service_of}
use aperture_ai.Controller.Spec.{View}
use aperture_ai.Controller.Spec.Shows.{ShowsDeployment, ShowsService, Shows}

module _ {K : Kube} (C : Client K) (set_reference : SetControllerReference K) (scheme : K.Scheme)
    (reliable : IsReliable C set_reference scheme) (key : NamespacedName) where
  -- The run returns this result and no error, and leaves what is seen as `v`.
  abbrev pub Does : C.State → CtrlResult → View → Type 0
  Does s r v =
      ((reconcile C set_reference scheme key s).0 ≡ returned (exit r none))
      × Shows C key (reconcile C set_reference scheme key s).1 v

  -- What is seen of the Services, and of the Deployments, is the same in both states.
  pub keeps_service :
      (s s' : C.State) (b : Bool)
      → SameServices C s s'
      → ShowsService C key s b
      → ShowsService C key s' b
  keeps_service s s' true same h = rw (same (service_of key)) h
  keeps_service s s' false same h = rw (same (service_of key)) h

  pub keeps_deployment :
      (s s' : C.State) (o : Option GpuWorkloadPhase)
      → SameDeployments C s s'
      → ShowsDeployment C key s o
      → ShowsDeployment C key s' o
  keeps_deployment s s' none same h = rw (same (deployment_of key)) h
  keeps_deployment s s' (some phase) same h = rw (same (deployment_of key)) h
