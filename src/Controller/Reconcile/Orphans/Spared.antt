-- ===== src/Controller/Reconcile/Orphans/Spared.antt =====
-- What the calls of the operator keep, but not its updates of a workload's metadata, holds while it
-- works for a live workload.
use aperture_ai.Prelude.{◌≡◌, some, none, String, Option, not}
use aperture_ai.Kube.{Kube}
use aperture_ai.Kube.Objects.{NamespacedName, Deployment, ObjectMeta}
use aperture_ai.V1alpha1.{GpuWorkload, phase_pending, phase_failed, workload_key}
use aperture_ai.Client.{Client, Result, ok, err, SetControllerReference}
use aperture_ai.Controller.{deploy_name_of}
use aperture_ai.Controller.Flow.{◌>>=◌}
use aperture_ai.Controller.Keeps.{Keeps, Keeps-bind, if_keeps}
use aperture_ai.Controller.Reconcile.{
  after_create, create_with_owner, create_built, create_missing_deployment, found_deployment,
  reconcile_deployment, reconcile_service, report_readiness, reconcile_owned,
}
use aperture_ai.Client.Spares.{Spares}
use aperture_ai.Controller.Reconcile.Attended.{update_status_kept, attend-Keeps}

module _ {K : Kube} (C : Client K) (key : NamespacedName) (I : C.State → Type 0)
    (spared : Spares C key I) where
  module _ (w : GpuWorkload K) (named : workload_key w ≡ key) where
    after_create_kept :
        (name : String) (e : Option K.Error) (s : C.State) → I s → I (after_create C w name e s).1
    unfolding after_create
    after_create_kept name none s h =
        update_status_kept C key I spared.attends w named phase_pending _ _ s h
    after_create_kept name (some e) s h =
        update_status_kept C key I spared.attends w named phase_failed _ _ s h

    create_with_owner-Keeps :
        (name : String) (d : Deployment K) (r : Result K.Error (ObjectMeta K))
        → Keeps I (create_with_owner C w name d r)
    unfolding create_with_owner
    create_with_owner-Keeps name d (err e) s h = h
    create_with_owner-Keeps name d (ok m) s h =
        let owned : Deployment K = record d { metadata = m } in
        after_create_kept name (C.create_deployment owned s).0 (C.create_deployment owned s).1
          (spared.create_deployment_kept owned s h)

    module _ (set_reference : SetControllerReference K) (scheme : K.Scheme) where
      create_built-Keeps :
          (name : String) (built : Option (Deployment K))
          → Keeps I (create_built C set_reference scheme w name built)
      unfolding create_built
      create_built-Keeps name none s h = h
      create_built-Keeps name (some d) s h =
          create_with_owner-Keeps name d (set_reference w d.metadata scheme) s h

      found_deployment-Keeps :
          (name : String) (r : Result K.Error (Deployment K))
          → Keeps I (found_deployment C set_reference scheme w name r)
      unfolding found_deployment create_missing_deployment
      found_deployment-Keeps name (err e) s h =
          if_keeps I (not (K.is_not_found (some e))) _ _ h (create_built-Keeps name _ s h)
      found_deployment-Keeps name (ok d) s h =
          if_keeps I (K.is_not_found none) _ _ (create_built-Keeps name _ s h) h

      reconcile_deployment-Keeps :
          (name : String) → Keeps I (reconcile_deployment C set_reference scheme w name)
      unfolding reconcile_deployment
      reconcile_deployment-Keeps name s h = found_deployment-Keeps name _ _ (
          spared.get_deployment_kept (record { name = name; namespace = w.metadata.namespace }) s h)

      pub reconcile_owned-Keeps : Keeps I (reconcile_owned C set_reference scheme w)
      unfolding reconcile_owned
      reconcile_owned-Keeps =
          let name = deploy_name_of w.metadata.name in
          Keeps-bind I (λ _. Unit {0}) (reconcile_deployment C set_reference scheme w name)
            (λ d.
              reconcile_service C set_reference scheme w name >>= λ _. report_readiness C w d name)
            (reconcile_deployment-Keeps name) (λ _ _ _. tt)
            (λ d _. attend-Keeps C key I spared.attends w named set_reference scheme d name)
