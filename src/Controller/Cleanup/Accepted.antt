-- ===== src/Controller/Cleanup/Accepted.antt =====
-- `deleteOwnedResources` succeeds where nothing stands in its way.
use aperture_ai.Prelude.{◌≡◌, refl, arith, inl, inr, some, none, Option}
use aperture_ai.Kube.{Kube}
use aperture_ai.Kube.Objects.{Deployment, Service, object_key}
use aperture_ai.V1alpha1.{GpuWorkload}
use aperture_ai.Client.{Client, Result, ok, err}
use aperture_ai.Client.Laws.{IsConsistent, AcceptsDeletions, IsAnswered, deployment_at, service_at}
use aperture_ai.Controller.Flow.{Error}
use aperture_ai.Controller.Cleanup.{
  deploy_key, svc_key, delete_found_deployment, delete_owned_deployment, delete_found_service,
  after_deployment, delete_owned_resources,
}
use aperture_ai.Controller.Cleanup.Laws.{
  delete_owned_deployment_lem, delete_owned_service_lem, delete_found_deployment-Cleared,
}

module _ {K : Kube} (C : Client K) (lawful : IsConsistent C) (accepts : AcceptsDeletions C)
    (w : GpuWorkload K) where
  delete_found_deployment_accepted :
      (s : C.State) (r : Result K.Error (Deployment K))
      → deployment_at C s (deploy_key w) ≡ r
      → IsAnswered K r
      → (delete_found_deployment C w r s).0 ≡ none
  unfolding delete_found_deployment
  delete_found_deployment_accepted s (ok d) e h =
      let here : object_key d.metadata ≡ deploy_key w =
        lawful.deployment-key (deploy_key w) s d e in
      let accepted = accepts.accepts-delete_deployment d s (d, rw here e) in rw accepted refl
  delete_found_deployment_accepted s (err x) e (inl (d, present)) = cc
  delete_found_deployment_accepted s (err x) e (inr (y, absent, missing)) = ground arith

  delete_found_service_accepted :
      (s : C.State) (r : Result K.Error (Service K))
      → service_at C s (svc_key w) ≡ r
      → IsAnswered K r
      → (delete_found_service C w r s).0 ≡ none
  unfolding delete_found_service
  delete_found_service_accepted s (ok v) e h =
      let here : object_key v.metadata ≡ svc_key w = lawful.service-key (svc_key w) s v e in
      let accepted = accepts.accepts-delete_service v s (v, rw here e) in rw accepted refl
  delete_found_service_accepted s (err x) e (inl (v, present)) = cc
  delete_found_service_accepted s (err x) e (inr (y, absent, missing)) = ground arith

  after_deployment_accepted :
      (s : C.State) (e : Option (Error K))
      → e ≡ none
      → IsAnswered K (service_at C s (svc_key w))
      → (after_deployment C w e s).0 ≡ none
  unfolding after_deployment
  after_deployment_accepted s (some e) q h = q
  after_deployment_accepted s none q h =
      rw (delete_owned_service_lem C lawful w s) (delete_found_service_accepted s _ refl h)

  pub delete_owned_resources_accepted :
      (s : C.State)
      → IsAnswered K (deployment_at C s (deploy_key w))
      → IsAnswered K (service_at C s (svc_key w))
      → (delete_owned_resources C w s).0 ≡ none
  unfolding delete_owned_resources
  delete_owned_resources_accepted s d v =
      let start = delete_owned_deployment_lem C lawful w s in
      let found = deployment_at C s (deploy_key w) in
      let accepted = delete_found_deployment_accepted s found refl d in
      let (absent, workloads, services) =
        delete_found_deployment-Cleared C lawful w s found refl accepted in
      after_deployment_accepted (delete_owned_deployment C w s).1 (delete_owned_deployment C w s).0
        (rw start accepted) (rw start (rw (services (svc_key w)) v))
