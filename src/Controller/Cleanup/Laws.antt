-- ===== src/Controller/Cleanup/Laws.antt =====
-- What `deleteOwnedResources` achieves on a consistent API server.
use aperture_ai.Prelude.{◌≡◌, refl, ◌∙◌, sym, arith, some, none, Option, Option-cases, inl, inr}
use aperture_ai.Kube.{Kube}
use aperture_ai.Kube.Objects.{Deployment, Service}
use aperture_ai.V1alpha1.{GpuWorkload}
use aperture_ai.Client.{Client, Result, ok, err}
use aperture_ai.Client.Laws.{
  IsConsistent, IsAbsent, SameWorkloads, SameDeployments, SameServices, deployment_at, service_at,
}
use aperture_ai.Controller.Flow.{Error}
use aperture_ai.Controller.Cleanup.{
  deploy_key, svc_key, delete_found_deployment, delete_owned_deployment, delete_found_service,
  delete_owned_service, after_deployment, delete_owned_resources,
}

module _ {K : Kube} (C : Client K) (lawful : IsConsistent C) (w : GpuWorkload K) where
  abbrev pub DeploymentCleared : C.State → C.State → Type 0
  DeploymentCleared s s' =
      IsAbsent K (deployment_at C s' (deploy_key w)) × SameWorkloads C s s' × SameServices C s s'

  abbrev ServiceCleared : C.State → C.State → Type 0
  ServiceCleared s s' =
      IsAbsent K (service_at C s' (svc_key w)) × SameWorkloads C s s' × SameDeployments C s s'

  pub delete_found_deployment-Cleared :
      (s : C.State) (r : Result K.Error (Deployment K))
      → deployment_at C s (deploy_key w) ≡ r
      → (delete_found_deployment C w r s).0 ≡ none
      → DeploymentCleared s (delete_found_deployment C w r s).1
  unfolding delete_found_deployment
  delete_found_deployment-Cleared s (ok d) e q =
      let here = lawful.deployment-key (deploy_key w) s d e in
      let (workloads, services) = lawful.delete_deployment-frame d s in
      (
        elim (Option-cases (C.delete_deployment d s).0) [
          | inl accepted ↦ rw here at (lawful.delete_deployment-stored d s accepted)
          | inr (x, refused) ↦
              rw here at (lawful.delete_deployment-missing d s x refused (ground arith))
        ],
        workloads,
        services,
      )
  delete_found_deployment-Cleared s (err x) e q = ((x, e, ground arith), (λ k. refl), (λ k. refl))

  delete_found_service-Cleared :
      (s : C.State) (r : Result K.Error (Service K))
      → service_at C s (svc_key w) ≡ r
      → (delete_found_service C w r s).0 ≡ none
      → ServiceCleared s (delete_found_service C w r s).1
  unfolding delete_found_service
  delete_found_service-Cleared s (ok v) e q =
      let here = lawful.service-key (svc_key w) s v e in
      let (workloads, deployments) = lawful.delete_service-frame v s in
      (
        elim (Option-cases (C.delete_service v s).0) [
          | inl accepted ↦ rw here at (lawful.delete_service-stored v s accepted)
          | inr (x, refused) ↦
              rw here at (lawful.delete_service-missing v s x refused (ground arith))
        ],
        workloads,
        deployments,
      )
  delete_found_service-Cleared s (err x) e q = ((x, e, ground arith), (λ k. refl), (λ k. refl))

  pub delete_owned_deployment_lem :
      (s : C.State)
      → delete_owned_deployment C w s
        ≡ delete_found_deployment C w (deployment_at C s (deploy_key w)) s
  unfolding delete_owned_deployment
  delete_owned_deployment_lem s = rw (lawful.get_deployment-state (deploy_key w) s)

  pub delete_owned_service_lem :
      (s : C.State)
      → delete_owned_service C w s ≡ delete_found_service C w (service_at C s (svc_key w)) s
  unfolding delete_owned_service
  delete_owned_service_lem s = rw (lawful.get_service-state (svc_key w) s)

  -- Both objects are gone, and no workload was touched.
  abbrev pub Cleared : C.State → C.State → Type 0
  Cleared s s' =
      IsAbsent K (deployment_at C s' (deploy_key w))
      × IsAbsent K (service_at C s' (svc_key w))
      × SameWorkloads C s s'

  after_deployment-Cleared :
      (s s' : C.State) (e : Option (Error K))
      → (e ≡ none → DeploymentCleared s s')
      → (after_deployment C w e s').0 ≡ none
      → Cleared s (after_deployment C w e s').1
  unfolding after_deployment
  after_deployment-Cleared s s' (some e) before q = ground arith
  after_deployment-Cleared s s' none before q =
      let (absent, workloads, services) = before refl in
      let start = delete_owned_service_lem s' in
      let found = service_at C s' (svc_key w) in
      let (gone, workloads', deployments) =
        delete_found_service-Cleared s' found refl (rw start at q) in
      let cleared : Cleared s (delete_found_service C w found s').1 = (
        (rw (sym (deployments (deploy_key w))) at absent),
        gone,
        (λ k. workloads' k ∙ workloads k),
      ) in
      rw (sym start) at cleared

  pub delete_owned_resources-Cleared :
      (s : C.State)
      → (delete_owned_resources C w s).0 ≡ none
      → Cleared s (delete_owned_resources C w s).1
  unfolding delete_owned_resources
  delete_owned_resources-Cleared s q =
      let start = delete_owned_deployment_lem s in
      let found = deployment_at C s (deploy_key w) in
      let before = delete_found_deployment-Cleared s found refl in
      after_deployment-Cleared s (delete_owned_deployment C w s).1 (delete_owned_deployment C w s).0
        (rw (sym start) at before) q
