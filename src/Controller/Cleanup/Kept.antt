-- ===== src/Controller/Cleanup/Kept.antt =====
-- What `deleteOwnedResources` keeps, and what it establishes, of a predicate on the server's state.
use aperture_ai.Prelude.{◌≡◌, refl, arith, some, none, Option, Option-cases, inl, inr}
use aperture_ai.Kube.{Kube}
use aperture_ai.Kube.Objects.{NamespacedName, Deployment, Service}
use aperture_ai.V1alpha1.{GpuWorkload}
use aperture_ai.Client.{Client, Result, ok, err}
use aperture_ai.Client.Spares.{Spares, Clears}
use aperture_ai.Controller.Flow.{Error}
use aperture_ai.Controller.Cleanup.{
  deploy_key, svc_key, delete_found_deployment, delete_owned_deployment, delete_found_service,
  delete_owned_service, after_deployment, delete_owned_resources,
}

module _ {K : Kube} (C : Client K) (w : GpuWorkload K) (key : NamespacedName) (I : C.State → Type 0)
    (spared : Spares C key I) where
  delete_found_deployment_kept :
      (r : Result K.Error (Deployment K)) (s : C.State)
      → I s
      → I (delete_found_deployment C w r s).1
  unfolding delete_found_deployment
  delete_found_deployment_kept (ok d) s h = spared.delete_deployment_kept d s h
  delete_found_deployment_kept (err e) s h = h

  delete_found_service_kept :
      (r : Result K.Error (Service K)) (s : C.State) → I s → I (delete_found_service C w r s).1
  unfolding delete_found_service
  delete_found_service_kept (ok v) s h = spared.delete_service_kept v s h
  delete_found_service_kept (err e) s h = h

  after_deployment_kept :
      (e : Option (Error K)) (s : C.State) → I s → I (after_deployment C w e s).1
  unfolding after_deployment delete_owned_service
  after_deployment_kept (some e) s h = h
  after_deployment_kept none s h =
      delete_found_service_kept _ _ (spared.attends.get_service_kept (svc_key w) s h)

  pub delete_owned_resources_kept : (s : C.State) → I s → I (delete_owned_resources C w s).1
  unfolding delete_owned_resources delete_owned_deployment
  delete_owned_resources_kept s h =
      after_deployment_kept _ _
        (delete_found_deployment_kept _ _ (spared.get_deployment_kept (deploy_key w) s h))

module _ {K : Kube} (C : Client K) (w : GpuWorkload K) (D V : C.State → Type 0)
    (clears : Clears C (deploy_key w) (svc_key w) D V) where
  found_deployment_cleared :
      (s : C.State) (r : Result K.Error (Deployment K))
      → (C.get_deployment (deploy_key w) s).0 ≡ r
      → (delete_found_deployment C w r (C.get_deployment (deploy_key w) s).1).0 ≡ none
      → D (delete_found_deployment C w r (C.get_deployment (deploy_key w) s).1).1
  unfolding delete_found_deployment
  found_deployment_cleared s (ok d) e q =
      clears.deployment_deleted s _ d e
        (elim (Option-cases (C.delete_deployment d (C.get_deployment (deploy_key w) s).1).0) [
          | inl accepted ↦ inl accepted
          | inr (x, refused) ↦ inr (x, refused, ground arith)
        ])
  found_deployment_cleared s (err x) e q = clears.deployment_absent s x e (ground arith)

  found_service_cleared :
      (s : C.State) (r : Result K.Error (Service K))
      → (C.get_service (svc_key w) s).0 ≡ r
      → (delete_found_service C w r (C.get_service (svc_key w) s).1).0 ≡ none
      → V (delete_found_service C w r (C.get_service (svc_key w) s).1).1
  unfolding delete_found_service
  found_service_cleared s (ok v) e q =
      clears.service_deleted s _ v e
        (elim (Option-cases (C.delete_service v (C.get_service (svc_key w) s).1).0) [
          | inl accepted ↦ inl accepted
          | inr (x, refused) ↦ inr (x, refused, ground arith)
        ])
  found_service_cleared s (err x) e q = clears.service_absent s x e (ground arith)

  found_service_clear :
      (r : Result K.Error (Service K)) (s : C.State) → D s → D (delete_found_service C w r s).1
  unfolding delete_found_service
  found_service_clear (ok v) s h = clears.delete_service_clear v s h
  found_service_clear (err e) s h = h

  after_deployment_cleared :
      (e : Option (Error K)) (s : C.State)
      → (e ≡ none → D s)
      → (after_deployment C w e s).0 ≡ none
      → D (after_deployment C w e s).1 × V (after_deployment C w e s).1
  unfolding after_deployment delete_owned_service
  after_deployment_cleared (some e) s before q = ground arith
  after_deployment_cleared none s before q = (
    found_service_clear _ _ (clears.get_service_clear (svc_key w) s (before refl)),
    found_service_cleared s _ refl q,
  )

  -- A cleanup that succeeds leaves neither the Deployment nor the Service.
  pub delete_owned_resources_cleared :
      (s : C.State)
      → (delete_owned_resources C w s).0 ≡ none
      → D (delete_owned_resources C w s).1 × V (delete_owned_resources C w s).1
  unfolding delete_owned_resources delete_owned_deployment
  delete_owned_resources_cleared s q =
      after_deployment_cleared _ _ (found_deployment_cleared s _ refl) q
