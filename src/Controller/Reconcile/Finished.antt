-- ===== src/Controller/Reconcile/Finished.antt =====
-- A deletion that comes to its end on a consistent API server.
use mathlib.Core.Option.{none-ne-some}
use aperture_ai.Prelude.{◌≡◌, refl, ◌∙◌, arith, true, false, some, none, Option, inl, inr, sym, ◌⊎◌}
use aperture_ai.Kube.{Kube}
use aperture_ai.Kube.Laws.{FinalizersAreLawful}
use aperture_ai.Kube.Objects.{NamespacedName}
use aperture_ai.V1alpha1.{GpuWorkload, workload_key}
use aperture_ai.Client.{Client, ok, SetControllerReference}
use aperture_ai.Client.Laws.{
  IsConsistent, IsAbsent, IsPresent, workload_at, deployment_at, service_at,
}
use aperture_ai.Controller.{finalizer_name}
use aperture_ai.Controller.Flow.{Error, exit, empty_result, returned}
use aperture_ai.Controller.Cleanup.{deploy_key, svc_key, delete_owned_resources}
use aperture_ai.Controller.Cleanup.Laws.{Cleared, delete_owned_resources-Cleared}
use aperture_ai.Controller.Reconcile.{
  with_finalizers, handle_deletion, clean_up, after_cleanup, reconcile,
}
use aperture_ai.Controller.Reconcile.Permitted.{IsDeleting, HasFinalizer}

module _ {K : Kube} (C : Client K) (lawful : IsConsistent C) (finalizers : FinalizersAreLawful K)
    (w : GpuWorkload K) where
  -- Nothing is left of the workload but perhaps the object itself, let go.
  abbrev pub Released : C.State → Type 0
  Released s =
      IsAbsent K (deployment_at C s (deploy_key w))
      × IsAbsent K (service_at C s (svc_key w))
      × ((u : GpuWorkload K) → workload_at C s (workload_key w) ≡ ok u → HasFinalizer u false)

  let_go : GpuWorkload K
  let_go = with_finalizers w (K.remove_finalizer w.metadata.finalizers finalizer_name)

  after_cleanup-Released :
      (s s' : C.State) (e : Option (Error K))
      → workload_at C s (workload_key w) ≡ ok w
      → (e ≡ none → Cleared C lawful w s s')
      → (after_cleanup C w e s').0 ≡ exit empty_result none
      → Released (after_cleanup C w e s').1
  unfolding after_cleanup let_go
  after_cleanup-Released s s' (some e) here before q = ground arith
  after_cleanup-Released s s' none here before q =
      let (d, v, same) = before refl in
      let (deployments, services) = lawful.update_workload-frame let_go s' in
      let accepted : (C.update_workload let_go s').0 ≡ none = ground arith in
      let stored =
        lawful.update_workload-stored let_go w s' (same (workload_key w) ∙ here) accepted in
      (
        rw (deployments (deploy_key w)) d,
        rw (services (svc_key w)) v,
        λ u found. elim stored [
          | inl kept ↦
              let removed = finalizers.contains-remove w.metadata.finalizers finalizer_name in cc
          | inr (deleting, absent) ↦ ground arith
        ],
      )

  clean_up-Released :
      (s : C.State)
      → workload_at C s (workload_key w) ≡ ok w
      → (clean_up C w s).0 ≡ exit empty_result none
      → Released (clean_up C w s).1
  unfolding clean_up
  clean_up-Released s here q =
      after_cleanup-Released s (delete_owned_resources C w s).1 (delete_owned_resources C w s).0
        here (delete_owned_resources-Cleared C lawful w s) q

  reconcile-deleting :
      (set_reference : SetControllerReference K) (scheme : K.Scheme) (key : NamespacedName)
      (s : C.State)
      → workload_at C s key ≡ ok w
      → IsDeleting w
      → HasFinalizer w true
      → reconcile C set_reference scheme key s ≡ (returned (clean_up C w s).0, (clean_up C w s).1)
  unfolding reconcile handle_deletion
  reconcile-deleting set_reference scheme key s found deleting guarded =
      rw found (rw deleting (rw guarded (rw (lawful.get_workload-state key s))))

  -- On a consistent server a run for a workload that is being deleted and still has the finalizer
  -- reports success only when its Deployment and its Service are both absent, and the workload that is
  -- stored, if one is, no longer has the finalizer.
  pub reconcile_releases :
      (set_reference : SetControllerReference K) (scheme : K.Scheme) (key : NamespacedName)
      (s : C.State)
      → workload_at C s key ≡ ok w
      → IsDeleting w
      → HasFinalizer w true
      → (reconcile C set_reference scheme key s).0 ≡ returned (exit empty_result none)
      → Released (reconcile C set_reference scheme key s).1
  reconcile_releases set_reference scheme key s found deleting guarded q =
      let run = reconcile-deleting set_reference scheme key s found deleting guarded in
      let here : workload_at C s (workload_key w) ≡ ok w =
        rw (lawful.workload-key key s w found) found in
      rw run (clean_up-Released s here (ground arith))

module _ {K : Kube} (C : Client K) (lawful : IsConsistent C) (finalizers : FinalizersAreLawful K)
    (w : GpuWorkload K) where
  -- What an accepted update without the finalizer leaves.
  abbrev pub LetGo : C.State → Type 0
  LetGo s =
      IsAbsent K (deployment_at C s (deploy_key w))
      × IsAbsent K (service_at C s (svc_key w))
      × ((workload_at C s (workload_key w)
            ≡ ok (with_finalizers w (K.remove_finalizer w.metadata.finalizers finalizer_name)))
          ⊎ IsAbsent K (workload_at C s (workload_key w)))

  after_cleanup_accepted :
      (s s' : C.State) (e : Option (Error K))
      → workload_at C s (workload_key w) ≡ ok w
      → e ≡ none
      → Cleared C lawful w s s'
      → ((u : GpuWorkload K)
          → IsPresent K (workload_at C s' (workload_key u))
          → (C.update_workload u s').0 ≡ none)
      → ((after_cleanup C w e s').0 ≡ exit empty_result none) × LetGo (after_cleanup C w e s').1
  unfolding after_cleanup
  after_cleanup_accepted s s' (some e) here q cleared accepts = absurd (none-ne-some e (sym q))
  after_cleanup_accepted s s' none here q (d, v, same) accepts =
      let u = with_finalizers w (K.remove_finalizer w.metadata.finalizers finalizer_name) in
      let still = same (workload_key w) ∙ here in
      let accepted = accepts u (w, still) in
      let (deployments, services) = lawful.update_workload-frame u s' in
      (
        rw accepted refl,
        (
          rw (deployments (deploy_key w)) d,
          rw (services (svc_key w)) v,
          elim (lawful.update_workload-stored u w s' still accepted) [
            | inl kept ↦ inl kept
            | inr (deleting, absent) ↦ inr absent
          ],
        ),
      )

  clean_up_accepted :
      (s : C.State)
      → workload_at C s (workload_key w) ≡ ok w
      → (delete_owned_resources C w s).0 ≡ none
      → ((u : GpuWorkload K) (s' : C.State)
          → IsPresent K (workload_at C s' (workload_key u))
          → (C.update_workload u s').0 ≡ none)
      → ((clean_up C w s).0 ≡ exit empty_result none) × LetGo (clean_up C w s).1
  unfolding clean_up
  clean_up_accepted s here deleted accepts =
      let (e, s') = delete_owned_resources C w s in
      after_cleanup_accepted s s' e here deleted
        (delete_owned_resources-Cleared C lawful w s deleted) (λ u. accepts u s')

  pub reconcile_lets_go :
      (set_reference : SetControllerReference K) (scheme : K.Scheme) (key : NamespacedName)
      (s : C.State)
      → workload_at C s key ≡ ok w
      → IsDeleting w
      → HasFinalizer w true
      → (delete_owned_resources C w s).0 ≡ none
      → ((u : GpuWorkload K) (s' : C.State)
          → IsPresent K (workload_at C s' (workload_key u))
          → (C.update_workload u s').0 ≡ none)
      → ((reconcile C set_reference scheme key s).0 ≡ returned (exit empty_result none))
        × LetGo (reconcile C set_reference scheme key s).1
  reconcile_lets_go set_reference scheme key s found deleting guarded deleted accepts =
      let run =
        reconcile-deleting C lawful finalizers w set_reference scheme key s found deleting
          guarded in
      let here : workload_at C s (workload_key w) ≡ ok w =
        rw (lawful.workload-key key s w found) found in
      let (o, let_go) = clean_up_accepted s here deleted accepts in
      rw run ((λ i. returned (o i)), let_go)
