-- ===== src/Controller/Reconcile/Progress/Held.antt =====
-- The run that adds the finalizer.
use aperture_ai.Prelude.{◌≡◌, refl, arith, true, false, none, inl, inr}
use aperture_ai.Kube.{Kube}
use aperture_ai.Kube.Objects.{NamespacedName}
use aperture_ai.V1alpha1.{GpuWorkload, workload_key}
use aperture_ai.Client.{Client, ok, SetControllerReference}
use aperture_ai.Client.Laws.{IsReliable, SameDeployments, SameServices, workload_at}
use aperture_ai.Controller.{finalizer_name}
use aperture_ai.Controller.Flow.{exit, returned}
use aperture_ai.Controller.Reconcile.{with_finalizers, reconcile}
use aperture_ai.Controller.Reconcile.Permitted.{IsLive, HasFinalizer}
use aperture_ai.Controller.Reconcile.Progress.{IsHeld}

module _ {K : Kube} (C : Client K) (set_reference : SetControllerReference K) (scheme : K.Scheme)
    (reliable : IsReliable C set_reference scheme) (key : NamespacedName) where
  -- The workload with the finalizer added.
  abbrev pub guarded : GpuWorkload K → GpuWorkload K
  guarded w = with_finalizers w (K.add_finalizer w.metadata.finalizers finalizer_name)

  reconcile-unguarded :
      (w : GpuWorkload K) (s : C.State)
      → workload_at C s key ≡ ok w
      → IsLive w
      → HasFinalizer w false
      → (C.update_workload (guarded w) s).0 ≡ none
      → reconcile C set_reference scheme key s ≡ (
        returned (exit (record { requeue = true; requeue_after = 0 }) none),
        (C.update_workload (guarded w) s).1,
      )
  unfolding reconcile
  reconcile-unguarded w s found live bare accepted =
      rw found (rw live (rw bare (rw (reliable.consistent.get_workload-state key s) (rw accepted))))

  -- The first run: the workload gets the finalizer, and asks for another run.
  pub reconcile_holds :
      (w : GpuWorkload K) (s : C.State)
      → workload_at C s key ≡ ok w
      → IsLive w
      → HasFinalizer w false
      → let (o, s') = reconcile C set_reference scheme key s in
        (o ≡ returned (exit (record { requeue = true; requeue_after = 0 }) none))
        × IsHeld C set_reference scheme reliable key (guarded w) s'
        × SameDeployments C s s'
        × SameServices C s s'
  reconcile_holds w s found live bare =
      let here : workload_at C s (workload_key w) ≡ ok w =
        rw (reliable.consistent.workload-key key s w found) found in
      let accepted = reliable.available.accepts-update_workload (guarded w) s (w, here) in
      let stored = reliable.consistent.update_workload-stored (guarded w) w s here accepted in
      let (deployments, services) = reliable.consistent.update_workload-frame (guarded w) s in
      rw (reconcile-unguarded w s found live bare accepted) (
        refl,
        record {
          is_held = elim stored [
            | inl kept ↦ rw (reliable.consistent.workload-key key s w found) at kept
            | inr (deleting, absent) ↦ ground arith
          ];
          held_live = live;
          held_guarded = reliable.finalizers.contains-add w.metadata.finalizers finalizer_name;
        },
        deployments,
        services,
      )
