-- ===== src/Controller/Spec/Refines/Owned.antt =====
-- A live workload: the runs that add the finalizer, make the Deployment, make the Service and report.
use aperture_ai.Prelude.{◌≡◌, true, false, some, none, Bool}
use aperture_ai.Kube.{Kube}
use aperture_ai.Kube.Objects.{NamespacedName, Deployment}
use aperture_ai.V1alpha1.{GpuWorkload, GpuWorkloadPhase, workload_key, phase_pending}
use aperture_ai.Client.{Client, ok, SetControllerReference}
use aperture_ai.Client.Laws.{IsReliable, IsAbsent, workload_at, deployment_at}
use aperture_ai.Controller.Flow.{empty_result}
use aperture_ai.Controller.Reconcile.{reconcile}
use aperture_ai.Controller.Reconcile.Names.{deployment_of, deploy_key_of_key, svc_key_of_key}
use aperture_ai.Controller.Reconcile.Progress.{IsHeld, HoldsWith}
use aperture_ai.Controller.Reconcile.Progress.Held.{guarded, reconcile_holds}
use aperture_ai.Controller.Reconcile.Progress.Deployed.{reconcile_deploys}
use aperture_ai.Controller.Reconcile.Progress.Served.{Serves, reconcile-Serves, reconcile_keeps}
use aperture_ai.Controller.Spec.{View, Choice, next_owned}
use aperture_ai.Controller.Spec.Shows.{Looks, ShowsWorkload, ShowsDeployment, ShowsService, Shows}
use aperture_ai.Controller.Spec.Observed.{Observed-unique, Observed-total}
use aperture_ai.Controller.Status.Laws.{Observed}
use aperture_ai.Controller.Spec.Does.{Does, keeps_service, keeps_deployment}

module _ {K : Kube} (C : Client K) (set_reference : SetControllerReference K) (scheme : K.Scheme)
    (reliable : IsReliable C set_reference scheme) (key : NamespacedName) where
  shows_held :
      (w : GpuWorkload K) (s : C.State) (phase : GpuWorkloadPhase)
      → HoldsWith C set_reference scheme reliable key w s phase
      → ShowsWorkload C key s (some (record { live = true; guarded = true; phase = phase }))
  shows_held w s phase (u, held, same, e) = (
    u,
    held.is_held,
    record { looks_live = held.held_live; looks_guarded = held.held_guarded; looks_phase = e },
  )

  pub Does-guard :
      (w : GpuWorkload K) (phase : GpuWorkloadPhase) (v : View) (s : C.State)
      → workload_at C s key ≡ ok w
      → Looks w (record { live = true; guarded = false; phase = phase })
      → ShowsDeployment C key s v.deployment
      → ShowsService C key s v.service
      → Does C set_reference scheme reliable key s
          (record { requeue = true; requeue_after = 0 })
          (record v { workload = some (record { live = true; guarded = true; phase = phase }) })
  Does-guard w phase v s found looks d service =
      let (o, held, deployments, services) =
        reconcile_holds C set_reference scheme reliable key w s found looks.looks_live
          looks.looks_guarded in
      let s' = (reconcile C set_reference scheme key s).1 in
      (
        o,
        record {
          shows_workload = (
            guarded C set_reference scheme reliable key w,
            held.is_held,
            record {
              looks_live = held.held_live;
              looks_guarded = held.held_guarded;
              looks_phase = looks.looks_phase;
            },
          );
          shows_deployment =
              keeps_deployment C set_reference scheme reliable key s s' v.deployment deployments d;
          shows_service =
              keeps_service C set_reference scheme reliable key s s' v.service services service;
        },
      )

  IsHeld-of :
      (w : GpuWorkload K) (phase : GpuWorkloadPhase) (s : C.State)
      → workload_at C s key ≡ ok w
      → Looks w (record { live = true; guarded = true; phase = phase })
      → IsHeld C set_reference scheme reliable key w s
  IsHeld-of w phase s found looks = record {
    is_held = found;
    held_live = looks.looks_live;
    held_guarded = looks.looks_guarded;
  }

  pub Does-deploy :
      (w : GpuWorkload K) (phase : GpuWorkloadPhase) (service : Bool) (s : C.State)
      → workload_at C s key ≡ ok w
      → Looks w (record { live = true; guarded = true; phase = phase })
      → IsAbsent K (deployment_at C s (deployment_of key))
      → ShowsService C key s service
      → (c : Choice) × Does C set_reference scheme reliable key s empty_result
          (next_owned c (record { live = true; guarded = true; phase = phase }) none service)
  Does-deploy w phase service s found looks absent shows =
      let named = reliable.consistent.workload-key key s w found in
      let held = IsHeld-of w phase s found looks in
      let s' = (reconcile C set_reference scheme key s).1 in
      let (o, holds, (d, deployed), services) =
        reconcile_deploys C set_reference scheme reliable key w s held
          (rw (deploy_key_of_key w named) absent) in
      let (shown, observed) = Observed-total d in
      (
        record { stays = true; shown = shown },
        (
          o,
          record {
            shows_workload = shows_held w s' phase_pending holds;
            shows_deployment = (d, rw (deploy_key_of_key w named) at deployed, observed);
            shows_service =
                keeps_service C set_reference scheme reliable key s s' service services shows;
          },
        ),
      )

  Shows-served :
      (w : GpuWorkload K) (d : Deployment K) (shown : GpuWorkloadPhase) (s : C.State)
      → workload_key w ≡ key
      → Observed d shown
      → Serves C set_reference scheme reliable key w d s
      → Shows C key s (
          next_owned
            (record { stays = true; shown = shown })
            (record { live = true; guarded = true; phase = shown })
            (some shown)
            true)
  Shows-served w d shown s named observed (deployed, service, (phase, observed', holds)) = record {
    shows_workload =
        rw (Observed-unique d phase shown observed' observed) at (shows_held w s phase holds);
    shows_deployment = (d, rw (deploy_key_of_key w named) at deployed, observed);
    shows_service = rw (svc_key_of_key w named) at service;
  }

  pub Does-serve :
      (w : GpuWorkload K) (phase shown : GpuWorkloadPhase) (service : Bool) (s : C.State)
      (d : Deployment K)
      → workload_at C s key ≡ ok w
      → Looks w (record { live = true; guarded = true; phase = phase })
      → deployment_at C s (deployment_of key) ≡ ok d
      → Observed d shown
      → ShowsService C key s service
      → Does C set_reference scheme reliable key s empty_result (
          next_owned
            (record { stays = true; shown = shown })
            (record { live = true; guarded = true; phase = phase })
            (some shown)
            service)
  Does-serve w phase shown true s d found looks deployed observed served =
      let named = reliable.consistent.workload-key key s w found in
      let (o, serves) =
        reconcile_keeps C set_reference scheme reliable key w d s (IsHeld-of w phase s found looks)
          (rw (deploy_key_of_key w named) deployed) (rw (svc_key_of_key w named) served) in
      (o, Shows-served w d shown (reconcile C set_reference scheme key s).1 named observed serves)
  Does-serve w phase shown false s d found looks deployed observed unserved =
      let named = reliable.consistent.workload-key key s w found in
      let (o, serves) =
        reconcile-Serves C set_reference scheme reliable key w d s (IsHeld-of w phase s found looks)
          (rw (deploy_key_of_key w named) deployed) (rw (svc_key_of_key w named) unserved) in
      (o, Shows-served w d shown (reconcile C set_reference scheme key s).1 named observed serves)
