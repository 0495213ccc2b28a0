-- ===== src/Controller/Spec/Refines.antt =====
-- `Reconcile` implements the specification.
pub mod Owned
pub mod Released
use aperture_ai.Prelude.{◌≡◌, refl, true, false, some, none, Option, Bool}
use aperture_ai.Kube.{Kube}
use aperture_ai.Kube.Objects.{NamespacedName}
use aperture_ai.V1alpha1.{GpuWorkload, GpuWorkloadPhase, phase_pending}
use aperture_ai.Client.{Client, ok, SetControllerReference}
use aperture_ai.Client.Laws.{IsReliable, AcceptsDeletions, workload_at}
use aperture_ai.Controller.Flow.{exit, empty_result, returned}
use aperture_ai.Controller.Reconcile.{reconcile}
use aperture_ai.Controller.Reconcile.Progress.Held.{guarded}
use aperture_ai.Controller.Spec.{Owner, View, Choice, next_of, next_view}
use aperture_ai.Controller.Spec.Shows.{Looks, ShowsDeployment, ShowsService, Shows}
use aperture_ai.Controller.Spec.Does.{Does}
use aperture_ai.Controller.Spec.Refines.Owned.{Does-guard, Does-deploy, Does-serve}
use aperture_ai.Controller.Spec.Refines.Released.{Does-release, reconcile-gone, reconcile-let_go}

-- Where the server has nothing to decide.
abbrev any_choice : Choice
any_choice = record { stays = true; shown = phase_pending }

module _ {K : Kube} (C : Client K) (set_reference : SetControllerReference K) (scheme : K.Scheme)
    (reliable : IsReliable C set_reference scheme) (key : NamespacedName) where
  -- The step that the specification makes for a workload and what belongs to it.
  abbrev Steps : C.State → Option Owner → Option GpuWorkloadPhase → Bool → Type 0
  Steps s o d b =
      (c : Choice) × Does C set_reference scheme reliable key s
        (next_of c o (record { workload = o; deployment = d; service = b })).0
        (next_of c o (record { workload = o; deployment = d; service = b })).1

  -- Nothing is done, and nothing changes.
  Does-nothing :
      (s : C.State) (v : View)
      → reconcile C set_reference scheme key s ≡ (returned (exit empty_result none), s)
      → Shows C key s v
      → Does C set_reference scheme reliable key s empty_result v
  Does-nothing s v still h = rw still (refl, h)

  Steps-owner :
      AcceptsDeletions C
      → (live guarded : Bool) (phase : GpuWorkloadPhase) (d : Option GpuWorkloadPhase) (b : Bool)
        (w : GpuWorkload K) (s : C.State)
      → workload_at C s key ≡ ok w
      → Looks w (record { live = live; guarded = guarded; phase = phase })
      → ShowsDeployment C key s d
      → ShowsService C key s b
      → Steps s (some (record { live = live; guarded = guarded; phase = phase })) d b
  Steps-owner deletions true true phase none b w s found looks shows service =
      Does-deploy C set_reference scheme reliable key w phase b s found looks shows service
  Steps-owner deletions true true phase (some shown) b w s found looks (d, deployed, observed)
        service =
      (
        record { stays = true; shown = shown },
        Does-serve C set_reference scheme reliable key w phase shown b s d found looks deployed
            observed service,
      )
  Steps-owner deletions true false phase d b w s found looks shows service = (
    any_choice,
    Does-guard C set_reference scheme reliable key w phase
        (record {
          workload = some (record { live = true; guarded = false; phase = phase });
          deployment = d;
          service = b;
        })
        s found looks shows service,
  )
  Steps-owner deletions false true phase d b w s found looks shows service =
      let (stays, does) =
        Does-release C set_reference scheme reliable key deletions w phase
          (record {
            workload = some (record { live = false; guarded = true; phase = phase });
            deployment = d;
            service = b;
          })
          s found looks shows service in
      (record { stays = stays; shown = phase_pending }, does)
  Steps-owner deletions false false phase d b w s found looks shows service = (
    any_choice,
    Does-nothing s
        (record {
          workload = some (record { live = false; guarded = false; phase = phase });
          deployment = d;
          service = b;
        })
        (reconcile-let_go C set_reference scheme reliable key w s found looks.looks_live
          looks.looks_guarded)
        (record {
          shows_workload = (w, found, looks);
          shows_deployment = shows;
          shows_service = service;
        }),
  )

  Steps-shown :
      AcceptsDeletions C
      → (o : Option Owner) (d : Option GpuWorkloadPhase) (b : Bool) (s : C.State)
      → Shows C key s (record { workload = o; deployment = d; service = b })
      → Steps s o d b
  Steps-shown deletions none d b s h = (
    any_choice,
    Does-nothing s (record { workload = none; deployment = d; service = b })
        (reconcile-gone C set_reference scheme reliable key s h.shows_workload) h,
  )
  Steps-shown deletions (some a) d b s h =
      let (w, found, looks) = h.shows_workload in
      Steps-owner deletions a.live a.guarded a.phase d b w s found looks h.shows_deployment
        h.shows_service

  -- On a reliable server that accepts deletions `Reconcile` implements the specification: from every
  -- state that is seen as some view, a run returns the result that the specification gives, with no
  -- error, and leaves a state that is seen as the specification's next view, for some choice of what
  -- the server decides.
  pub reconcile_refines :
      AcceptsDeletions C
      → (v : View) (s : C.State) → Shows C key s v
      → (c : Choice) × ((reconcile C set_reference scheme key s).0
          ≡ returned (exit (next_view c v).0 none))
        × Shows C key (reconcile C set_reference scheme key s).1 (next_view c v).1
  reconcile_refines deletions v s h =
      let (c, (o, shows)) = Steps-shown deletions v.workload v.deployment v.service s h in
      (c, o, shows)
