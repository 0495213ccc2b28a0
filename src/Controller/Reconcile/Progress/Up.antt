-- ===== src/Controller/Reconcile/Progress/Up.antt =====
-- The runs one after the other: a new workload is up after three of them, and stays up.
use aperture_ai.Prelude.{◌≡◌, true, false, none, ℕ, zero, suc}
use aperture_ai.Kube.{Kube}
use aperture_ai.Kube.Objects.{NamespacedName, Deployment}
use aperture_ai.V1alpha1.{GpuWorkload, phase_pending}
use aperture_ai.Client.{Client, ok, SetControllerReference}
use aperture_ai.Client.Laws.{IsReliable, IsAbsent, workload_at, deployment_at, service_at}
use aperture_ai.Controller.Flow.{exit, empty_result, returned}
use aperture_ai.Controller.Cleanup.{deploy_key, svc_key}
use aperture_ai.Controller.Reconcile.{reconcile}
use aperture_ai.Controller.Reconcile.Permitted.{IsLive, HasFinalizer}
use aperture_ai.Controller.Reconcile.Progress.{IsHeld, HoldsWith}
use aperture_ai.Controller.Reconcile.Progress.Held.{guarded, reconcile_holds}
use aperture_ai.Controller.Reconcile.Progress.Deployed.{reconcile_deploys}
use aperture_ai.Controller.Reconcile.Progress.Served.{Serves, reconcile-Serves, reconcile_keeps}

module _ {K : Kube} (C : Client K) (set_reference : SetControllerReference K) (scheme : K.Scheme)
    (reliable : IsReliable C set_reference scheme) (key : NamespacedName) where
  -- The state after a number of runs for the workload at `key`, with no other actor in between.
  abbrev pub after_runs : ℕ → C.State → C.State
  after_runs zero s = s
  after_runs (suc n) s = after_runs n (reconcile C set_reference scheme key s).1

  keeps_Serves :
      (w : GpuWorkload K) (d : Deployment K) (s : C.State)
      → Serves C set_reference scheme reliable key w d s
      → Serves C set_reference scheme reliable key w d (after_runs 1 s)
  keeps_Serves w d s (deployed, service, (phase, observed, (u, held, same_metadata, e))) =
      rw same_metadata at
        (reconcile_keeps C set_reference scheme reliable key u d s held (rw same_metadata deployed)
          (rw same_metadata service)).1

  stays_Serves :
      (w : GpuWorkload K) (d : Deployment K) (s : C.State) (n : ℕ)
      → Serves C set_reference scheme reliable key w d s
      → Serves C set_reference scheme reliable key w d (after_runs n s)
  stays_Serves w d s zero h = h
  stays_Serves w d s (suc n) h = stays_Serves w d (after_runs 1 s) n (keeps_Serves w d s h)

  -- A workload that is new: live, without the finalizer, and with nothing made for it.
  pub record IsNew (w : GpuWorkload K) (s : C.State) : Type 0 where
    pub is_found : workload_at C s key ≡ ok w
    pub new_live : IsLive w
    pub new_bare : HasFinalizer w false
    pub new_undeployed : IsAbsent K (deployment_at C s (deploy_key w))
    pub new_unserved : IsAbsent K (service_at C s (svc_key w))

  -- The workload after its first run.
  abbrev pub held : GpuWorkload K → GpuWorkload K
  held w = guarded C set_reference scheme reliable key w

  -- A new workload (live, without the finalizer, and with nothing made for it) on a reliable server,
  -- with no other actor: the first run stores it with the finalizer and asks for another run; behind
  -- the second, which returns with no error and no such wish, a Deployment is there, the phase Pending
  -- is stored, and the Service is still missing; behind the third and each one after it the same
  -- Deployment is there, so is a Service, and the workload is stored with its finalizer and with the
  -- phase that the Deployment shows.
  pub reconcile_brings_up :
      (w : GpuWorkload K) (s : C.State)
      → IsNew w s
      → ((reconcile C set_reference scheme key s).0
          ≡ returned (exit (record { requeue = true; requeue_after = 0 }) none))
        × IsHeld C set_reference scheme reliable key (held w) (after_runs 1 s)
        × ((reconcile C set_reference scheme key (after_runs 1 s)).0
            ≡ returned (exit empty_result none))
        × IsAbsent K (service_at C (after_runs 2 s) (svc_key w))
        × HoldsWith C set_reference scheme reliable key (held w) (after_runs 2 s) phase_pending
        × ((d : Deployment K) × (deployment_at C (after_runs 2 s) (deploy_key w) ≡ ok d)
            × ((n : ℕ)
                → Serves C set_reference scheme reliable key
                    (held w)
                    d
                    (after_runs (suc (suc (suc n))) s)))
  reconcile_brings_up w s new =
      let (o₁, holds, deployments₁, services₁) =
        reconcile_holds C set_reference scheme reliable key w s new.is_found new.new_live
          new.new_bare in
      let undeployed : IsAbsent K (deployment_at C (after_runs 1 s) (deploy_key w)) =
        rw (deployments₁ (deploy_key w)) new.new_undeployed in
      let (o₂, (u, held₂, same_metadata, pending), (d, deployed), services₂) =
        reconcile_deploys C set_reference scheme reliable key (held w) (after_runs 1 s) holds
          undeployed in
      let unserved : IsAbsent K (service_at C (after_runs 2 s) (svc_key w)) =
        rw (services₂ (svc_key w)) (rw (services₁ (svc_key w)) new.new_unserved) in
      let served =
        reconcile-Serves C set_reference scheme reliable key u d (after_runs 2 s) held₂
          (rw same_metadata deployed) (rw same_metadata unserved) in
      let up : Serves C set_reference scheme reliable key (held w) d (after_runs 3 s) =
        rw same_metadata at served.1 in
      (
        o₁,
        holds,
        o₂,
        unserved,
        (u, held₂, same_metadata, pending),
        (d, deployed, λ n. stays_Serves (held w) d (after_runs 3 s) n up),
      )
