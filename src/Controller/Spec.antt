-- ===== src/Controller/Spec.antt =====
-- What the operator promises, without Kubernetes: a machine over what can be seen of one workload,
-- its Deployment and its Service. `Spec/Refines` shows that `Reconcile` implements it.
pub mod Shows
pub mod Observed
pub mod Does
pub mod Refines
pub mod Heals
use aperture_ai.Prelude.{Bool, true, false, Option, none, some, if◌then◌else◌}
use aperture_ai.V1alpha1.{GpuWorkloadPhase, phase_pending}
use aperture_ai.Controller.Flow.{CtrlResult, empty_result}

-- A workload: whether it is live, or being deleted; whether it has the finalizer; its phase.
pub record Owner : Type 0 where
  pub live : Bool
  pub guarded : Bool
  pub phase : GpuWorkloadPhase

-- A Deployment is seen by the phase that it shows.
pub record View : Type 0 where
  pub workload : Option Owner
  pub deployment : Option GpuWorkloadPhase
  pub service : Bool

-- What the server decides: whether an object that is let go stays on (for other finalizers), and the
-- phase that a Deployment shows when it is new.
pub record Choice : Type 0 where
  pub stays : Bool
  pub shown : GpuWorkloadPhase

module _ (c : Choice) where
  -- A workload that is live and has the finalizer: one object is made in each step, the Deployment
  -- first; where the Deployment was there before, the step reports the phase that it shows.
  abbrev pub next_owned : Owner → Option GpuWorkloadPhase → Bool → View
  next_owned w none service = record {
    workload = some (record w { phase = phase_pending });
    deployment = some c.shown;
    service = service;
  }
  next_owned w (some shown) service = record {
    workload = some (record w { phase = shown });
    deployment = some shown;
    service = true;
  }

  abbrev pub next_of : Option Owner → View → CtrlResult × View
  next_of none v = (empty_result, v)
  next_of (some w) v =
      if w.live
      then if w.guarded then (empty_result, next_owned w v.deployment v.service) else (
        record { requeue = true; requeue_after = 0 },
        record v { workload = some (record w { guarded = true }) },
      )
      else if w.guarded
      then (
        empty_result,
        record {
          workload = if c.stays then some (record w { guarded = false }) else none;
          deployment = none;
          service = false;
        },
      )
      else (empty_result, v)

  -- One run: its result, and what is seen after it.
  abbrev pub next_view : View → CtrlResult × View
  next_view v = next_of v.workload v
