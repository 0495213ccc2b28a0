-- ===== src/Controller/Reconcile/Progress.antt =====
-- Runs of `Reconcile` that bring a workload up on a reliable API server: what they keep.
pub mod Held
pub mod Deployed
pub mod Served
pub mod Up
pub mod Fixed
use aperture_ai.Prelude.{◌≡◌, true, none}
use aperture_ai.Kube.{Kube}
use aperture_ai.Kube.Objects.{NamespacedName}
use aperture_ai.V1alpha1.{GpuWorkload, GpuWorkloadPhase, workload_key}
use aperture_ai.Client.{Client, ok, SetControllerReference}
use aperture_ai.Client.Laws.{IsReliable, IsPresent, workload_at}
use aperture_ai.Controller.Status.Stored.{Reports}
use aperture_ai.Controller.Reconcile.Permitted.{IsLive, HasFinalizer}

module _ {K : Kube} (C : Client K) (set_reference : SetControllerReference K) (scheme : K.Scheme)
    (reliable : IsReliable C set_reference scheme) (key : NamespacedName) where
  -- The workload is stored, live, and has the finalizer.
  pub record IsHeld (w : GpuWorkload K) (s : C.State) : Type 0 where
    pub is_held : workload_at C s key ≡ ok w
    pub held_live : IsLive w
    pub held_guarded : HasFinalizer w true

  pub held-key : (w : GpuWorkload K) (s : C.State) → IsHeld w s → workload_key w ≡ key
  held-key w s held = reliable.consistent.workload-key key s w held.is_held

  pub accepts-status :
      (s : C.State) (u : GpuWorkload K)
      → IsPresent K (workload_at C s (workload_key u))
      → (C.update_workload_status u s).0 ≡ none
  accepts-status s u = reliable.available.accepts-update_status u s

  -- After a run the workload is held as before, and is stored with this phase.
  abbrev pub HoldsWith : GpuWorkload K → C.State → GpuWorkloadPhase → Type 0
  HoldsWith w s phase =
      (u : GpuWorkload K) × IsHeld u s × (u.metadata ≡ w.metadata) × (u.status.phase ≡ phase)

  pub Reports-HoldsWith :
      (w : GpuWorkload K) (s₀ s s' : C.State) (phase : GpuWorkloadPhase)
      → IsHeld w s₀
      → Reports C reliable.consistent w s s' phase
      → HoldsWith w s' phase
  Reports-HoldsWith w s₀ s s' phase held r = (
    r.stored,
    record {
      is_held = rw (held-key w s₀ held) at r.is_stored;
      held_live = rw r.has_metadata held.held_live;
      held_guarded = rw r.has_metadata held.held_guarded;
    },
    r.has_metadata,
    r.has_phase,
  )
