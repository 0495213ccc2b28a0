-- ===== src/Controller/Status.antt =====
-- `updateStatus`, and the part of `Reconcile` that derives the phase from the Deployment's readiness.
pub mod Laws
pub mod Stored
pub mod Closes
use aperture_ai.Prelude.{
  String, Bool, false, Option, none, some, List, [], ◌∷◌, ℤ, pos, ltb_ℤ, leb_ℤ, ◌&&◌, not, ◌==◌,
  ◌<>◌, if◌then◌else◌,
}
use aperture_ai.Prelude.Format.{sprint_int}
use aperture_ai.Kube.{Kube}
use aperture_ai.Kube.Objects.{Deployment, DeploymentCondition}
use aperture_ai.V1alpha1.{GpuWorkload, GpuWorkloadPhase, phase_pending, phase_running, phase_failed}
use aperture_ai.Client.{Client}
use aperture_ai.Controller.{requeue_delay}
use aperture_ai.Controller.Flow.{Exit, exit, empty_result, Error, api}

module _ {K : Kube} where
  -- The workload with the three fields of its status set.
  unfoldable pub with_status : GpuWorkload K → GpuWorkloadPhase → String → String → GpuWorkload K
  with_status workload phase pod_name message = record workload {
    status = record workload.status { phase = phase; pod_name = pod_name; message = message };
  }

  status_exit : Option K.Error → Exit K
  status_exit none = exit empty_result none
  status_exit (some e) =
      exit (record { requeue = false; requeue_after = requeue_delay }) (some (api e))

module _ {K : Kube} (C : Client K) (workload : GpuWorkload K) where
  unfoldable pub update_status : GpuWorkloadPhase → String → String → C.State → Exit K × C.State
  unfolding with_status status_exit
  update_status phase pod_name message s =
      let (e, s') = C.update_workload_status (with_status workload phase pod_name message) s in
      (status_exit e, s')

-- The test of the loop over the Deployment's conditions: `DeploymentReplicaFailure` is true.
unfoldable pub is_replica_failure : DeploymentCondition → Bool
is_replica_failure c = c.condition_type == "ReplicaFailure" && c.status == "True"

-- The first condition at which the loop returns.
unfoldable pub first_failure : List DeploymentCondition → Option DeploymentCondition
unfolding is_replica_failure
first_failure [] = none
first_failure (c ∷ cs) = if is_replica_failure c then some c else first_failure cs

module _ {K : Kube} (deploy : Deployment K) where
  abbrev pub ready_replicas : ℤ
  ready_replicas = deploy.status.ready_replicas

  replicas_or_one : Option ℤ → ℤ
  replicas_or_one none = pos 1
  replicas_or_one (some n) = n

  -- One, unless the Deployment's spec says otherwise.
  unfoldable pub desired_replicas : ℤ
  unfolding replicas_or_one
  desired_replicas = replicas_or_one deploy.spec.replicas

  abbrev pub is_ready : Bool
  is_ready = leb_ℤ desired_replicas ready_replicas && ltb_ℤ (pos 0) desired_replicas

  abbrev pub running_message : String
  running_message =
      "Inference server running ("
      <> (sprint_int ready_replicas <> ("/" <> (sprint_int desired_replicas <> " replicas ready)")))

module _ {K : Kube} (C : Client K) (workload : GpuWorkload K) (deploy : Deployment K)
    (deploy_name : String) where
  -- The status is written only if the phase changes.
  unfoldable pub unless_phase : GpuWorkloadPhase → String → C.State → Exit K × C.State
  unfolding update_status
  unless_phase phase message s =
      if not (workload.status.phase == phase)
      then update_status C workload phase deploy_name message s
      else (exit empty_result none, s)

  -- The second case of the `switch`: behind the loop over the conditions.
  unfoldable pub when_unavailable : Option DeploymentCondition → C.State → Exit K × C.State
  unfolding update_status unless_phase
  when_unavailable (some c) s =
      update_status C workload phase_failed deploy_name
        ("Deployment replica failure: " <> c.message) s
  when_unavailable none s = unless_phase phase_pending "Inference pods are starting up" s

  unfoldable pub update_readiness : C.State → Exit K × C.State
  unfolding unless_phase when_unavailable first_failure desired_replicas
  update_readiness s =
      if is_ready deploy
      then unless_phase phase_running (running_message deploy) s
      else if ltb_ℤ (pos 0) deploy.status.unavailable_replicas
      then when_unavailable (first_failure deploy.status.conditions) s
      else unless_phase phase_pending "Waiting for inference pods to schedule" s
