-- ===== src/Tests/Interleaved.antt =====
-- Runs at the sample workload while another actor deletes every Deployment before every call.
use aperture_ai.Prelude.{refl, none, [], ℕ}
use aperture_ai.Client.Laws.{RefusalsAreLawful, IsConsistent}
use aperture_ai.Client.Memory.{Cluster}
use aperture_ai.Client.Laws.Memory.{memory_client-IsConsistent, memory_client-RefusalsAreLawful}
use aperture_ai.Controller.Reconcile.Orphans.{NoOrphans}
use aperture_ai.Controller.Reconcile.Orphans.Interleaved.{
  AreFair, run_among, Interleaving, begin, then_run, then_move, Interleaving-NoOrphans,
}
use aperture_ai.Tests.Toy.{toy, toy_reference, toy_client, workload, test_key, cluster}

consistent : IsConsistent toy_client
consistent = memory_client-IsConsistent toy "NotFound" "AlreadyExists" refl

refusals : RefusalsAreLawful toy_client
refusals = memory_client-RefusalsAreLawful toy "NotFound" "AlreadyExists" refl

abbrev wiped : ℕ → Cluster toy → Cluster toy
wiped n c = record c { deployments = λ k. none }

wiped-AreFair : AreFair toy_client consistent refusals test_key wiped
wiped-AreFair = λ n c. record {
  creates_no_deployment = λ h. ("NotFound", refl, refl);
  creates_no_service = λ h. h;
  leaves_guarded = λ h. h;
}

abbrev among : Cluster toy → Cluster toy
among = run_among toy_client consistent refusals test_key toy_reference tt wiped

abbrev start_cluster : Cluster toy
start_cluster = cluster (workload [] none "")

wiped_runs :
    Interleaving toy_client consistent refusals test_key toy_reference tt start_cluster
      (wiped 0 (among (among (among start_cluster))))
wiped_runs =
    then_move (among (among (among start_cluster))) _
      (then_run (among (among start_cluster)) wiped
        (then_run (among start_cluster) wiped (then_run start_cluster wiped begin wiped-AreFair)
          wiped-AreFair)
        wiped-AreFair)
      (wiped-AreFair 0 (among (among (among start_cluster))))

Interleaving-NoOrphans_example :
    NoOrphans toy_client consistent refusals test_key
      (wiped 0 (among (among (among start_cluster))))
Interleaving-NoOrphans_example =
    Interleaving-NoOrphans toy_client consistent refusals test_key toy_reference tt start_cluster
      (wiped 0 (among (among (among start_cluster))))
      (("NotFound", refl, refl), ("NotFound", refl, refl)) wiped_runs
