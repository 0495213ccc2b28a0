-- ===== src/Client/Interleaved.antt =====
-- A client before whose every call other actors change the state of the server: their change before
-- the call `n` of a run is `moves n`. The operator sees the server through it while others work.
use aperture_ai.Prelude.{ℕ, suc}
use aperture_ai.Kube.{Kube}
use aperture_ai.Kube.Objects.{NamespacedName}
use aperture_ai.Client.{Client}
use aperture_ai.Client.Spares.{Spares, Clears}

abbrev pub after_move : {S A : Type 0} → (ℕ → S → S) → (S → A × S) → S × ℕ → A × (S × ℕ)
after_move moves call (s, n) = let (a, s') = call (moves n s) in (a, (s', suc n))

abbrev pub interleaved : {K : Kube} (C : Client K) → (ℕ → C.State → C.State) → Client K
interleaved C moves = record {
  State = C.State × ℕ;
  get_workload = λ k. after_move moves (C.get_workload k);
  get_deployment = λ k. after_move moves (C.get_deployment k);
  get_service = λ k. after_move moves (C.get_service k);
  create_deployment = λ d. after_move moves (C.create_deployment d);
  create_service = λ v. after_move moves (C.create_service v);
  update_workload = λ w. after_move moves (C.update_workload w);
  update_workload_status = λ w. after_move moves (C.update_workload_status w);
  delete_deployment = λ d. after_move moves (C.delete_deployment d);
  delete_service = λ v. after_move moves (C.delete_service v);
}

module _ {K : Kube} (C : Client K) (moves : ℕ → C.State → C.State) where
  -- No move takes it away.
  abbrev pub Withstands : (C.State → Type 0) → Type 0
  Withstands I = (n : ℕ) (s : C.State) → I s → I (moves n s)

  abbrev pub BeforeCall : (C.State → Type 0) → C.State × ℕ → Type 0
  BeforeCall I (s, n) = I s

  pub interleaved-Spares :
      (key : NamespacedName) (I : C.State → Type 0)
      → Spares C key I
      → Withstands I
      → Spares (interleaved C moves) key (BeforeCall I)
  interleaved-Spares key I spared stays =
      let kept = spared.attends in
      record {
        attends = record {
          get_service_kept = λ k (s, n) h. kept.get_service_kept k (moves n s) (stays n s h);
          create_service_kept = λ v (s, n) h. kept.create_service_kept v (moves n s) (stays n s h);
          status_kept = λ u (s, n) at_key h. kept.status_kept u (moves n s) at_key (stays n s h);
        };
        get_deployment_kept = λ k (s, n) h. spared.get_deployment_kept k (moves n s) (stays n s h);
        create_deployment_kept =
            λ d (s, n) h. spared.create_deployment_kept d (moves n s) (stays n s h);
        delete_deployment_kept =
            λ d (s, n) h. spared.delete_deployment_kept d (moves n s) (stays n s h);
        delete_service_kept = λ v (s, n) h. spared.delete_service_kept v (moves n s) (stays n s h);
      }

  pub interleaved-Clears :
      (deployment service : NamespacedName) (D V : C.State → Type 0)
      → Clears C deployment service D V
      → Withstands D
      → Clears (interleaved C moves) deployment service (BeforeCall D) (BeforeCall V)
  interleaved-Clears deployment service D V clears stays = record {
    deployment_absent = λ (s, n) e q h. clears.deployment_absent (moves n s) e q h;
    deployment_deleted =
        λ (s, n) (s', n') d q gone. clears.deployment_deleted (moves n s) (moves n' s') d q gone;
    service_absent = λ (s, n) e q h. clears.service_absent (moves n s) e q h;
    service_deleted =
        λ (s, n) (s', n') v q gone. clears.service_deleted (moves n s) (moves n' s') v q gone;
    get_service_clear = λ k (s, n) h. clears.get_service_clear k (moves n s) (stays n s h);
    delete_service_clear = λ v (s, n) h. clears.delete_service_clear v (moves n s) (stays n s h);
  }
