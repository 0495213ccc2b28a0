-- ===== src/Controller/Reconcile/Orphans/Interleaved.antt =====
-- Runs whose calls interleave with the changes of other actors: nothing is orphaned.
use aperture_ai.Prelude.{◌⊎◌, inl, inr, ℕ}
use aperture_ai.Kube.{Kube}
use aperture_ai.Kube.Objects.{NamespacedName}
use aperture_ai.Client.{Client, SetControllerReference}
use aperture_ai.Client.Laws.{RefusalsAreLawful, IsConsistent, IsAbsent, deployment_at, service_at}
use aperture_ai.Client.Interleaved.{
  interleaved, Withstands, BeforeCall, interleaved-Spares, interleaved-Clears,
}
use aperture_ai.Controller.Reconcile.{reconcile}
use aperture_ai.Controller.Reconcile.Names.{deployment_of, service_of}
use aperture_ai.Controller.Reconcile.Orphans.{IsClear, NoOrphans, server-Wards}
use aperture_ai.Controller.Reconcile.Orphans.Guarded.{IsGuarded}
use aperture_ai.Controller.Reconcile.Orphans.Runs.{Wards, reconcile-Safe}

module _ {K : Kube} (C : Client K) (moves : ℕ → C.State → C.State) (key : NamespacedName)
    (G D V : C.State → Type 0) (wards : Wards C key G D V) where
  interleaved-Wards :
      Withstands C moves G
      → Withstands C moves D
      → Withstands C moves V
      → Wards
          (interleaved C moves)
          key
          (BeforeCall C moves G)
          (BeforeCall C moves D)
          (BeforeCall C moves V)
  interleaved-Wards g d v =
      let held : (n : ℕ) (s : C.State)
          → G s ⊎ (D s × V s)
          → G (moves n s) ⊎ (D (moves n s) × V (moves n s)) =
        λ n s h. elim h [
          | inl guarded ↦ inl (g n s guarded)
          | inr (absent, gone) ↦ inr (d n s absent, v n s gone)
        ] in
      record {
        spares = interleaved-Spares C moves key G wards.spares g;
        clears = interleaved-Clears C moves _ _ D V wards.clears d;
        workload_named = λ (s, n) w found. wards.workload_named (moves n s) w found;
        looked_up = λ (s, n) h. wards.looked_up (moves n s) (held n s h);
        found_guarded = λ (s, n) w found guarded. wards.found_guarded (moves n s) w found guarded;
        found_bare =
            λ (s, n) w found bare h. wards.found_bare (moves n s) w found bare (held n s h);
        update_clear =
            λ u (s, n) (absent, gone). wards.update_clear u (moves n s) (d n s absent, v n s gone);
      }

module _ {K : Kube} (C : Client K) (lawful : IsConsistent C) (refusals : RefusalsAreLawful C)
    (key : NamespacedName) where
  -- Another actor creates nothing under the operator's names, and takes neither the finalizer nor a
  -- workload that has it away. It may delete, and change all else.
  pub record IsFairMove (s s' : C.State) : Type 0 where
    pub creates_no_deployment :
        IsAbsent K (deployment_at C s (deployment_of key))
        → IsAbsent K (deployment_at C s' (deployment_of key))
    pub creates_no_service :
        IsAbsent K (service_at C s (service_of key)) → IsAbsent K (service_at C s' (service_of key))
    pub leaves_guarded : IsGuarded C lawful refusals key s → IsGuarded C lawful refusals key s'

  abbrev pub AreFair : (ℕ → C.State → C.State) → Type 0
  AreFair moves = (n : ℕ) (s : C.State) → IsFairMove s (moves n s)

  module _ (set_reference : SetControllerReference K) (scheme : K.Scheme) where
    -- The state behind a run before whose every call other actors make a move.
    abbrev pub run_among : (ℕ → C.State → C.State) → C.State → C.State
    run_among moves s = (reconcile (interleaved C moves) set_reference scheme key (s, 0)).1.0

    -- Runs among the moves of other actors, and moves between the runs.
    pub data Interleaving (s : C.State) : C.State → Type 0 where
      begin : Interleaving s s
      then_run :
          (s' : C.State) (moves : ℕ → C.State → C.State)
          → Interleaving s s'
          → AreFair moves
          → Interleaving s (run_among moves s')
      then_move : (s' s'' : C.State) → Interleaving s s' → IsFairMove s' s'' → Interleaving s s''

    run_among-NoOrphans :
        (moves : ℕ → C.State → C.State) (s : C.State)
        → AreFair moves
        → NoOrphans C lawful refusals key s
        → NoOrphans C lawful refusals key (run_among moves s)
    run_among-NoOrphans moves s fair h =
        reconcile-Safe (interleaved C moves) key _ _ _
          (interleaved-Wards C moves key _ _ _ (server-Wards C lawful refusals key)
            (λ n t held. (fair n t).leaves_guarded held)
            (λ n t held. (fair n t).creates_no_deployment held)
            (λ n t held. (fair n t).creates_no_service held))
          set_reference scheme (s, 0) h

    -- On a consistent server (so one that never answers from a stale cache) whose refusals change
    -- nothing, other actors may make a fair move before every single call of a run, and between the
    -- runs: whatever follows on a state in which neither the Deployment nor the Service of the key is
    -- there, a Deployment or a Service of it never stands there at the end of a run, or after
    -- a move behind one, without the workload and its finalizer.
    pub Interleaving-NoOrphans :
        (s s' : C.State)
        → IsClear C lawful refusals key s
        → Interleaving s s'
        → NoOrphans C lawful refusals key s'
    Interleaving-NoOrphans s s' clear begin = inr clear
    Interleaving-NoOrphans s s' clear (then_run t moves before fair) =
        run_among-NoOrphans moves t fair (Interleaving-NoOrphans s t clear before)
    Interleaving-NoOrphans s s' clear (then_move t _ before fair) =
        elim (Interleaving-NoOrphans s t clear before) [
          | inl guarded ↦ inl (fair.leaves_guarded guarded)
          | inr (absent, gone) ↦
              inr (fair.creates_no_deployment absent, fair.creates_no_service gone)
        ]
