-- ===== src/Client/Laws/Memory.antt =====
-- The server in memory is consistent.
use aperture_ai.Prelude.{◌≡◌, refl, arith, true, some, eq_iff, inl}
use aperture_ai.Kube.{Kube}
use aperture_ai.Kube.Objects.{NamespacedName, ObjectMeta, object_key}
use aperture_ai.V1alpha1.{GpuWorkload, workload_key}
use aperture_ai.Client.{Client, SetControllerReference}
use aperture_ai.Client.Laws.{
  AcceptsDeletions, RefusalsAreLawful, IsConsistent, IsAvailable, IsPresent,
}
use aperture_ai.Client.Memory.{memory_client, same_key}

same_key_refl : (k : NamespacedName) → same_key k k ≡ true
same_key_refl k = ground (arith, eq_iff k.name k.name, eq_iff k.namespace k.namespace)

same_key-eq : (a b : NamespacedName) → same_key a b ≡ true → a ≡ b
same_key-eq a b h = ground (arith, eq_iff a.name b.name, eq_iff a.namespace b.namespace)

module _ (K : Kube) (missing exists : K.Error) (lawful : K.is_not_found (some missing) ≡ true) where
  abbrev C : Client K
  C = memory_client K missing exists

  pub memory_client-IsConsistent : IsConsistent C
  memory_client-IsConsistent = record {
    get_workload-state = λ k s. refl;
    get_deployment-state = λ k s. refl;
    get_service-state = λ k s. refl;
    workload-key = λ k s w h. same_key-eq (workload_key w) k (ground (arith));
    deployment-key = λ k s d h. same_key-eq (object_key d.metadata) k (ground arith);
    service-key = λ k s v h. same_key-eq (object_key v.metadata) k (ground arith);
    create_deployment-stored = λ d s h. (d, ground (arith, same_key_refl (object_key d.metadata)));
    create_deployment-frame = λ d s. (λ k. ground arith, λ k. ground arith);
    create_service-stored = λ v s h. (v, ground (arith, same_key_refl (object_key v.metadata)));
    create_service-frame = λ v s. (λ k. ground arith, λ k. ground arith);
    update_workload-stored = λ w old s h a. inl (ground (arith, same_key_refl (workload_key w)));
    update_workload-frame = λ w s. (λ k. ground arith, λ k. ground arith);
    update_status-stored = λ w old s h a. ground (arith, same_key_refl (workload_key w));
    update_status-frame = λ w s. (λ k. ground arith, λ k. ground arith);
    delete_deployment-stored =
        λ d s h. (missing, ground (arith, same_key_refl (object_key d.metadata)), lawful);
    delete_deployment-missing = λ d s e h n. (e, ground arith, n);
    delete_deployment-frame = λ d s. (λ k. ground arith, λ k. ground arith);
    delete_service-stored =
        λ v s h. (missing, ground (arith, same_key_refl (object_key v.metadata)), lawful);
    delete_service-missing = λ v s e h n. (e, ground arith, n);
    delete_service-frame = λ v s. (λ k. ground arith, λ k. ground arith);
  }

  -- It accepts what the operator writes, if references can be set.
  pub memory_client-IsAvailable :
      (set_reference : SetControllerReference K) (scheme : K.Scheme)
      → ((w : GpuWorkload K) (m : ObjectMeta K) → IsPresent K (set_reference w m scheme))
      → IsAvailable C set_reference scheme
  memory_client-IsAvailable set_reference scheme references = record {
    accepts-reference = references;
    accepts-create_deployment = λ d s (x, e, m). ground arith;
    accepts-create_service = λ v s (x, e, m). ground arith;
    accepts-update_workload = λ w s (u, e). ground arith;
    accepts-update_status = λ w s (u, e). ground arith;
  }

  pub memory_client-RefusalsAreLawful : RefusalsAreLawful C
  memory_client-RefusalsAreLawful = record {
    update_workload-refused = λ w s e h k. ground arith;
    update_status-refused = λ w s e h k. ground arith;
  }

  pub memory_client-AcceptsDeletions : AcceptsDeletions C
  memory_client-AcceptsDeletions = record {
    accepts-delete_deployment = λ d s (u, e). ground arith;
    accepts-delete_service = λ v s (u, e). ground arith;
  }
