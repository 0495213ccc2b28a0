-- ===== src/Client/Laws.antt =====
-- What a consistent API server does, as hypotheses: a lookup changes nothing and answers with the object
-- of that key, an accepted write shows in the next lookup, and it touches no other kind of object. A
-- server that answers from a stale cache, or that another actor changes in between, is not one.
pub mod Memory
use aperture_ai.Prelude.{◌≡◌, ◌⊎◌, some, none, true, false}
use aperture_ai.Kube.{Kube}
use aperture_ai.Kube.Laws.{NotFoundIsLawful, FinalizersAreLawful, QuantitiesAreLawful}
use aperture_ai.Kube.Objects.{NamespacedName, ObjectMeta, Deployment, Service, object_key}
use aperture_ai.V1alpha1.{GpuWorkload, workload_key}
use aperture_ai.Client.{Client, Result, ok, err, SetControllerReference}

module _ {K : Kube} (C : Client K) (s : C.State) where
  abbrev pub workload_at : NamespacedName → Result K.Error (GpuWorkload K)
  workload_at k = (C.get_workload k s).0

  abbrev pub deployment_at : NamespacedName → Result K.Error (Deployment K)
  deployment_at k = (C.get_deployment k s).0

  abbrev pub service_at : NamespacedName → Result K.Error (Service K)
  service_at k = (C.get_service k s).0

-- The lookup says that there is no such object.
abbrev pub IsAbsent : (K : Kube) {A : Type 0} → Result K.Error A → Type 0
IsAbsent K r = (e : K.Error) × (r ≡ err e) × (K.is_not_found (some e) ≡ true)

-- The lookup finds an object.
abbrev pub IsPresent : (K : Kube) {A : Type 0} → Result K.Error A → Type 0
IsPresent K {A} r = (a : A) × (r ≡ ok a)

module _ {K : Kube} (C : Client K) where
  abbrev pub SameWorkloads : C.State → C.State → Type 0
  SameWorkloads s s' = (k : NamespacedName) → workload_at C s' k ≡ workload_at C s k

  abbrev pub SameDeployments : C.State → C.State → Type 0
  SameDeployments s s' = (k : NamespacedName) → deployment_at C s' k ≡ deployment_at C s k

  abbrev pub SameServices : C.State → C.State → Type 0
  SameServices s s' = (k : NamespacedName) → service_at C s' k ≡ service_at C s k

  pub record IsConsistent : Type 0 where
    pub get_workload-state : (k : NamespacedName) (s : C.State) → (C.get_workload k s).1 ≡ s
    pub get_deployment-state : (k : NamespacedName) (s : C.State) → (C.get_deployment k s).1 ≡ s
    pub get_service-state : (k : NamespacedName) (s : C.State) → (C.get_service k s).1 ≡ s
    pub workload-key :
        (k : NamespacedName) (s : C.State) (w : GpuWorkload K)
        → workload_at C s k ≡ ok w
        → workload_key w ≡ k
    pub deployment-key :
        (k : NamespacedName) (s : C.State) (d : Deployment K)
        → deployment_at C s k ≡ ok d
        → object_key d.metadata ≡ k
    pub service-key :
        (k : NamespacedName) (s : C.State) (v : Service K)
        → service_at C s k ≡ ok v
        → object_key v.metadata ≡ k
    -- The server may complete what it stores, so a creation promises only that the object is there.
    pub create_deployment-stored :
        (d : Deployment K) (s : C.State)
        → (C.create_deployment d s).0 ≡ none
        → IsPresent K (deployment_at C (C.create_deployment d s).1 (object_key d.metadata))
    pub create_deployment-frame :
        (d : Deployment K) (s : C.State)
        → SameWorkloads s (C.create_deployment d s).1 × SameServices s (C.create_deployment d s).1
    pub create_service-stored :
        (v : Service K) (s : C.State)
        → (C.create_service v s).0 ≡ none
        → IsPresent K (service_at C (C.create_service v s).1 (object_key v.metadata))
    pub create_service-frame :
        (v : Service K) (s : C.State)
        → SameWorkloads s (C.create_service v s).1 × SameDeployments s (C.create_service v s).1
    -- An update leaves the status alone. It removes an object that is being deleted and has no
    -- finalizer left.
    pub update_workload-stored :
        (w old : GpuWorkload K) (s : C.State)
        → workload_at C s (workload_key w) ≡ ok old
        → (C.update_workload w s).0 ≡ none
        → (workload_at C (C.update_workload w s).1 (workload_key w)
            ≡ ok (record w { status = old.status }))
          ⊎ ((K.is_zero w.metadata.deletion_timestamp ≡ false)
              × IsAbsent K (workload_at C (C.update_workload w s).1 (workload_key w)))
    pub update_workload-frame :
        (w : GpuWorkload K) (s : C.State)
        → SameDeployments s (C.update_workload w s).1 × SameServices s (C.update_workload w s).1
    -- An update of the status changes nothing else.
    pub update_status-stored :
        (w old : GpuWorkload K) (s : C.State)
        → workload_at C s (workload_key w) ≡ ok old
        → (C.update_workload_status w s).0 ≡ none
        → workload_at C (C.update_workload_status w s).1 (workload_key w)
          ≡ ok (record old { status = w.status })
    pub update_status-frame :
        (w : GpuWorkload K) (s : C.State)
        → SameDeployments s (C.update_workload_status w s).1
          × SameServices s (C.update_workload_status w s).1
    -- Deployments and Services have no finalizers of their own, so an accepted deletion is complete.
    pub delete_deployment-stored :
        (d : Deployment K) (s : C.State)
        → (C.delete_deployment d s).0 ≡ none
        → IsAbsent K (deployment_at C (C.delete_deployment d s).1 (object_key d.metadata))
    pub delete_deployment-missing :
        (d : Deployment K) (s : C.State) (e : K.Error)
        → (C.delete_deployment d s).0 ≡ some e
        → K.is_not_found (some e) ≡ true
        → IsAbsent K (deployment_at C (C.delete_deployment d s).1 (object_key d.metadata))
    pub delete_deployment-frame :
        (d : Deployment K) (s : C.State)
        → SameWorkloads s (C.delete_deployment d s).1 × SameServices s (C.delete_deployment d s).1
    pub delete_service-stored :
        (v : Service K) (s : C.State)
        → (C.delete_service v s).0 ≡ none
        → IsAbsent K (service_at C (C.delete_service v s).1 (object_key v.metadata))
    pub delete_service-missing :
        (v : Service K) (s : C.State) (e : K.Error)
        → (C.delete_service v s).0 ≡ some e
        → K.is_not_found (some e) ≡ true
        → IsAbsent K (service_at C (C.delete_service v s).1 (object_key v.metadata))
    pub delete_service-frame :
        (v : Service K) (s : C.State)
        → SameWorkloads s (C.delete_service v s).1 × SameDeployments s (C.delete_service v s).1

  -- Nothing stands in the way of the operator's writes.
  pub record IsAvailable (set_reference : SetControllerReference K) (scheme : K.Scheme)
      : Type 0 where
    pub accepts-reference :
        (w : GpuWorkload K) (m : ObjectMeta K) → IsPresent K (set_reference w m scheme)
    pub accepts-create_deployment :
        (d : Deployment K) (s : C.State)
        → IsAbsent K (deployment_at C s (object_key d.metadata))
        → (C.create_deployment d s).0 ≡ none
    pub accepts-create_service :
        (v : Service K) (s : C.State)
        → IsAbsent K (service_at C s (object_key v.metadata))
        → (C.create_service v s).0 ≡ none
    pub accepts-update_workload :
        (w : GpuWorkload K) (s : C.State)
        → IsPresent K (workload_at C s (workload_key w))
        → (C.update_workload w s).0 ≡ none
    pub accepts-update_status :
        (w : GpuWorkload K) (s : C.State)
        → IsPresent K (workload_at C s (workload_key w))
        → (C.update_workload_status w s).0 ≡ none

-- `SetControllerReference` leaves the name and the namespace of the controlled object alone.
pub record ReferencesAreLawful {K : Kube} (set_reference : SetControllerReference K) : Type 0 where
  pub key-reference :
      (w : GpuWorkload K) (m m' : ObjectMeta K) (scheme : K.Scheme)
      → set_reference w m scheme ≡ ok m'
      → object_key m' ≡ object_key m

-- All that a run counts on: the server is consistent and accepts what it is given, and the library
-- functions do what is documented.
pub record IsReliable {K : Kube} (C : Client K) (set_reference : SetControllerReference K)
    (scheme : K.Scheme) : Type 0 where
  pub consistent : IsConsistent C
  pub available : IsAvailable C set_reference scheme
  pub references : ReferencesAreLawful set_reference
  pub not_found : NotFoundIsLawful K
  pub finalizers : FinalizersAreLawful K
  pub quantities : QuantitiesAreLawful K

-- A write that the server refuses changes nothing.
pub record RefusalsAreLawful {K : Kube} (C : Client K) : Type 0 where
  pub update_workload-refused :
      (w : GpuWorkload K) (s : C.State) (e : K.Error)
      → (C.update_workload w s).0 ≡ some e
      → SameWorkloads C s (C.update_workload w s).1
  pub update_status-refused :
      (w : GpuWorkload K) (s : C.State) (e : K.Error)
      → (C.update_workload_status w s).0 ≡ some e
      → SameWorkloads C s (C.update_workload_status w s).1

-- Nothing stands in the way of the operator's deletions.
pub record AcceptsDeletions {K : Kube} (C : Client K) : Type 0 where
  pub accepts-delete_deployment :
      (d : Deployment K) (s : C.State)
      → IsPresent K (deployment_at C s (object_key d.metadata))
      → (C.delete_deployment d s).0 ≡ none
  pub accepts-delete_service :
      (v : Service K) (s : C.State)
      → IsPresent K (service_at C s (object_key v.metadata))
      → (C.delete_service v s).0 ≡ none

-- The lookup finds an object or says that there is none.
abbrev pub IsAnswered : (K : Kube) {A : Type 0} → Result K.Error A → Type 0
IsAnswered K r = IsPresent K r ⊎ IsAbsent K r
