-- ===== src/Client/Memory.antt =====
-- An API server in memory, as the fake client of the controller's tests: three stores by key, no
-- other actor, and no failure but a missing key. It shows that the laws of a client can hold.
use aperture_ai.Prelude.{Bool, Option, none, some, ◌&&◌, ◌==◌, if◌then◌else◌}
use aperture_ai.Kube.{Kube}
use aperture_ai.Kube.Objects.{NamespacedName, Deployment, Service, object_key}
use aperture_ai.V1alpha1.{GpuWorkload, workload_key}
use aperture_ai.Client.{Client, Result, ok, err}

abbrev pub Store : Type 0 → Type 0
Store A = NamespacedName → Option A

abbrev pub same_key : NamespacedName → NamespacedName → Bool
same_key a b = a.name == b.name && a.namespace == b.namespace

abbrev pub write : {A : Type 0} → Store A → NamespacedName → Option A → Store A
write m k v j = if same_key k j then v else m j

pub record Cluster (K : Kube) : Type 0 where
  pub workloads : Store (GpuWorkload K)
  pub deployments : Store (Deployment K)
  pub services : Store (Service K)

module _ (K : Kube) (missing exists : K.Error) where
  -- An object is found only under its own key.
  abbrev look_up :
      {A : Type 0} → (A → NamespacedName) → NamespacedName → Option A → Result K.Error A
  look_up key_of k none = err missing
  look_up key_of k (some a) = if same_key (key_of a) k then ok a else err missing

  -- A creation fails if the key is taken.
  abbrev unless_taken :
      {A : Type 0} → Result K.Error A → Cluster K → Cluster K → Option K.Error × Cluster K
  unless_taken (ok a) c c' = (some exists, c)
  unless_taken (err e) c c' = (none, c')

  -- An update or a deletion fails if the key is free.
  abbrev if_found :
      {A : Type 0} → Result K.Error A → Cluster K → (A → Cluster K) → Option K.Error × Cluster K
  if_found (ok a) c change = (none, change a)
  if_found (err e) c change = (some e, c)

  abbrev find_workload : NamespacedName → Cluster K → Result K.Error (GpuWorkload K)
  find_workload k c = look_up workload_key k (c.workloads k)

  abbrev find_deployment : NamespacedName → Cluster K → Result K.Error (Deployment K)
  find_deployment k c = look_up (λ d. object_key d.metadata) k (c.deployments k)

  abbrev find_service : NamespacedName → Cluster K → Result K.Error (Service K)
  find_service k c = look_up (λ v. object_key v.metadata) k (c.services k)

  abbrev set_workload : Cluster K → GpuWorkload K → Cluster K
  set_workload c w = record c { workloads = write c.workloads (workload_key w) (some w) }

  abbrev set_deployment : Cluster K → Deployment K → Option (Deployment K) → Cluster K
  set_deployment c d v = record c { deployments = write c.deployments (object_key d.metadata) v }

  abbrev set_service : Cluster K → Service K → Option (Service K) → Cluster K
  set_service c d v = record c { services = write c.services (object_key d.metadata) v }

  abbrev pub memory_client : Client K
  memory_client = record {
    State = Cluster K;
    get_workload = λ k c. (find_workload k c, c);
    get_deployment = λ k c. (find_deployment k c, c);
    get_service = λ k c. (find_service k c, c);
    create_deployment = λ d c.
        unless_taken (find_deployment (object_key d.metadata) c) c (set_deployment c d (some d));
    create_service =
        λ v c. unless_taken (find_service (object_key v.metadata) c) c (set_service c v (some v));
    update_workload = λ w c.
        if_found (find_workload (workload_key w) c) c
          (λ old. set_workload c (record w { status = old.status }));
    update_workload_status = λ w c.
        if_found (find_workload (workload_key w) c) c
          (λ old. set_workload c (record old { status = w.status }));
    delete_deployment = λ d c.
        if_found (find_deployment (object_key d.metadata) c) c (λ old. set_deployment c d none);
    delete_service =
        λ v c. if_found (find_service (object_key v.metadata) c) c (λ old. set_service c v none);
  }
