-- ===== src/V1alpha1/Memory.antt =====
-- The API types as they lie in memory, where maps and slices are shared by their addresses, for
-- operator/api/v1alpha1/zz_generated_deepcopy.go. (The reconciler has the types of `V1alpha1`: it
-- changes no map and no slice in place.)
pub mod Laws
pub mod Places
pub mod Holds
pub mod Carries
use aperture_ai.Prelude.{String, ℤ, ℕ, Option}
use aperture_ai.Prelude.Dict.{Labels}
use aperture_ai.Prelude.Region.{Region}
use aperture_ai.V1alpha1.{GpuWorkloadPhase}

-- A type of the Kubernetes libraries with its generated `DeepCopyInto` (or `DeepCopy`), which hands
-- the copy over and may allocate; and what a value of it holds, followed through its own pointers.
pub record Element (M : Type 0) : Type 1 where
  pub Ref : Type 0
  pub Value : Type 0
  pub deep_copy : Ref → M → Ref × M
  pub value : Ref → M → Option Value

pub record Library : Type 1 where
  pub Memory : Type 0
  pub object_meta : Element Memory
  pub list_meta : Element Memory
  pub toleration : Element Memory
  pub condition : Element Memory
  -- What a `*metav1.Time` that is not nil points to.
  pub time : Element Memory
  -- Where such a Time lies, and the address from which the next ones are handed out.
  pub time_address : time.Ref → ℕ
  pub next_time : Memory → ℕ
  -- A struct without pointers, which an assignment copies whole.
  pub TypeMeta : Type 0
  -- The order in which `range` visits a map.
  pub range : Labels → Labels

-- A slice that is not nil: its array, its first element there, its length. Nothing reads the capacity.
pub record Slice : Type 0 where
  pub array : ℕ
  pub first : ℕ
  pub len : ℕ

module _ (L : Library) where
  -- A map or a pointer that is nil is `none`, and so is a nil slice.
  pub record Spec : Type 0 where
    pub model_name : String
    pub gpu : ℤ
    pub partition_mode : String
    pub token_quota : ℤ
    pub kv_cache_gb : ℤ
    pub node_selector : Option ℕ
    pub tolerations : Option Slice
    pub priority_class_name : String

  pub record Status : Type 0 where
    pub phase : GpuWorkloadPhase
    pub conditions : Option Slice
    pub pod_name : String
    pub message : String
    pub start_time : Option L.time.Ref
    pub observed_generation : ℤ

  pub record Workload : Type 0 where
    pub type_meta : L.TypeMeta
    pub object_meta : L.object_meta.Ref
    pub spec : Spec
    pub status : Status

  pub record WorkloadList : Type 0 where
    pub type_meta : L.TypeMeta
    pub list_meta : L.list_meta.Ref
    pub items : Option Slice

  pub record Mem : Type 0 where
    pub lib : L.Memory
    pub maps : Region Labels
    pub tolerations : Region L.toleration.Ref
    pub conditions : Region L.condition.Ref
    pub items : Region Workload
    pub specs : Region Spec
    pub statuses : Region Status
    pub workloads : Region Workload
    pub lists : Region WorkloadList

  -- The access to one region.
  pub record Place (A : Type 0) : Type 0 where
    pub get : Mem → Region A
    pub put : Region A → Mem → Mem

module _ {L : Library} where
  abbrev pub maps_place : Place L Labels
  maps_place = record { get = λ m. m.maps; put = λ r m. record m { maps = r } }

  abbrev pub tolerations_place : Place L L.toleration.Ref
  tolerations_place = record { get = λ m. m.tolerations; put = λ r m. record m { tolerations = r } }

  abbrev pub conditions_place : Place L L.condition.Ref
  conditions_place = record { get = λ m. m.conditions; put = λ r m. record m { conditions = r } }

  abbrev pub items_place : Place L (Workload L)
  items_place = record { get = λ m. m.items; put = λ r m. record m { items = r } }

  abbrev pub specs_place : Place L (Spec L)
  specs_place = record { get = λ m. m.specs; put = λ r m. record m { specs = r } }

  abbrev pub statuses_place : Place L (Status L)
  statuses_place = record { get = λ m. m.statuses; put = λ r m. record m { statuses = r } }

  abbrev pub workloads_place : Place L (Workload L)
  workloads_place = record { get = λ m. m.workloads; put = λ r m. record m { workloads = r } }

  abbrev pub lists_place : Place L (WorkloadList L)
  lists_place = record { get = λ m. m.lists; put = λ r m. record m { lists = r } }
