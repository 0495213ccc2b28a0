-- ===== src/V1alpha1/Memory/Holds.antt =====
-- What a struct in memory holds, as a value without addresses: a map by its lookups, a slice by the
-- list of its elements. The addresses that are read lie behind a given memory's.
use aperture_ai.Prelude.{String, ℤ, ℕ, suc, ◌≤◌, ◌≡◌, Option, none, some, List, [], ◌∷◌, length}
use aperture_ai.Prelude.Dict.{Labels, lookup}
use aperture_ai.Prelude.Region.{load}
use aperture_ai.V1alpha1.{GpuWorkloadPhase}
use aperture_ai.V1alpha1.Memory.{
  Element, Library, Slice, Spec, Status, Workload, WorkloadList, Mem, Place, tolerations_place,
  conditions_place, items_place,
}
use aperture_ai.V1alpha1.Memory.Laws.{IsMap}

pub record SpecValue (L : Library) : Type 0 where
  pub model_name : String
  pub gpu : ℤ
  pub partition_mode : String
  pub token_quota : ℤ
  pub kv_cache_gb : ℤ
  pub node_selector : Option (String → Option String)
  pub tolerations : Option (List L.toleration.Value)
  pub priority_class_name : String

pub record StatusValue (L : Library) : Type 0 where
  pub phase : GpuWorkloadPhase
  pub conditions : Option (List L.condition.Value)
  pub pod_name : String
  pub message : String
  pub start_time : Option L.time.Value
  pub observed_generation : ℤ

pub record WorkloadValue (L : Library) : Type 0 where
  pub type_meta : L.TypeMeta
  pub object_meta : L.object_meta.Value
  pub spec : SpecValue L
  pub status : StatusValue L

pub record ListValue (L : Library) : Type 0 where
  pub type_meta : L.TypeMeta
  pub list_meta : L.list_meta.Value
  pub items : Option (List (WorkloadValue L))

-- Where the addresses may begin.
pub record Bounds : Type 0 where
  pub maps : ℕ
  pub tolerations : ℕ
  pub conditions : ℕ
  pub items : ℕ
  pub times : ℕ

abbrev pub anywhere : Bounds
anywhere = record { maps = 0; tolerations = 0; conditions = 0; items = 0; times = 0 }

abbrev pub behind : {L : Library} → Mem L → Bounds
behind {L} m = record {
  maps = m.maps.next;
  tolerations = m.tolerations.next;
  conditions = m.conditions.next;
  items = m.items.next;
  times = L.next_time m.lib;
}

module _ {L : Library} where
  abbrev pub ElementHolds : (E : Element L.Memory) → E.Ref → Mem L → E.Value → Type 0
  ElementHolds E a m v = E.value a m.lib ≡ some v

  abbrev pub MapHolds : ℕ → Option ℕ → Mem L → Option (String → Option String) → Type 0
  MapHolds from none m none = Unit
  MapHolds from (some p) m (some f) =
      (from ≤ p)
      × ((l : Labels) × (load p 0 m.maps ≡ some l) × IsMap l × ((k : String) → lookup k l ≡ f k))
  MapHolds from _ m _ = ⊥

  module _ {A V : Type 0} (P : Place L A) (Holds : A → Mem L → V → Type 0) where
    abbrev pub ElemsHold : ℕ → ℕ → List V → Mem L → Type 0
    ElemsHold p i [] m = Unit
    ElemsHold p i (v ∷ vs) m =
        ((a : A) × (load p i (P.get m) ≡ some a) × Holds a m v) × ElemsHold p (suc i) vs m

    abbrev pub SliceHolds : ℕ → Option Slice → Mem L → Option (List V) → Type 0
    SliceHolds from none m none = Unit
    SliceHolds from (some s) m (some vs) =
        (from ≤ s.array) × (s.len ≡ length vs) × ElemsHold s.array s.first vs m
    SliceHolds from _ m _ = ⊥

  abbrev pub TimeHolds : ℕ → Option L.time.Ref → Mem L → Option L.time.Value → Type 0
  TimeHolds from none m none = Unit
  TimeHolds from (some t) m (some v) = (from ≤ L.time_address t) × ElementHolds L.time t m v
  TimeHolds from _ m _ = ⊥

  module _ (from : Bounds) where
    pub record SpecHolds (s : Spec L) (m : Mem L) (v : SpecValue L) : Type 0 where
      pub same_model_name : s.model_name ≡ v.model_name
      pub same_gpu : s.gpu ≡ v.gpu
      pub same_partition_mode : s.partition_mode ≡ v.partition_mode
      pub same_token_quota : s.token_quota ≡ v.token_quota
      pub same_kv_cache_gb : s.kv_cache_gb ≡ v.kv_cache_gb
      pub same_priority_class_name : s.priority_class_name ≡ v.priority_class_name
      pub holds_node_selector : MapHolds from.maps s.node_selector m v.node_selector
      pub holds_tolerations :
          SliceHolds tolerations_place
            (ElementHolds L.toleration)
            from.tolerations
            s.tolerations
            m
            v.tolerations

    pub record StatusHolds (s : Status L) (m : Mem L) (v : StatusValue L) : Type 0 where
      pub same_phase : s.phase ≡ v.phase
      pub same_pod_name : s.pod_name ≡ v.pod_name
      pub same_message : s.message ≡ v.message
      pub same_observed_generation : s.observed_generation ≡ v.observed_generation
      pub holds_conditions :
          SliceHolds conditions_place
            (ElementHolds L.condition)
            from.conditions
            s.conditions
            m
            v.conditions
      pub holds_start_time : TimeHolds from.times s.start_time m v.start_time

    pub record WorkloadHolds (w : Workload L) (m : Mem L) (v : WorkloadValue L) : Type 0 where
      pub same_type_meta : w.type_meta ≡ v.type_meta
      pub holds_object_meta : ElementHolds L.object_meta w.object_meta m v.object_meta
      pub holds_spec : SpecHolds w.spec m v.spec
      pub holds_status : StatusHolds w.status m v.status

    pub record ListHolds (l : WorkloadList L) (m : Mem L) (v : ListValue L) : Type 0 where
      pub same_list_type_meta : l.type_meta ≡ v.type_meta
      pub holds_list_meta : ElementHolds L.list_meta l.list_meta m v.list_meta
      pub holds_items : SliceHolds items_place WorkloadHolds from.items l.items m v.items

  -- A pointer to a struct, which lies at `least` or behind it.
  abbrev pub PointerHolds :
      {A V : Type 0}
      → Place L A
      → (A → Mem L → V → Type 0)
      → ℕ
      → Option ℕ
      → Mem L
      → Option V
      → Type 0
  PointerHolds P Holds least none m none = Unit
  PointerHolds P Holds least (some p) m (some v) =
      (least ≤ p) × ((a : _) × (load p 0 (P.get m) ≡ some a) × Holds a m v)
  PointerHolds P Holds least _ m _ = ⊥
