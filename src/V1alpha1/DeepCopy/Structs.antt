-- ===== src/V1alpha1/DeepCopy/Structs.antt =====
-- The copies of a spec and of a status.
use aperture_ai.Prelude.{refl, ℕ, ◌≤◌, Option, none, some, List, arith, String}
use aperture_ai.Prelude.Region.{Kept-refl}
use aperture_ai.V1alpha1.Memory.{
  Element, Library, Slice, Spec, Status, Mem, Place, tolerations_place, conditions_place,
}
use aperture_ai.V1alpha1.Memory.Laws.{LibraryIsLawful, IsCopier, Keeps, Keeps-refl, Keeps-trans}
use aperture_ai.V1alpha1.Memory.Places.{
  tolerations-PlaceIsLawful, tolerations-RestIsLawful, conditions-PlaceIsLawful,
  conditions-RestIsLawful,
}
use aperture_ai.V1alpha1.Memory.Holds.{
  anywhere, behind, SpecValue, StatusValue, ElementHolds, MapHolds, SliceHolds, TimeHolds,
  SpecHolds, StatusHolds,
}
use aperture_ai.V1alpha1.Memory.Carries.{
  Keeps-Carries, ElementHolds-Follows, SliceHolds-Carries, MapHolds-Follows, SpecHolds-Follows,
  StatusHolds-Follows,
}
use aperture_ai.V1alpha1.DeepCopy.{call, copy_slice, copy_time, copy_spec, copy_status}
use aperture_ai.V1alpha1.DeepCopy.Maps.{copy_map_lem}
use aperture_ai.V1alpha1.DeepCopy.Slices.{Copied, copy_slice_lem}

-- Addresses that lie behind a bound lie behind a smaller one.
SliceHolds-le :
    {L : Library} {A V : Type 0} (P : Place L A) (Holds : A → Mem L → V → Type 0) (low high : ℕ)
    (o : Option Slice) (m : Mem L) (vs : Option (List V))
    → low ≤ high
    → SliceHolds P Holds high o m vs
    → SliceHolds P Holds low o m vs
SliceHolds-le P Holds low high none m none h k = k
SliceHolds-le P Holds low high none m (some vs) h k = k
SliceHolds-le P Holds low high (some s) m none h k = k
SliceHolds-le P Holds low high (some s) m (some vs) h (least, long, elems) =
    (omega arith, long, elems)

MapHolds-le :
    {L : Library} (low high : ℕ) (o : Option ℕ) (m : Mem L) (f : Option (String → Option String))
    → low ≤ high
    → MapHolds high o m f
    → MapHolds low o m f
MapHolds-le low high none m none h k = k
MapHolds-le low high none m (some f) h k = k
MapHolds-le low high (some p) m none h k = k
MapHolds-le low high (some p) m (some f) h (least, rest) = (omega arith, rest)

-- Memory behind a call of the libraries.
abbrev pub called : {L : Library} (E : Element L.Memory) → E.Ref → Mem L → Mem L
called E a m = record m { lib = (E.deep_copy a m.lib).1 }

TimeHolds-le :
    {L : Library} (low high : ℕ) (t : Option L.time.Ref) (m : Mem L) (v : Option L.time.Value)
    → low ≤ high
    → TimeHolds high t m v
    → TimeHolds low t m v
TimeHolds-le low high none m none h k = k
TimeHolds-le low high none m (some v) h k = k
TimeHolds-le low high (some t) m none h k = k
TimeHolds-le {L} low high (some t) m (some v) h (least, holds) = (omega arith, holds)

module _ {L : Library} (lawful : LibraryIsLawful L) where
  pub called-Keeps :
      (E : Element L.Memory) (a : E.Ref) (m : Mem L)
      → IsCopier lawful.Extends E
      → Keeps lawful m (called E a m)
  called-Keeps E a m copier = record {
    keeps_lib = copier.extended a m.lib;
    keeps_maps = Kept-refl m.maps;
    keeps_tolerations = Kept-refl m.tolerations;
    keeps_conditions = Kept-refl m.conditions;
    keeps_items = Kept-refl m.items;
    keeps_specs = Kept-refl m.specs;
    keeps_statuses = Kept-refl m.statuses;
    keeps_workloads = Kept-refl m.workloads;
    keeps_lists = Kept-refl m.lists;
  }

  call_lem :
      (E : Element L.Memory) (a : E.Ref) (v : E.Value) (m : Mem L)
      → IsCopier lawful.Extends E
      → ElementHolds E a m v
      → Copied lawful (ElementHolds E) (call E a) m v
  call_lem E a v m copier h = (
    (E.deep_copy a m.lib).0,
    called E a m,
    refl,
    copier.copied a v m.lib h,
    called-Keeps E a m copier,
  )

  copy_time_lem :
      (o : Option L.time.Ref) (v : Option L.time.Value) (m : Mem L)
      → TimeHolds 0 o m v
      → Copied lawful (TimeHolds (L.next_time m.lib)) (copy_time o) m v
  unfolding copy_time
  copy_time_lem none none m h = (none, m, refl, tt, Keeps-refl lawful m)
  copy_time_lem none (some v) m h = elim h [ ]
  copy_time_lem (some t) none m h = elim h [ ]
  copy_time_lem (some t) (some v) m (least, h) = (
    some (L.time.deep_copy t m.lib).0,
    called L.time t m,
    refl,
    (lawful.time-new t v m.lib h, lawful.copies_time.copied t v m.lib h),
    called-Keeps L.time t m lawful.copies_time,
  )

  copy_tolerations_lem :
      (m : Mem L) (o : Option Slice) (vs : Option (List L.toleration.Value))
      → SliceHolds tolerations_place (ElementHolds L.toleration) 0 o m vs
      → Copied lawful
          (SliceHolds tolerations_place (ElementHolds L.toleration) m.tolerations.next)
          (copy_slice tolerations_place (call L.toleration) o)
          m
          vs
  copy_tolerations_lem m =
      let follows = ElementHolds-Follows lawful L.toleration anywhere lawful.copies_toleration in
      copy_slice_lem lawful tolerations_place (tolerations-PlaceIsLawful lawful)
        (tolerations-RestIsLawful lawful) (ElementHolds L.toleration) (ElementHolds L.toleration) m
        anywhere follows follows (λ a v r m' h. h) (call L.toleration)
        (λ a v m' k h. call_lem L.toleration a v m' lawful.copies_toleration h)

  copy_conditions_lem :
      (m : Mem L) (o : Option Slice) (vs : Option (List L.condition.Value))
      → SliceHolds conditions_place (ElementHolds L.condition) 0 o m vs
      → Copied lawful
          (SliceHolds conditions_place (ElementHolds L.condition) m.conditions.next)
          (copy_slice conditions_place (call L.condition) o)
          m
          vs
  copy_conditions_lem m =
      let follows = ElementHolds-Follows lawful L.condition anywhere lawful.copies_condition in
      copy_slice_lem lawful conditions_place (conditions-PlaceIsLawful lawful)
        (conditions-RestIsLawful lawful) (ElementHolds L.condition) (ElementHolds L.condition) m
        anywhere follows follows (λ a v r m' h. h) (call L.condition)
        (λ a v m' k h. call_lem L.condition a v m' lawful.copies_condition h)

  module _ (base : Mem L) where
    pub copy_spec_lem :
        (s : Spec L) (v : SpecValue L) (m : Mem L)
        → Keeps lawful base m
        → SpecHolds anywhere s m v
        → Copied lawful (SpecHolds (behind base)) (copy_spec s) m v
    unfolding copy_spec
    copy_spec_lem s v m k h =
        let (p, m₁, run₁, copied₁, k₁) =
          copy_map_lem lawful m s.node_selector v.node_selector h.holds_node_selector in
        let there =
          SpecHolds-Follows lawful anywhere s v m m₁ (Keeps-Carries lawful anywhere m m₁ k₁) h in
        let (t, m₂, run₂, copied₂, k₂) =
          copy_tolerations_lem m₁ s.tolerations v.tolerations there.holds_tolerations in
        let old = Keeps-trans lawful k k₁ in
        (
          record s { node_selector = p; tolerations = t },
          m₂,
          rw run₁ (rw run₂ refl),
          record {
            same_model_name = h.same_model_name;
            same_gpu = h.same_gpu;
            same_partition_mode = h.same_partition_mode;
            same_token_quota = h.same_token_quota;
            same_kv_cache_gb = h.same_kv_cache_gb;
            same_priority_class_name = h.same_priority_class_name;
            holds_node_selector =
                MapHolds-le base.maps.next m.maps.next p m₂ v.node_selector k.keeps_maps.kept_next (
                  MapHolds-Follows lawful (behind m) p v.node_selector m₁ m₂
                    (Keeps-Carries lawful (behind m) m₁ m₂ k₂) copied₁);
            holds_tolerations =
                SliceHolds-le tolerations_place (ElementHolds L.toleration) base.tolerations.next
                  m₁.tolerations.next t m₂ v.tolerations old.keeps_tolerations.kept_next copied₂;
          },
          Keeps-trans lawful k₁ k₂,
        )

    pub copy_status_lem :
        (s : Status L) (v : StatusValue L) (m : Mem L)
        → Keeps lawful base m
        → StatusHolds anywhere s m v
        → Copied lawful (StatusHolds (behind base)) (copy_status s) m v
    unfolding copy_status
    copy_status_lem s v m k h =
        let (c, m₁, run₁, copied₁, k₁) =
          copy_conditions_lem m s.conditions v.conditions h.holds_conditions in
        let there =
          StatusHolds-Follows lawful anywhere s v m m₁ (Keeps-Carries lawful anywhere m m₁ k₁) h in
        let (t, m₂, run₂, copied₂, k₂) =
          copy_time_lem s.start_time v.start_time m₁ there.holds_start_time in
        let carried = Keeps-Carries lawful (behind m) m₁ m₂ k₂ in
        (
          record s { conditions = c; start_time = t },
          m₂,
          rw run₁ (rw run₂ refl),
          record {
            same_phase = h.same_phase;
            same_pod_name = h.same_pod_name;
            same_message = h.same_message;
            same_observed_generation = h.same_observed_generation;
            holds_conditions =
                SliceHolds-le conditions_place (ElementHolds L.condition) base.conditions.next
                  m.conditions.next c m₂ v.conditions k.keeps_conditions.kept_next
                  (SliceHolds-Carries lawful conditions_place (ElementHolds L.condition) (behind m)
                    (ElementHolds-Follows lawful L.condition (behind m) lawful.copies_condition) m₁
                    m₂ carried m.conditions.next carried.carries_conditions c v.conditions copied₁);
            holds_start_time =
                TimeHolds-le (L.next_time base.lib) (L.next_time m₁.lib) t m₂ v.start_time
                  (lawful.next_time-grows base.lib m₁.lib (Keeps-trans lawful k k₁).keeps_lib)
                  copied₂;
          },
          Keeps-trans lawful k₁ k₂,
        )
