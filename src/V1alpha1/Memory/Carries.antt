-- ===== src/V1alpha1/Memory/Carries.antt =====
-- What a struct holds stays, as long as the cells that it can reach do.
use mathlib.Core.Path.{subst}
use aperture_ai.Prelude.{ℕ, suc, ◌≤◌, ◌≡◌, Option, none, some, List, [], ◌∷◌}
use aperture_ai.Prelude.Region.{Region, load, load-Kept, load-SameAbove}
use aperture_ai.V1alpha1.Memory.{
  Element, Library, Slice, WorkloadList, Mem, Place, tolerations_place, conditions_place,
  items_place,
}
use aperture_ai.V1alpha1.Memory.Laws.{LibraryIsLawful, IsCopier, Keeps, SameNew}
use aperture_ai.V1alpha1.Memory.Holds.{
  Bounds, behind, ListValue, ElementHolds, MapHolds, ElemsHold, SliceHolds, TimeHolds, SpecHolds,
  StatusHolds, WorkloadHolds, ListHolds, PointerHolds,
}

-- What is found from an address on is found again.
abbrev pub Found : {A : Type 0} → ℕ → Region A → Region A → Type 0
Found {A} from r r' = (p i : ℕ) (a : A) → from ≤ p → load p i r ≡ some a → load p i r' ≡ some a

module _ {L : Library} (lawful : LibraryIsLawful L) where
  pub record Carries (from : Bounds) (m m' : Mem L) : Type 0 where
    pub carries_lib : lawful.Extends m.lib m'.lib
    pub carries_maps : Found from.maps m.maps m'.maps
    pub carries_tolerations : Found from.tolerations m.tolerations m'.tolerations
    pub carries_conditions : Found from.conditions m.conditions m'.conditions

  pub Keeps-Carries : (from : Bounds) (m m' : Mem L) → Keeps lawful m m' → Carries from m m'
  Keeps-Carries from m m' k = record {
    carries_lib = k.keeps_lib;
    carries_maps = λ p i a h found. load-Kept p i a k.keeps_maps found;
    carries_tolerations = λ p i a h found. load-Kept p i a k.keeps_tolerations found;
    carries_conditions = λ p i a h found. load-Kept p i a k.keeps_conditions found;
  }

  pub SameNew-Carries : (m m' m'' : Mem L) → SameNew lawful m m' m'' → Carries (behind m) m' m''
  SameNew-Carries m m' m'' k = record {
    carries_lib = k.same_lib;
    carries_maps = λ p i a h found. load-SameAbove p i a k.same_maps h found;
    carries_tolerations = λ p i a h found. load-SameAbove p i a k.same_tolerations h found;
    carries_conditions = λ p i a h found. load-SameAbove p i a k.same_conditions h found;
  }

  pub Carries-same :
      (from : Bounds) (m m' : Mem L)
      → m.lib ≡ m'.lib
      → m.maps ≡ m'.maps
      → m.tolerations ≡ m'.tolerations
      → m.conditions ≡ m'.conditions
      → Carries from m m'
  Carries-same from m m' lib maps tolerations conditions = record {
    carries_lib = subst (λ l. lawful.Extends m.lib l) lib (lawful.extends_refl m.lib);
    carries_maps = λ p i a h found. subst (λ r. load p i r ≡ some a) maps found;
    carries_tolerations = λ p i a h found. subst (λ r. load p i r ≡ some a) tolerations found;
    carries_conditions = λ p i a h found. subst (λ r. load p i r ≡ some a) conditions found;
  }

  -- A predicate on structs and memories that follows what is carried.
  abbrev pub Follows : {A V : Type 0} → Bounds → (A → Mem L → V → Type 0) → Type 0
  Follows {A} {V} from Holds =
      (a : A) (v : V) (m m' : Mem L) → Carries from m m' → Holds a m v → Holds a m' v

  pub ElementHolds-Follows :
      (E : Element L.Memory) (from : Bounds)
      → IsCopier lawful.Extends E
      → Follows from (ElementHolds E)
  ElementHolds-Follows E from copier a v m m' c h =
      copier.value_kept a v m.lib m'.lib c.carries_lib h

  module _ {A V : Type 0} (P : Place L A) (Holds : A → Mem L → V → Type 0) (from : Bounds)
      (follows : Follows from Holds) (m m' : Mem L) (c : Carries from m m') (least : ℕ)
      (found : Found least (P.get m) (P.get m')) where
    pub ElemsHold-Carries :
        (p i : ℕ) (vs : List V)
        → least ≤ p
        → ElemsHold P Holds p i vs m
        → ElemsHold P Holds p i vs m'
    ElemsHold-Carries p i [] h tt = tt
    ElemsHold-Carries p i (v ∷ vs) h ((a, loaded, holds), rest) =
        ((a, found p i a h loaded, follows a v m m' c holds), ElemsHold-Carries p (suc i) vs h rest)

    pub SliceHolds-Carries :
        (s : Option Slice) (vs : Option (List V))
        → SliceHolds P Holds least s m vs
        → SliceHolds P Holds least s m' vs
    SliceHolds-Carries none none h = tt
    SliceHolds-Carries none (some vs) h = h
    SliceHolds-Carries (some s) none h = h
    SliceHolds-Carries (some s) (some vs) (low, long, elems) =
        (low, long, ElemsHold-Carries s.array s.first vs low elems)

  module _ (from : Bounds) where
    pub MapHolds-Follows : Follows from (MapHolds from.maps)
    MapHolds-Follows none none m m' c h = tt
    MapHolds-Follows none (some f) m m' c h = h
    MapHolds-Follows (some p) none m m' c h = h
    MapHolds-Follows (some p) (some f) m m' c (low, (l, loaded, sound, same)) =
        (low, (l, c.carries_maps p 0 l low loaded, sound, same))

    pub TimeHolds-Follows : Follows from (TimeHolds from.times)
    TimeHolds-Follows none none m m' c h = tt
    TimeHolds-Follows none (some f) m m' c h = h
    TimeHolds-Follows (some p) none m m' c h = h
    TimeHolds-Follows (some t) (some v) m m' c (least, h) =
        (least, ElementHolds-Follows L.time from lawful.copies_time t v m m' c h)

    pub SpecHolds-Follows : Follows from (SpecHolds from)
    SpecHolds-Follows s v m m' c h = record {
      same_model_name = h.same_model_name;
      same_gpu = h.same_gpu;
      same_partition_mode = h.same_partition_mode;
      same_token_quota = h.same_token_quota;
      same_kv_cache_gb = h.same_kv_cache_gb;
      same_priority_class_name = h.same_priority_class_name;
      holds_node_selector =
          MapHolds-Follows s.node_selector v.node_selector m m' c h.holds_node_selector;
      holds_tolerations =
          SliceHolds-Carries tolerations_place (ElementHolds L.toleration) from
            (ElementHolds-Follows L.toleration from lawful.copies_toleration) m m' c
            from.tolerations c.carries_tolerations s.tolerations v.tolerations h.holds_tolerations;
    }

    pub StatusHolds-Follows : Follows from (StatusHolds from)
    StatusHolds-Follows s v m m' c h = record {
      same_phase = h.same_phase;
      same_pod_name = h.same_pod_name;
      same_message = h.same_message;
      same_observed_generation = h.same_observed_generation;
      holds_conditions =
          SliceHolds-Carries conditions_place (ElementHolds L.condition) from
            (ElementHolds-Follows L.condition from lawful.copies_condition) m m' c from.conditions
            c.carries_conditions s.conditions v.conditions h.holds_conditions;
      holds_start_time = TimeHolds-Follows s.start_time v.start_time m m' c h.holds_start_time;
    }

    pub WorkloadHolds-Follows : Follows from (WorkloadHolds from)
    WorkloadHolds-Follows w v m m' c h = record {
      same_type_meta = h.same_type_meta;
      holds_object_meta =
          ElementHolds-Follows L.object_meta from lawful.copies_object_meta w.object_meta
            v.object_meta m m' c h.holds_object_meta;
      holds_spec = SpecHolds-Follows w.spec v.spec m m' c h.holds_spec;
      holds_status = StatusHolds-Follows w.status v.status m m' c h.holds_status;
    }

    pub ListHolds-Carries :
        (l : WorkloadList L) (v : ListValue L) (m m' : Mem L)
        → Carries from m m'
        → Found from.items m.items m'.items
        → ListHolds from l m v
        → ListHolds from l m' v
    ListHolds-Carries l v m m' c found h = record {
      same_list_type_meta = h.same_list_type_meta;
      holds_list_meta =
          ElementHolds-Follows L.list_meta from lawful.copies_list_meta l.list_meta v.list_meta m m'
            c h.holds_list_meta;
      holds_items =
          SliceHolds-Carries items_place (WorkloadHolds from) from WorkloadHolds-Follows m m' c
            from.items found l.items v.items h.holds_items;
    }

  module _ {A V : Type 0} (P : Place L A) (Holds : A → Mem L → V → Type 0) (m m' : Mem L)
      (least : ℕ) (found : Found least (P.get m) (P.get m'))
      (follows : (a : A) (v : V) → Holds a m v → Holds a m' v) where
    pub PointerHolds-Carries :
        (p : Option ℕ) (v : Option V)
        → PointerHolds P Holds least p m v
        → PointerHolds P Holds least p m' v
    PointerHolds-Carries none none h = tt
    PointerHolds-Carries none (some v) h = h
    PointerHolds-Carries (some p) none h = h
    PointerHolds-Carries (some p) (some v) (low, (a, loaded, holds)) =
        (low, (a, found p 0 a low loaded, follows a v holds))
