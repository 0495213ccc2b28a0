-- ===== src/V1alpha1/Memory/Laws.antt =====
-- What memory keeps while the generated code runs, and the documented behaviour of the libraries.
use aperture_ai.Prelude.{String, ◌≤◌, ◌≡◌, none, some, [], ◌∷◌}
use aperture_ai.Prelude.Dict.{Labels, lookup}
use aperture_ai.Prelude.Region.{Region, Kept, Kept-refl, Kept-trans, SameAbove}
use aperture_ai.V1alpha1.Memory.{Element, Library, Mem, Place}

-- A map holds each key once.
abbrev pub IsMap : Labels → Type 0
IsMap [] = Unit
IsMap ((k, v) ∷ m) = (lookup k m ≡ none) × IsMap m

-- What `DeepCopyInto` of a library's type promises: the copy holds what the original holds, and what
-- memory holds elsewhere stays.
pub record IsCopier {M : Type 0} (Extends : M → M → Type 0) (E : Element M) : Type 0 where
  pub copied :
      (a : E.Ref) (v : E.Value) (m : M)
      → E.value a m ≡ some v
      → E.value (E.deep_copy a m).0 (E.deep_copy a m).1 ≡ some v
  pub extended : (a : E.Ref) (m : M) → Extends m (E.deep_copy a m).1
  pub value_kept :
      (a : E.Ref) (v : E.Value) (m m' : M)
      → Extends m m'
      → E.value a m ≡ some v
      → E.value a m' ≡ some v

pub record LibraryIsLawful (L : Library) : Type 1 where
  pub Extends : L.Memory → L.Memory → Type 0
  pub extends_refl : (m : L.Memory) → Extends m m
  pub extends_trans : (m m' m'' : L.Memory) → Extends m m' → Extends m' m'' → Extends m m''
  pub copies_object_meta : IsCopier Extends L.object_meta
  pub copies_list_meta : IsCopier Extends L.list_meta
  pub copies_toleration : IsCopier Extends L.toleration
  pub copies_condition : IsCopier Extends L.condition
  pub copies_time : IsCopier Extends L.time
  -- `DeepCopy` of a Time creates a new one.
  pub time-new :
      (t : L.time.Ref) (v : L.time.Value) (m : L.Memory)
      → L.time.value t m ≡ some v
      → L.next_time m ≤ L.time_address (L.time.deep_copy t m).0
  pub next_time-grows : (m m' : L.Memory) → Extends m m' → L.next_time m ≤ L.next_time m'
  -- `range` visits each key once, with its value.
  pub range-lookup : (k : String) (m : Labels) → IsMap m → lookup k (L.range m) ≡ lookup k m
  pub range-IsMap : (m : Labels) → IsMap m → IsMap (L.range m)

module _ {L : Library} (lawful : LibraryIsLawful L) where
  -- All that was in memory is there, unchanged.
  pub record Keeps (m m' : Mem L) : Type 0 where
    pub keeps_lib : lawful.Extends m.lib m'.lib
    pub keeps_maps : Kept m.maps m'.maps
    pub keeps_tolerations : Kept m.tolerations m'.tolerations
    pub keeps_conditions : Kept m.conditions m'.conditions
    pub keeps_items : Kept m.items m'.items
    pub keeps_specs : Kept m.specs m'.specs
    pub keeps_statuses : Kept m.statuses m'.statuses
    pub keeps_workloads : Kept m.workloads m'.workloads
    pub keeps_lists : Kept m.lists m'.lists

  -- All that was made behind `m` is the same in both.
  pub record SameNew (m m' m'' : Mem L) : Type 0 where
    pub same_lib : lawful.Extends m'.lib m''.lib
    pub same_maps : SameAbove m.maps m'.maps m''.maps
    pub same_tolerations : SameAbove m.tolerations m'.tolerations m''.tolerations
    pub same_conditions : SameAbove m.conditions m'.conditions m''.conditions
    pub same_items : SameAbove m.items m'.items m''.items
    pub same_specs : SameAbove m.specs m'.specs m''.specs
    pub same_statuses : SameAbove m.statuses m'.statuses m''.statuses
    pub same_workloads : SameAbove m.workloads m'.workloads m''.workloads
    pub same_lists : SameAbove m.lists m'.lists m''.lists

  pub Keeps-refl : (m : Mem L) → Keeps m m
  Keeps-refl m = record {
    keeps_lib = lawful.extends_refl m.lib;
    keeps_maps = Kept-refl m.maps;
    keeps_tolerations = Kept-refl m.tolerations;
    keeps_conditions = Kept-refl m.conditions;
    keeps_items = Kept-refl m.items;
    keeps_specs = Kept-refl m.specs;
    keeps_statuses = Kept-refl m.statuses;
    keeps_workloads = Kept-refl m.workloads;
    keeps_lists = Kept-refl m.lists;
  }

  pub Keeps-trans : {m m' m'' : Mem L} → Keeps m m' → Keeps m' m'' → Keeps m m''
  Keeps-trans {m} {m'} {m''} k k' = record {
    keeps_lib = lawful.extends_trans m.lib m'.lib m''.lib k.keeps_lib k'.keeps_lib;
    keeps_maps = Kept-trans k.keeps_maps k'.keeps_maps;
    keeps_tolerations = Kept-trans k.keeps_tolerations k'.keeps_tolerations;
    keeps_conditions = Kept-trans k.keeps_conditions k'.keeps_conditions;
    keeps_items = Kept-trans k.keeps_items k'.keeps_items;
    keeps_specs = Kept-trans k.keeps_specs k'.keeps_specs;
    keeps_statuses = Kept-trans k.keeps_statuses k'.keeps_statuses;
    keeps_workloads = Kept-trans k.keeps_workloads k'.keeps_workloads;
    keeps_lists = Kept-trans k.keeps_lists k'.keeps_lists;
  }

  -- A place where the copies stand, and the rest of memory.
  pub record PlaceIsLawful {A : Type 0} (P : Place L A) : Type 0 where
    pub get-put : (r : Region A) (m : Mem L) → P.get (P.put r m) ≡ r
    pub kept_get : {m m' : Mem L} → Keeps m m' → Kept (P.get m) (P.get m')
    pub keeps_put :
        {m m' : Mem L} (r : Region A) → Keeps m m' → Kept (P.get m) r → Keeps m (P.put r m')

  -- For a place where arrays stand: what becomes of all of memory but that place.
  pub record RestIsLawful {A : Type 0} (P : Place L A) : Type 0 where
    pub put-get : (m : Mem L) → P.put (P.get m) m ≡ m
    pub put-put : (r r' : Region A) (m : Mem L) → P.put r (P.put r' m) ≡ P.put r m
    pub keeps_rest :
        {m m' m'' : Mem L}
        → Keeps m (P.put (P.get m) m')
        → Keeps m' (P.put (P.get m') m'')
        → Keeps m (P.put (P.get m) m'')
