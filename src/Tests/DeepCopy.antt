-- ===== src/Tests/DeepCopy.antt =====
-- The generated copies at a list of one workload.
use aperture_ai.Prelude.{◌≡◌, refl, sym, ◌∙◌, ℕ, Option, none, some, [], arith}
use aperture_ai.Prelude.Region.{Region, store, Kept-refl, Kept-store, SameAbove}
use aperture_ai.V1alpha1.Memory.{Mem, specs_place, statuses_place, workloads_place, lists_place}
use aperture_ai.V1alpha1.Memory.Laws.{Keeps, SameNew}
use aperture_ai.V1alpha1.Memory.Holds.{
  anywhere, behind, SpecHolds, StatusHolds, WorkloadHolds, ListHolds, PointerHolds,
}
use aperture_ai.V1alpha1.DeepCopy.{
  deep_copy_spec, deep_copy_status, workload, workload_list, as_object, deep_copy_object,
  deep_copy_list_object,
}
use aperture_ai.V1alpha1.DeepCopy.Slices.{Copied}
use aperture_ai.V1alpha1.DeepCopy.Objects.{
  deep_copy_spec_lem, deep_copy_status_lem, deep_copy_object_lem, deep_copy_list_object_lem,
  deep_copy_list_object-IsIndependent,
}
use aperture_ai.Tests.Sample.{
  toy_library, toy_lawful, the_spec, the_status, the_workload, the_list, memory, spec_value,
  status_value, workload_value, list_value, the_spec-SpecHolds, the_status-StatusHolds,
  the_workload-WorkloadHolds, the_list-ListHolds,
}

deep_copy_spec_lem_example :
    Copied toy_lawful
      (PointerHolds specs_place (SpecHolds (behind memory)) 1)
      (deep_copy_spec (some 0))
      memory
      (some spec_value)
deep_copy_spec_lem_example =
    deep_copy_spec_lem toy_lawful (some 0) (some spec_value) memory
      (omega arith, (the_spec, refl, the_spec-SpecHolds))

deep_copy_status_lem_example :
    Copied toy_lawful
      (PointerHolds statuses_place (StatusHolds (behind memory)) 1)
      (deep_copy_status (some 0))
      memory
      (some status_value)
deep_copy_status_lem_example =
    deep_copy_status_lem toy_lawful (some 0) (some status_value) memory
      (omega arith, (the_status, refl, the_status-StatusHolds))

deep_copy_object_lem_example :
    (o' : Option ℕ) × (m' : Mem toy_library) × (deep_copy_object (some 0) memory
      ≡ some (as_object workload o', m'))
    × PointerHolds workloads_place (WorkloadHolds (behind memory)) 1 o' m' (some workload_value)
    × Keeps toy_lawful memory m'
deep_copy_object_lem_example =
    deep_copy_object_lem toy_lawful (some 0) (some workload_value) memory
      (omega arith, (the_workload, refl, the_workload-WorkloadHolds))

deep_copy_list_object_lem_example :
    (o' : Option ℕ) × (m' : Mem toy_library) × (deep_copy_list_object (some 0) memory
      ≡ some (as_object workload_list o', m'))
    × PointerHolds lists_place (ListHolds (behind memory)) 1 o' m' (some list_value)
    × Keeps toy_lawful memory m'
deep_copy_list_object_lem_example =
    deep_copy_list_object_lem toy_lawful (some 0) (some list_value) memory
      (omega arith, (the_list, refl, the_list-ListHolds))

abbrev memory_after :
    {A : Type 0} → Mem toy_library → Option (A × Mem toy_library) → Mem toy_library
memory_after m none = m
memory_after m (some (a, m')) = m'

unfoldable copied : Mem toy_library
unfolding deep_copy_list_object
copied = memory_after memory (deep_copy_list_object (some 0) memory)

copied_run : deep_copy_list_object (some 0) memory ≡ some (as_object workload_list (some 1), copied)
unfolding copied
copied_run = refl

memory-copied-Keeps : Keeps toy_lawful memory copied
memory-copied-Keeps =
    let (o', m', run, holds, k) = deep_copy_list_object_lem_example in
    let results : some (as_object workload_list o', m')
        ≡ some (as_object workload_list (some 1), copied) =
      sym run ∙ copied_run in
    let same_memory : m' ≡ copied = cc results in rw same_memory at k

-- The node selector of the original loses its entries, and then that of the copy.
abbrev old_changed : Mem toy_library
old_changed = record copied { maps = store 0 0 [] copied.maps }

abbrev new_changed : Mem toy_library
new_changed = record copied { maps = store 1 0 [] copied.maps }

same : {A : Type 0} (r r' : Region A) → SameAbove r r' r'
same r r' = record { same_next = omega arith; same_cell = λ p i h. refl }

old_changed-SameNew : SameNew toy_lawful memory copied old_changed
old_changed-SameNew = record {
  same_lib = Kept-refl copied.lib;
  same_maps = record { same_next = omega arith; same_cell = λ p i h. ground arith };
  same_tolerations = same memory.tolerations copied.tolerations;
  same_conditions = same memory.conditions copied.conditions;
  same_items = same memory.items copied.items;
  same_specs = same memory.specs copied.specs;
  same_statuses = same memory.statuses copied.statuses;
  same_workloads = same memory.workloads copied.workloads;
  same_lists = same memory.lists copied.lists;
}

new_changed-Keeps : Keeps toy_lawful memory new_changed
new_changed-Keeps =
    let k = memory-copied-Keeps in
    record {
      keeps_lib = k.keeps_lib;
      keeps_maps = Kept-store 1 0 ([]) k.keeps_maps (omega arith);
      keeps_tolerations = k.keeps_tolerations;
      keeps_conditions = k.keeps_conditions;
      keeps_items = k.keeps_items;
      keeps_specs = k.keeps_specs;
      keeps_statuses = k.keeps_statuses;
      keeps_workloads = k.keeps_workloads;
      keeps_lists = k.keeps_lists;
    }

deep_copy_list_object-IsIndependent_example :
    PointerHolds lists_place (ListHolds (behind memory)) 1 (some 1) old_changed (some list_value)
    × PointerHolds lists_place (ListHolds anywhere) 0 (some 0) new_changed (some list_value)
deep_copy_list_object-IsIndependent_example =
    deep_copy_list_object-IsIndependent toy_lawful (some 0) (some 1) (some list_value) memory copied
      old_changed new_changed (omega arith, (the_list, refl, the_list-ListHolds)) copied_run
      old_changed-SameNew new_changed-Keeps
