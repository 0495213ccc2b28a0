-- ===== src/V1alpha1/DeepCopy/Objects.antt =====
-- The generated methods of the API types: each copy holds what the original holds, and shares nothing
-- with it.
use aperture_ai.Prelude.{◌≡◌, refl, sym, ◌∙◌, ℕ, Option, none, some}
use aperture_ai.Prelude.Region.{Region, load-Kept, load-SameAbove}
use aperture_ai.V1alpha1.Memory.{
  Library, Spec, Status, Workload, WorkloadList, Mem, specs_place, statuses_place, workloads_place,
  lists_place,
}
use aperture_ai.V1alpha1.Memory.Laws.{LibraryIsLawful, Keeps, Keeps-refl, SameNew}
use aperture_ai.V1alpha1.Memory.Places.{
  specs-PlaceIsLawful, statuses-PlaceIsLawful, workloads-PlaceIsLawful, lists-PlaceIsLawful,
}
use aperture_ai.V1alpha1.Memory.Holds.{
  Bounds, anywhere, behind, SpecValue, StatusValue, WorkloadValue, ListValue, SpecHolds,
  StatusHolds, WorkloadHolds, ListHolds, PointerHolds,
}
use aperture_ai.V1alpha1.Memory.Carries.{
  Carries-same, Keeps-Carries, SameNew-Carries, SpecHolds-Follows, StatusHolds-Follows,
  WorkloadHolds-Follows, ListHolds-Carries, PointerHolds-Carries,
}
use aperture_ai.V1alpha1.DeepCopy.{
  copy_spec, copy_status, copy_workload, copy_list, deep_copy_spec, deep_copy_status,
  deep_copy_workload, deep_copy_list, workload, workload_list, as_object, deep_copy_object,
  deep_copy_list_object,
}
use aperture_ai.V1alpha1.DeepCopy.Slices.{Copied}
use aperture_ai.V1alpha1.DeepCopy.Structs.{copy_spec_lem, copy_status_lem}
use aperture_ai.V1alpha1.DeepCopy.Workloads.{copy_workload_lem, copy_list_lem}
use aperture_ai.V1alpha1.DeepCopy.Pointers.{deep_copy_of_lem}

as_object_inj : (o o' : Option ℕ) → as_object workload_list o ≡ as_object workload_list o' → o ≡ o'
as_object_inj none none e = refl
as_object_inj none (some p) e = cc e
as_object_inj (some p) none e = cc e
as_object_inj (some p) (some q) e = cc e

module _ {L : Library} (lawful : LibraryIsLawful L) where
  spec_apart :
      (from : Bounds) (a : Spec L) (v : SpecValue L) (r : Region (Spec L)) (m : Mem L)
      → SpecHolds from a m v
      → SpecHolds from a (record m { specs = r }) v
  spec_apart from a v r m h =
      let m' : Mem L = record m { specs = r } in
      let c = Carries-same lawful from m m' refl refl refl refl in
      SpecHolds-Follows lawful from a v m m' c h

  status_apart :
      (from : Bounds) (a : Status L) (v : StatusValue L) (r : Region (Status L)) (m : Mem L)
      → StatusHolds from a m v
      → StatusHolds from a (record m { statuses = r }) v
  status_apart from a v r m h =
      let m' : Mem L = record m { statuses = r } in
      let c = Carries-same lawful from m m' refl refl refl refl in
      StatusHolds-Follows lawful from a v m m' c h

  workload_apart :
      (from : Bounds) (a : Workload L) (v : WorkloadValue L) (r : Region (Workload L)) (m : Mem L)
      → WorkloadHolds from a m v
      → WorkloadHolds from a (record m { workloads = r }) v
  workload_apart from a v r m h =
      let m' : Mem L = record m { workloads = r } in
      let c = Carries-same lawful from m m' refl refl refl refl in
      WorkloadHolds-Follows lawful from a v m m' c h

  list_apart :
      (from : Bounds) (a : WorkloadList L) (v : ListValue L) (r : Region (WorkloadList L))
      (m : Mem L)
      → ListHolds from a m v
      → ListHolds from a (record m { lists = r }) v
  list_apart from a v r m h =
      let m' : Mem L = record m { lists = r } in
      let c = Carries-same lawful from m m' refl refl refl refl in
      ListHolds-Carries lawful from a v m m' c (λ p i w new found. found) h

  -- `DeepCopy` of a pointer to a spec in memory, or of nil, succeeds. The copy is nil exactly for nil, and
  -- else holds the same value, with every struct, map, array and start time of the operator's types
  -- at a new address; all that was in memory stays as it was. The libraries' types are copied as documented.
  pub deep_copy_spec_lem :
      (o : Option ℕ) (v : Option (SpecValue L)) (m : Mem L)
      → PointerHolds specs_place (SpecHolds anywhere) 0 o m v
      → Copied lawful
          (PointerHolds specs_place (SpecHolds (behind m)) m.specs.next)
          (deep_copy_spec o)
          m
          v
  unfolding deep_copy_spec
  deep_copy_spec_lem =
      deep_copy_of_lem lawful specs_place (specs-PlaceIsLawful lawful) (λ r m. refl) SpecHolds
        (λ a v m m' k h.
          SpecHolds-Follows lawful anywhere a v m m' (Keeps-Carries lawful anywhere m m' k) h)
        (spec_apart) copy_spec (λ a v m h. copy_spec_lem lawful m a v m (Keeps-refl lawful m) h)

  -- `DeepCopy` of a pointer to a status in memory, or of nil, succeeds. The copy is nil exactly for nil, and
  -- else holds the same value, with every struct, map, array and start time of the operator's types
  -- at a new address; all that was in memory stays as it was. The libraries' types are copied as documented.
  pub deep_copy_status_lem :
      (o : Option ℕ) (v : Option (StatusValue L)) (m : Mem L)
      → PointerHolds statuses_place (StatusHolds anywhere) 0 o m v
      → Copied lawful
          (PointerHolds statuses_place (StatusHolds (behind m)) m.statuses.next)
          (deep_copy_status o)
          m
          v
  unfolding deep_copy_status
  deep_copy_status_lem =
      deep_copy_of_lem lawful statuses_place (statuses-PlaceIsLawful lawful) (λ r m. refl)
        StatusHolds
        (λ a v m m' k h.
          StatusHolds-Follows lawful anywhere a v m m' (Keeps-Carries lawful anywhere m m' k) h)
        (status_apart) copy_status
        (λ a v m h. copy_status_lem lawful m a v m (Keeps-refl lawful m) h)

  -- The same for `DeepCopy` of a workload.
  pub deep_copy_workload_lem :
      (o : Option ℕ) (v : Option (WorkloadValue L)) (m : Mem L)
      → PointerHolds workloads_place (WorkloadHolds anywhere) 0 o m v
      → Copied lawful
          (PointerHolds workloads_place (WorkloadHolds (behind m)) m.workloads.next)
          (deep_copy_workload o)
          m
          v
  unfolding deep_copy_workload
  deep_copy_workload_lem =
      deep_copy_of_lem lawful workloads_place (workloads-PlaceIsLawful lawful) (λ r m. refl)
        WorkloadHolds
        (λ a v m m' k h.
          WorkloadHolds-Follows lawful anywhere a v m m' (Keeps-Carries lawful anywhere m m' k) h)
        (workload_apart) copy_workload
        (λ a v m h. copy_workload_lem lawful m a v m (Keeps-refl lawful m) h)

  -- The same for `DeepCopy` of a list of workloads.
  pub deep_copy_list_lem :
      (o : Option ℕ) (v : Option (ListValue L)) (m : Mem L)
      → PointerHolds lists_place (ListHolds anywhere) 0 o m v
      → Copied lawful
          (PointerHolds lists_place (ListHolds (behind m)) m.lists.next)
          (deep_copy_list o)
          m
          v
  unfolding deep_copy_list
  deep_copy_list_lem =
      deep_copy_of_lem lawful lists_place (lists-PlaceIsLawful lawful) (λ r m. refl) ListHolds
        (λ l v m m' k h.
          ListHolds-Carries lawful anywhere l v m m' (Keeps-Carries lawful anywhere m m' k)
            (λ p i w new found. load-Kept p i w k.keeps_items found) h)
        (list_apart) copy_list (copy_list_lem lawful)

  -- `DeepCopyObject` of a pointer to a workload in memory succeeds with a workload at a new address that
  -- holds the same value and reads only new maps and arrays, and all that was in memory stays as it
  -- was; for nil it returns a nil interface. The libraries' types are copied as documented.
  pub deep_copy_object_lem :
      (o : Option ℕ) (v : Option (WorkloadValue L)) (m : Mem L)
      → PointerHolds workloads_place (WorkloadHolds anywhere) 0 o m v
      → (o' : Option ℕ) × (m' : Mem L) × (deep_copy_object o m ≡ some (as_object workload o', m'))
        × PointerHolds workloads_place (WorkloadHolds (behind m)) m.workloads.next o' m' v
        × Keeps lawful m m'
  unfolding deep_copy_object
  deep_copy_object_lem o v m h =
      let (o', m', run, copied, k) = deep_copy_workload_lem o v m h in
      (o', m', rw run refl, copied, k)

  -- `DeepCopyObject` of a pointer to a list of workloads in memory succeeds with a list at a new address
  -- that holds the same workloads and reads only new maps and arrays, and all that was in memory stays
  -- as it was; for nil it returns a nil interface. The libraries' types are copied as documented.
  pub deep_copy_list_object_lem :
      (o : Option ℕ) (v : Option (ListValue L)) (m : Mem L)
      → PointerHolds lists_place (ListHolds anywhere) 0 o m v
      → (o' : Option ℕ) × (m' : Mem L) × (deep_copy_list_object o m
          ≡ some (as_object workload_list o', m'))
        × PointerHolds lists_place (ListHolds (behind m)) m.lists.next o' m' v
        × Keeps lawful m m'
  unfolding deep_copy_list_object
  deep_copy_list_object_lem o v m h =
      let (o', m', run, copied, k) = deep_copy_list_lem o v m h in (o', m', rw run refl, copied, k)

  -- The list of workloads that `DeepCopyObject` returned holds what the original held, whatever is
  -- written later to the structs, maps and arrays of the operator's types that were there before the
  -- copy; and the original holds it, whatever is written to those that were not. (The libraries' own
  -- memory only grows.)
  pub deep_copy_list_object-IsIndependent :
      (o o' : Option ℕ) (v : Option (ListValue L)) (m m' old_changed new_changed : Mem L)
      → PointerHolds lists_place (ListHolds anywhere) 0 o m v
      → deep_copy_list_object o m ≡ some (as_object workload_list o', m')
      → SameNew lawful m m' old_changed
      → Keeps lawful m new_changed
      → PointerHolds lists_place (ListHolds (behind m)) m.lists.next o' old_changed v
        × PointerHolds lists_place (ListHolds anywhere) 0 o new_changed v
  deep_copy_list_object-IsIndependent o o' v m m' old_changed new_changed h ran same kept =
      let (q, m₁, run, copied, k) = deep_copy_list_object_lem o v m h in
      let results : some (as_object workload_list q, m₁) ≡ some (as_object workload_list o', m') =
        sym run ∙ ran in
      let same_memory : m₁ ≡ m' = cc results in
      let same_pointer : q ≡ o' = as_object_inj q o' (cc results) in
      let there : PointerHolds lists_place (ListHolds (behind m)) m.lists.next o' m' v =
        rw same_pointer at (rw same_memory at copied) in
      let survives = SameNew-Carries lawful m m' old_changed same in
      let stays = Keeps-Carries lawful anywhere m new_changed kept in
      (
        PointerHolds-Carries lawful lists_place (ListHolds (behind m)) m' old_changed m.lists.next
            (λ p i l new found. load-SameAbove p i l same.same_lists new found)
            (λ l w holds.
              ListHolds-Carries lawful (behind m) l w m' old_changed survives
                (λ p i x new found. load-SameAbove p i x same.same_items new found) holds)
            o' v there,
        PointerHolds-Carries lawful lists_place (ListHolds anywhere) m new_changed 0
            (λ p i l new found. load-Kept p i l kept.keeps_lists found)
            (λ l w holds.
              ListHolds-Carries lawful anywhere l w m new_changed stays
                (λ p i x new found. load-Kept p i x kept.keeps_items found) holds)
            o v h,
      )
