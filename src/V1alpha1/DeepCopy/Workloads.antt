-- ===== src/V1alpha1/DeepCopy/Workloads.antt =====
-- The copies of a workload and of a list of workloads.
use aperture_ai.Prelude.{refl, Option, List}
use aperture_ai.Prelude.Region.{Region}
use aperture_ai.V1alpha1.Memory.{Library, Slice, Workload, WorkloadList, Mem, items_place}
use aperture_ai.V1alpha1.Memory.Laws.{LibraryIsLawful, Keeps, Keeps-trans}
use aperture_ai.V1alpha1.Memory.Places.{items-PlaceIsLawful, items-RestIsLawful}
use aperture_ai.V1alpha1.Memory.Holds.{
  anywhere, behind, WorkloadValue, ListValue, SliceHolds, WorkloadHolds, ListHolds,
}
use aperture_ai.V1alpha1.Memory.Carries.{
  Keeps-Carries, Carries-same, SpecHolds-Follows, WorkloadHolds-Follows, ListHolds-Carries,
}
use aperture_ai.V1alpha1.DeepCopy.{copy_slice, copy_workload, copy_list}
use aperture_ai.V1alpha1.DeepCopy.Slices.{Copied, copy_slice_lem}
use aperture_ai.V1alpha1.DeepCopy.Structs.{called, called-Keeps, copy_spec_lem, copy_status_lem}

module _ {L : Library} (lawful : LibraryIsLawful L) where
  module _ (base : Mem L) where
    pub copy_workload_lem :
        (w : Workload L) (v : WorkloadValue L) (m : Mem L)
        → Keeps lawful base m
        → WorkloadHolds anywhere w m v
        → Copied lawful (WorkloadHolds (behind base)) (copy_workload w) m v
    unfolding copy_workload
    copy_workload_lem w v m k h =
        let E = L.object_meta in
        let copier = lawful.copies_object_meta in
        let m₁ = called E w.object_meta m in
        let o = (E.deep_copy w.object_meta m.lib).0 in
        let copied₁ = copier.copied w.object_meta v.object_meta m.lib h.holds_object_meta in
        let k₁ = called-Keeps lawful E w.object_meta m copier in
        let h₁ =
          WorkloadHolds-Follows lawful anywhere w v m m₁ (Keeps-Carries lawful anywhere m m₁ k₁)
            h in
        let old₁ = Keeps-trans lawful k k₁ in
        let (s, m₂, run₂, copied₂, k₂) =
          copy_spec_lem lawful base w.spec v.spec m₁ old₁ h₁.holds_spec in
        let h₂ =
          WorkloadHolds-Follows lawful anywhere w v m₁ m₂ (Keeps-Carries lawful anywhere m₁ m₂ k₂)
            h₁ in
        let old₂ = Keeps-trans lawful old₁ k₂ in
        let (t, m₃, run₃, copied₃, k₃) =
          copy_status_lem lawful base w.status v.status m₂ old₂ h₂.holds_status in
        let carried = Keeps-Carries lawful (behind base) m₂ m₃ k₃ in
        (
          record w { object_meta = o; spec = s; status = t },
          m₃,
          rw run₂ (rw run₃ refl),
          record {
            same_type_meta = h.same_type_meta;
            holds_object_meta =
                copier.value_kept o v.object_meta m₁.lib m₃.lib (Keeps-trans lawful k₂ k₃).keeps_lib
                  copied₁;
            holds_spec = SpecHolds-Follows lawful (behind base) s v.spec m₂ m₃ carried copied₂;
            holds_status = copied₃;
          },
          Keeps-trans lawful k₁ (Keeps-trans lawful k₂ k₃),
        )

    -- A workload reads no array of workloads.
    WorkloadHolds-items :
        (w : Workload L) (v : WorkloadValue L) (r : Region (Workload L)) (m : Mem L)
        → WorkloadHolds (behind base) w m v
        → WorkloadHolds (behind base) w (record m { items = r }) v
    WorkloadHolds-items w v r m h =
        WorkloadHolds-Follows lawful (behind base) w v m (record m { items = r })
          (Carries-same lawful (behind base) m (record m { items = r }) refl refl refl refl) h

    copy_items_lem :
        (m : Mem L)
        → Keeps lawful base m
        → (o : Option Slice) (vs : Option (List (WorkloadValue L)))
        → SliceHolds items_place (WorkloadHolds anywhere) 0 o m vs
        → Copied lawful
            (SliceHolds items_place (WorkloadHolds (behind base)) m.items.next)
            (copy_slice items_place copy_workload o)
            m
            vs
    copy_items_lem m k =
        copy_slice_lem lawful items_place (items-PlaceIsLawful lawful) (items-RestIsLawful lawful)
          (WorkloadHolds anywhere) (WorkloadHolds (behind base)) m (behind base)
          (WorkloadHolds-Follows lawful anywhere) (WorkloadHolds-Follows lawful (behind base))
          WorkloadHolds-items copy_workload
          (λ w v m' k' h. copy_workload_lem w v m' (Keeps-trans lawful k k') h)

  pub copy_list_lem :
      (l : WorkloadList L) (v : ListValue L) (m : Mem L)
      → ListHolds anywhere l m v
      → Copied lawful (ListHolds (behind m)) (copy_list l) m v
  unfolding copy_list
  copy_list_lem l v m h =
      let E = L.list_meta in
      let copier = lawful.copies_list_meta in
      let m₁ = called E l.list_meta m in
      let k₁ = called-Keeps lawful E l.list_meta m copier in
      let there =
        ListHolds-Carries lawful anywhere l v m m₁ (Keeps-Carries lawful anywhere m m₁ k₁)
          (λ p i w new found. found) h in
      let (items, m₂, run₂, copied₂, k₂) =
        copy_items_lem m m₁ k₁ l.items v.items there.holds_items in
      (
        record l { list_meta = (E.deep_copy l.list_meta m.lib).0; items = items },
        m₂,
        rw run₂ refl,
        record {
          same_list_type_meta = h.same_list_type_meta;
          holds_list_meta =
              copier.value_kept (E.deep_copy l.list_meta m.lib).0 v.list_meta m₁.lib m₂.lib
                k₂.keeps_lib (copier.copied l.list_meta v.list_meta m.lib h.holds_list_meta);
          holds_items = copied₂;
        },
        Keeps-trans lawful k₁ k₂,
      )
