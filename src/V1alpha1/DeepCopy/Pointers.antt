-- ===== src/V1alpha1/DeepCopy/Pointers.antt =====
-- `DeepCopy`: the copy of a struct behind a pointer.
use mathlib.Core.Path.{subst}
use aperture_ai.Prelude.{◌≡◌, refl, ℕ, ◌≤◌, ◌<◌, Option, none, some, arith}
use aperture_ai.Prelude.Region.{
  Region, store, reserve, Kept-reserve, Kept-store, load-store, load-Kept,
}
use aperture_ai.V1alpha1.Memory.{Library, Mem, Place}
use aperture_ai.V1alpha1.Memory.Laws.{
  LibraryIsLawful, Keeps, Keeps-refl, Keeps-trans, PlaceIsLawful,
}
use aperture_ai.V1alpha1.Memory.Holds.{Bounds, PointerHolds, anywhere, behind}
use aperture_ai.V1alpha1.DeepCopy.{Cmd, deep_copy_of}
use aperture_ai.V1alpha1.DeepCopy.Slices.{Copied}

module _ {L : Library} (lawful : LibraryIsLawful L) {A V : Type 0} (P : Place L A)
    (place : PlaceIsLawful lawful P)
    (ahead : (r : Region A) (m : Mem L) → behind (P.put r m) ≡ behind m)
    (Holds : Bounds → A → Mem L → V → Type 0)
    (stays : (a : A) (v : V) (m m' : Mem L)
      → Keeps lawful m m'
      → Holds anywhere a m v
      → Holds anywhere a m' v)
    (apart : (from : Bounds) (a : A) (v : V) (r : Region A) (m : Mem L)
      → Holds from a m v
      → Holds from a (P.put r m) v)
    (copy : A → Cmd L A)
    (copies : (a : A) (v : V) (m : Mem L)
      → Holds anywhere a m v
      → Copied lawful (Holds (behind m)) (copy a) m v) where
  pub deep_copy_of_lem :
      (o : Option ℕ) (v : Option V) (m : Mem L)
      → PointerHolds P (Holds anywhere) 0 o m v
      → Copied lawful (PointerHolds P (Holds (behind m)) (P.get m).next) (deep_copy_of P copy o) m v
  unfolding deep_copy_of
  deep_copy_of_lem none none m h = (none, m, refl, tt, Keeps-refl lawful m)
  deep_copy_of_lem none (some v) m h = elim h [ ]
  deep_copy_of_lem (some p) none m h = elim h [ ]
  deep_copy_of_lem (some p) (some v) m (low, (a, loaded, holds)) =
      let out = (P.get m).next in
      let r : Region A = reserve (P.get m) in
      let m₁ = P.put r m in
      let here = place.get-put r m in
      let k = place.keeps_put r (Keeps-refl lawful m) (Kept-reserve (P.get m)) in
      let found = load-Kept p 0 a (place.kept_get k) loaded in
      let (b, m₂, run, copied, k₂) = copies a v m₁ (stays a v m m₁ k holds) in
      let grown = (place.kept_get k₂).kept_next in
      let there : out < (P.get m₂).next =
        (let further : r.next ≤ (P.get m₂).next = rw here at grown in omega arith) in
      let old = Keeps-trans lawful k k₂ in
      let written : Region A = store out 0 b (P.get m₂) in
      (
        some out,
        P.put written m₂,
        rw found (rw run refl),
        (
          omega arith,
          (
            b,
            rw (place.get-put written m₂) (load-store out 0 b (P.get m₂) there),
            apart (behind m) b v written m₂ (subst (λ from. Holds from b m₂ v) (ahead r m) copied),
          ),
        ),
        place.keeps_put written old (Kept-store out 0 b (place.kept_get old) (omega arith)),
      )
