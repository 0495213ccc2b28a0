-- ===== src/V1alpha1/DeepCopy/Slices.antt =====
-- The copy of a slice, element by element.
use aperture_ai.Prelude.{
  ◌≡◌, refl, ◌∙◌, ap, ℕ, ◌≤◌, ◌<◌, ◌+◌, suc, Option, none, some, List, [], ◌∷◌, length, arith,
}
use aperture_ai.Prelude.Region.{
  Region, load, store, reserve, Kept-refl, Kept-reserve, Kept-store, load-store, load-store_ne,
  load-Kept,
}
use aperture_ai.V1alpha1.Memory.{Library, Mem, Place, Slice}
use aperture_ai.V1alpha1.Memory.Laws.{
  LibraryIsLawful, Keeps, Keeps-refl, Keeps-trans, PlaceIsLawful, RestIsLawful,
}
use aperture_ai.V1alpha1.Memory.Holds.{Bounds, ElemsHold, SliceHolds, anywhere}
use aperture_ai.V1alpha1.Memory.Carries.{Follows, Keeps-Carries}
use aperture_ai.V1alpha1.DeepCopy.{Cmd, copy_elems, copy_slice}

-- What a copy achieves: it succeeds, the copy holds the same value at addresses that are new since
-- `base`, and nothing that was there has changed.
abbrev pub Copied :
    {L : Library} (lawful : LibraryIsLawful L) {A V : Type 0}
    → (A → Mem L → V → Type 0)
    → Cmd L A
    → Mem L
    → V
    → Type 0
Copied {L} lawful {A} Holds copy m v =
    (b : A) × (m' : Mem L) × (copy m ≡ some (b, m')) × Holds b m' v × Keeps lawful m m'

module _ {L : Library} (lawful : LibraryIsLawful L) {A V : Type 0} (P : Place L A)
    (place : PlaceIsLawful lawful P) (rest : RestIsLawful lawful P)
    (Old New : A → Mem L → V → Type 0) (base : Mem L) (from : Bounds)
    (old_follows : Follows lawful anywhere Old) (new_follows : Follows lawful from New)
    (apart : (a : A) (v : V) (r : Region A) (m : Mem L) → New a m v → New a (P.put r m) v)
    (copy : A → Cmd L A)
    (copies : (a : A) (v : V) (m : Mem L)
      → Keeps lawful base m
      → Old a m v
      → Copied lawful New (copy a) m v) where
  -- The rounds from `i` on leave the elements there, and the ones before `i` as they were.
  abbrev Filled : ℕ → ℕ → List V → Mem L → Mem L → Type 0
  Filled out i vs m m' =
      Keeps lawful base m'
      × Keeps lawful m (P.put (P.get m) m')
      × ((j : ℕ) (a : A) → j < i → load out j (P.get m) ≡ some a → load out j (P.get m') ≡ some a)
      × ((P.get m).next ≤ (P.get m').next)
      × ElemsHold P New out i vs m'

  -- A write to the place leaves the rest of memory as it was.
  rest_of_write :
      (m m₁ : Mem L) (r : Region A)
      → Keeps lawful m m₁
      → Keeps lawful m (P.put (P.get m) (P.put r m₁))
  rest_of_write m m₁ r k =
      rw (rest.put-put (P.get m) r m₁) (place.keeps_put (P.get m) k (Kept-refl (P.get m)))

  -- What a copy holds stays through the write of it and the rounds that follow.
  settled :
      (b : A) (v : V) (m₁ m' : Mem L) (r : Region A)
      → New b m₁ v
      → Keeps lawful (P.put r m₁) (P.put (P.get (P.put r m₁)) m')
      → New b m' v
  settled b v m₁ m' r copied k =
      let m₂ = P.put r m₁ in
      let later : Mem L = P.put (P.get m₂) m' in
      let followed =
        new_follows b v m₂ later (Keeps-Carries lawful from m₂ later k) (apart b v r m₁ copied) in
      rw (rest.put-get m') at
        (rw (rest.put-put (P.get m') (P.get m₂) m') at (apart b v (P.get m') later followed))

  copy_elems_lem :
      (s : Slice) (out : ℕ) (j i : ℕ) (vs : List V) (m : Mem L)
      → Keeps lawful base m
      → (P.get base).next ≤ out
      → out < (P.get m).next
      → j ≡ s.first + i
      → ElemsHold P Old s.array j vs base
      → (m' : Mem L) × (copy_elems P copy s out (length vs) i m ≡ some (tt, m'))
        × Filled out i vs m m'
  unfolding copy_elems
  copy_elems_lem s out j i [] m k new there at tt =
      (m, refl, (k, rw (rest.put-get m) (Keeps-refl lawful m), λ j a h e. e, omega arith, tt))
  copy_elems_lem s out j i (v ∷ vs) m k new there at ((a, loaded, holds), others) =
      let found : load s.array (s.first + i) (P.get m) ≡ some a =
        rw at at (load-Kept s.array j a (place.kept_get k) loaded) in
      let (b, m₁, ran, copied, k₁) =
        copies a v m k (old_follows a v base m (Keeps-Carries lawful anywhere base m k) holds) in
      let r : Region A = store out i b (P.get m₁) in
      let m₂ = P.put r m₁ in
      let here = place.get-put r m₁ in
      let grown = (place.kept_get k₁).kept_next in
      let k' = Keeps-trans lawful k k₁ in
      let k₂ = place.keeps_put r k' (Kept-store out i b (place.kept_get k') new) in
      let (m', run, (kept, kept_rest, below, grows, elems)) =
        copy_elems_lem s out (suc j) (suc i) vs m₂ k₂ new (rw here (omega arith)) (omega arith)
          others in
      (
        m',
        rw found (rw ran run),
        (
          kept,
          rest.keeps_rest (rest_of_write m m₁ r k₁) kept_rest,
          λ q c low e. below q c (omega arith) (
              rw here
                (load-store_ne out q i b (P.get m₁) low ∙ load-Kept out q c (place.kept_get k₁) e)),
          (let further : r.next ≤ (P.get m').next = rw here at grows in omega arith),
          (
            (
              b,
              below i b (omega arith) (rw here (load-store out i b (P.get m₁) (omega arith))),
              settled b v m₁ m' r copied kept_rest,
            ),
            elems,
          ),
        ),
      )

  pub copy_slice_lem :
      (o : Option Slice) (vs : Option (List V))
      → SliceHolds P Old 0 o base vs
      → Copied lawful (SliceHolds P New (P.get base).next) (copy_slice P copy o) base vs
  unfolding copy_slice
  copy_slice_lem none none h = (none, base, refl, tt, Keeps-refl lawful base)
  copy_slice_lem none (some vs) h = elim h [ ]
  copy_slice_lem (some s) none h = elim h [ ]
  copy_slice_lem (some s) (some vs) (low, long, elems) =
      let out = (P.get base).next in
      let r : Region A = reserve (P.get base) in
      let m₁ = P.put r base in
      let here = place.get-put r base in
      let k = place.keeps_put r (Keeps-refl lawful base) (Kept-reserve (P.get base)) in
      let (m', run, (kept, kept_rest, below, grows, copied)) =
        copy_elems_lem s out s.first 0 vs m₁ k (omega arith) (rw here (omega arith)) (omega arith)
          elems in
      let all : copy_elems P copy s out s.len 0 m₁ ≡ some (tt, m') =
        ap (λ n. copy_elems P copy s out n 0 m₁) long ∙ run in
      (
        some (record { array = out; first = 0; len = s.len }),
        m',
        rw all refl,
        (omega arith, long, copied),
        kept,
      )
