-- ===== src/V1alpha1/DeepCopy/Maps.antt =====
-- The copy of a map.
use aperture_ai.Prelude.{
  String, eq_iff, ◌≡◌, refl, ◌∙◌, ℕ, ◌≤◌, ◌<◌, Option, none, some, [], ◌∷◌, arith,
}
use aperture_ai.Prelude.Dict.{Labels, lookup, insert, lookup-insert}
use aperture_ai.Prelude.Region.{
  Region, load, store, reserve, Kept-reserve, Kept-store, load-store, load-Kept,
}
use aperture_ai.V1alpha1.Memory.{Library, Mem}
use aperture_ai.V1alpha1.Memory.Laws.{LibraryIsLawful, IsMap, Keeps, Keeps-refl}
use aperture_ai.V1alpha1.Memory.Places.{maps-PlaceIsLawful}
use aperture_ai.V1alpha1.Memory.Holds.{MapHolds}
use aperture_ai.V1alpha1.DeepCopy.{insert_entries, copy_map}

-- What a map gives, or else another.
abbrev or_else : Option String → Option String → Option String
or_else none o = o
or_else (some v) o = some v

insert-IsMap : (k v : String) (m : Labels) → IsMap m → IsMap (insert k v m)
unfolding insert
insert-IsMap k v [] h = (refl, tt)
insert-IsMap k v ((j, w) ∷ m) (new, rest) =
    ground (arith, eq_iff j k, eq_iff k j, lookup-insert j k v m, insert-IsMap k v m rest)

or_else-none : (o : Option String) → or_else o none ≡ o
or_else-none none = refl
or_else-none (some v) = refl

-- All entries, one after the other.
abbrev insert_all : Labels → Labels → Labels
insert_all [] m = m
insert_all ((k, v) ∷ entries) m = insert_all entries (insert k v m)

insert_all-IsMap : (entries m : Labels) → IsMap m → IsMap (insert_all entries m)
insert_all-IsMap [] m h = h
insert_all-IsMap ((k, v) ∷ entries) m h =
    insert_all-IsMap entries (insert k v m) (insert-IsMap k v m h)

lookup-insert_all :
    (j : String) (entries m : Labels)
    → IsMap entries
    → lookup j (insert_all entries m) ≡ or_else (lookup j entries) (lookup j m)
lookup-insert_all j [] m h = refl
lookup-insert_all j ((k, v) ∷ entries) m (new, rest) =
    ground
      (arith, eq_iff k j, lookup-insert j k v m, lookup-insert_all j entries (insert k v m) rest)

module _ {L : Library} (lawful : LibraryIsLawful L) where
  insert_entries_lem :
      (base : Mem L) (out : ℕ) (entries l : Labels) (m : Mem L)
      → Keeps lawful base m
      → base.maps.next ≤ out
      → out < m.maps.next
      → load out 0 m.maps ≡ some l
      → (m' : Mem L) × (insert_entries out entries m ≡ some (tt, m'))
        × Keeps lawful base m'
        × (load out 0 m'.maps ≡ some (insert_all entries l))
  unfolding insert_entries
  insert_entries_lem base out [] l m k new there loaded = (m, refl, k, loaded)
  insert_entries_lem base out ((key, val) ∷ entries) l m k new there loaded =
      let place = maps-PlaceIsLawful lawful in
      let r = store out 0 (insert key val l) m.maps in
      let written : Mem L = record m { maps = r } in
      let (m', run, kept, found) =
        insert_entries_lem base out entries (insert key val l) written
          (place.keeps_put r k (Kept-store out 0 (insert key val l) k.keeps_maps new)) new there
          (load-store out 0 (insert key val l) m.maps there) in
      (m', rw loaded run, kept, found)

  pub copy_map_lem :
      (m : Mem L) (o : Option ℕ) (f : Option (String → Option String))
      → MapHolds 0 o m f
      → (o' : Option ℕ) × (m' : Mem L) × (copy_map o m ≡ some (o', m'))
        × MapHolds m.maps.next o' m' f
        × Keeps lawful m m'
  unfolding copy_map
  copy_map_lem m none none h = (none, m, refl, tt, Keeps-refl lawful m)
  copy_map_lem m none (some f) h = elim h [ ]
  copy_map_lem m (some p) none h = elim h [ ]
  copy_map_lem m (some p) (some f) (low, (l, loaded, sound, same)) =
      let place = maps-PlaceIsLawful lawful in
      let out = m.maps.next in
      let reserved : Region Labels = reserve m.maps in
      let empty : Region Labels = store out 0 [] reserved in
      let kept = Kept-store out 0 ([]) (Kept-reserve m.maps) (omega arith) in
      let m₁ : Mem L = record m { maps = empty } in
      let (m', run, keeps, found) =
        insert_entries_lem m out (L.range l) ([]) m₁
          (place.keeps_put empty (Keeps-refl lawful m) kept) (omega arith) (omega arith)
          (load-store out 0 ([]) reserved (omega arith)) in
      (
        some out,
        m',
        rw (load-Kept p 0 l kept loaded) (rw run refl),
        (
          omega arith,
          (
            insert_all (L.range l) [],
            found,
            insert_all-IsMap (L.range l) [] tt,
            λ k.
                lookup-insert_all k (L.range l) [] (lawful.range-IsMap l sound)
                ∙ or_else-none (lookup k (L.range l))
                ∙ (lawful.range-lookup k l sound ∙ same k),
          ),
        ),
        keeps,
      )
