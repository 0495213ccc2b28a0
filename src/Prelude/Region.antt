-- ===== src/Prelude/Region.antt =====
-- The part of Go's memory that holds values of one type: maps, arrays or structs. A cell has an address
-- and an index into it; a map or a struct stands at index 0.
use Prim.Native.Nat.{ℕ, suc, ◌≤◌, ◌<◌}
use mathlib.Core.Path.{◌≡◌, refl}
use mathlib.Core.Bool.{◌&&◌}
use mathlib.Core.Option.{Option, none, some}
use native.Mathlib.Omega.{arith}
use aperture_ai.Prelude.Tests.{ltb, eqb, if◌then◌else◌}

pub record Region (A : Type 0) : Type 0 where
  pub next : ℕ
  pub cell : ℕ → ℕ → Option A

module _ {A : Type 0} where
  -- `none` at an address that was never handed out, and where nothing was written yet.
  abbrev pub load : ℕ → ℕ → Region A → Option A
  load p i r = if ltb p r.next then r.cell p i else none

  -- The address that `make` or `new` returns is the next one.
  abbrev pub reserve : Region A → Region A
  reserve r = record { next = suc r.next; cell = λ q j. if eqb r.next q then none else r.cell q j }

  abbrev pub store : ℕ → ℕ → A → Region A → Region A
  store p i a r = record r { cell = λ q j. if eqb p q && eqb i j then some a else r.cell q j }

  -- Nothing that was there has changed.
  pub record Kept (r r' : Region A) : Type 0 where
    pub kept_next : r.next ≤ r'.next
    pub kept_cell : (p i : ℕ) → p < r.next → r'.cell p i ≡ r.cell p i

  -- What was handed out behind `r` is the same in both.
  pub record SameAbove (r r' r'' : Region A) : Type 0 where
    pub same_next : r'.next ≤ r''.next
    pub same_cell : (p i : ℕ) → r.next ≤ p → r''.cell p i ≡ r'.cell p i

  pub Kept-refl : (r : Region A) → Kept r r
  Kept-refl r = record { kept_next = omega arith; kept_cell = λ p i h. refl }

  pub Kept-trans : {r r' r'' : Region A} → Kept r r' → Kept r' r'' → Kept r r''
  Kept-trans k k' = record {
    kept_next = omega (arith, k.kept_next, k'.kept_next);
    kept_cell = λ p i h. ground (arith, k.kept_cell p i, k'.kept_cell p i, k.kept_next);
  }

  pub Kept-reserve : (r : Region A) → Kept r (reserve r)
  Kept-reserve r = record { kept_next = omega arith; kept_cell = λ p i h. ground arith }

  -- A write behind what was there.
  pub Kept-store :
      {r r' : Region A} (p i : ℕ) (a : A) → Kept r r' → r.next ≤ p → Kept r (store p i a r')
  Kept-store p i a k h = record {
    kept_next = k.kept_next;
    kept_cell = λ q j below. ground (arith, k.kept_cell q j);
  }

  pub load-Kept :
      {r r' : Region A} (p i : ℕ) (a : A) → Kept r r' → load p i r ≡ some a → load p i r' ≡ some a
  load-Kept p i a k h = ground (arith, k.kept_cell p i, k.kept_next)

  pub load-SameAbove :
      {r r' r'' : Region A} (p i : ℕ) (a : A)
      → SameAbove r r' r''
      → r.next ≤ p
      → load p i r' ≡ some a
      → load p i r'' ≡ some a
  load-SameAbove p i a k fresh h = ground (arith, k.same_cell p i, k.same_next)

  pub load-store : (p i : ℕ) (a : A) (r : Region A) → p < r.next → load p i (store p i a r) ≡ some a
  load-store p i a r h = ground arith

  pub load-store_ne :
      (p i j : ℕ) (a : A) (r : Region A) → i < j → load p i (store p j a r) ≡ load p i r
  load-store_ne p i j a r h = ground arith
