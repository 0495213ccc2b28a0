-- ===== src/Prelude.antt =====
-- Names that every part of the model shares: those of the libraries, passed on, and Go's conventions.
-- A Go `int`, `int32` or `int64` is a ℤ (`Prelude/Int.antt`); the operator compares and prints such
-- numbers and never computes with them, so no wrap-around can occur. A Go `string` is a text, a map
-- literal is an association list (`Prelude/Dict.antt`), and a nil pointer or a nil error is `none`.
mod Tests
pub mod Int
pub mod Dict
pub mod Format
pub mod Region
unfoldable pub use Tests.*
pub use Int.{ℤ, pos, negsuc, pos_part, neg_part, ◌≤ℤ◌, ltb_ℤ, leb_ℤ, eqb_ℤ}
pub use Prim.Native.Nat.{ℕ, zero, suc, ◌+◌, ◌-◌, ◌*◌, ◌/◌, ◌%◌, ◌≤◌, ◌<◌}
pub use Prim.Native.String.{String, ◌++◌ as ◌<>◌}
pub use mathlib.Core.Path.{◌≡◌, refl, sym, ap, ◌∙◌}
pub use mathlib.Core.Logic.{◌≢◌, ◌↔◌, ◌⊎◌, inl, inr}
pub use mathlib.Core.Bool.{Bool, true, false, ◌&&◌, ◌||◌, not}
pub use mathlib.Core.Option.{Option, none, some}
pub use mathlib.Core.List.{List, [], ◌∷◌, ◌++◌, map}
pub use native.Mathlib.Omega.{arith}
pub use text.Mathlib.Text.{◌==◌}
pub use text.Mathlib.TextEquality.{eq_iff}
