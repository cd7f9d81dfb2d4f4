-- ===== src/Base.antt =====
-- Names and lemmas that every component shares: Boolean tests, C arrays as lists, machine words
-- and the algebra of exclusive or. It models no code of its own.
mod Tests
mod Lists
mod Word
mod Text
mod Table
mod Loop
mod Count
pub use Tests.*
pub use Lists.*
pub use Word.*
pub use Text.*
pub use Count.*
unfoldable pub use Loop.*
unfoldable pub use Table.{holds_below}
pub use Table.{holds_at}
pub use Prim.Native.Nat.{ℕ, zero, suc, ◌+◌, ◌-◌, ◌*◌, ◌/◌, ◌%◌, ◌^◌, ◌≤◌, ◌<◌, min, max}
pub use Prim.Native.Nat.{bit_and, bit_or, bit_xor}
pub use mathlib.Core.Path.{◌≡◌, refl, sym, ap, ap₂, ◌∙◌}
pub use mathlib.Core.Logic.{◌≢◌, ◌↔◌, ◌⊎◌, inl, inr}
pub use mathlib.Core.Bool.{Bool, true, false, not, ◌&&◌, ◌||◌}
pub use mathlib.Core.Option.{Option, none, some}
pub use mathlib.Core.List.{List, [], ◌∷◌, ◌++◌, map}
pub use native.Mathlib.Omega.{arith}
