-- ===== src/Base.antt =====
-- The names that the other modules share: the libraries', and those of the children.
mod Maps
mod Text
mod Calls
mod Lists
pub mod Sets
mod Decimal
pub use Maps.*
unfoldable pub use Maps.{lookup, insert, delete}
pub use Text.*
unfoldable pub use Text.{Bytes-discrete}
pub use Calls.*
pub use Lists.*
unfoldable pub use Decimal.{show_ℕ}
pub use Prim.Native.Nat.{ℕ, zero, suc, ◌+◌, ◌-◌, ◌*◌, ◌%◌, ◌^◌, ◌≤◌, ◌<◌, bit_or, bit_xor}
pub use mathlib.Core.Path.{◌≡◌, refl, sym, ap, ap₂, ◌∙◌}
pub use mathlib.Core.Logic.{◌≢◌, ◌↔◌, ◌⊎◌, inl, inr, ite}
pub use mathlib.Core.Bool.{Bool, true, false, not, ◌&&◌, ◌||◌, cond}
pub use mathlib.Core.Option.{Option, none, some}
pub use mathlib.Core.List.{List, [], ◌∷◌, ◌++◌, map, Mem}
pub use native.Mathlib.Omega.{arith}
unfoldable pub use native.Mathlib.Decide.{ℕ_discrete, dec_lt, dec_le}
