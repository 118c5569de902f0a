-- ===== src/Common.antt =====
-- The names that the other modules share: the libraries', passed on, and those of the children
-- below (Boolean tests, text, bytes, lists over the native numbers, integers).
mod Tests
mod Text
mod Lists
mod Int
mod Results
mod ByteText
pub mod Decimal
pub mod Equal
pub use Tests.*
unfoldable pub use Text.*
pub use Lists.*
pub use Results.*
unfoldable pub use ByteText.*
unfoldable pub use Int.*
pub use Prim.Native.Nat.{ℕ, zero, suc, ◌+◌, ◌-◌, ◌*◌, ◌/◌, ◌%◌, ◌^◌, ◌≤◌, ◌<◌}
pub use Prim.Native.String.{String}
pub use mathlib.Core.Path.{◌≡◌, refl, sym, ap, ◌∙◌, subst}
pub use mathlib.Core.Logic.{◌≢◌, ◌↔◌, ◌⊎◌, inl, inr}
pub use mathlib.Core.Bool.{Bool, true, false, not, ◌&&◌, ◌||◌}
pub use mathlib.Core.Option.{Option, none, some}
pub use mathlib.Core.List.{List, [], ◌∷◌, ◌++◌, map, Memᴰ}
pub use native.Mathlib.Omega.{arith}
