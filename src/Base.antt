-- ===== src/Base.antt =====
-- Names that every module shares: the libraries', passed on, and the helpers of the modules below.
mod Tests
mod Lists
mod Text
mod Members
mod Lines
pub mod Search
pub mod Dict
pub mod Paths
mod Appending
pub mod Json
pub mod Attempts
pub mod Int
pub mod Outcome
pub use Tests.*
unfoldable pub use Lists.*
unfoldable pub use Text.*
pub use Members.*
pub use Appending.*
unfoldable pub use Lines.*
pub use Prim.Native.Nat.{ℕ, zero, suc, ◌+◌, ◌-◌, ◌*◌, ◌/◌, ◌%◌, ◌≤◌, ◌<◌, min, max}
pub use Prim.Native.String.{String, ◌++◌ as ◌<>◌}
pub use mathlib.Core.Path.{◌≡◌, refl, sym, ap, ◌∙◌}
pub use mathlib.Core.Logic.{◌≢◌, ◌↔◌, ◌⊎◌, inl, inr}
pub use mathlib.Core.Bool.{Bool, true, false, not, ◌&&◌, ◌||◌}
pub use mathlib.Core.Option.{Option, none, some}
pub use mathlib.Core.List.{List, [], ◌∷◌, ◌++◌, map}
pub use native.Mathlib.Omega.{arith}
