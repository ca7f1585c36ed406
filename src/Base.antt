-- ===== src/Base.antt =====
-- The names that the other modules share: those of the libraries, passed on, and of four children:
-- tests on numbers, lists with native indices, C integers, and runs that fault or block.
mod Tests
mod Lists
mod Words
mod Runs
pub mod Int
pub mod Bits
pub mod Masks
pub use Tests.*
pub use Lists.*
pub use Words.*
pub use Runs.*
pub use Prim.Native.Nat.{ℕ, zero, suc, ◌+◌, ◌-◌, ◌*◌, ◌/◌, ◌%◌, ◌^◌, ◌≤◌, ◌<◌, min}
pub use mathlib.Core.Path.{◌≡◌, refl, sym, ap, ap₂, ◌∙◌}
pub use mathlib.Core.Logic.{◌≢◌, ◌↔◌, ◌⊎◌, inl, inr}
pub use mathlib.Core.Bool.{Bool, true, false, not, ◌&&◌, ◌||◌}
pub use mathlib.Core.Option.{Option, none, some}
pub use mathlib.Core.List.{List, [], ◌∷◌, ◌++◌, map, append-nil, append_assoc}
pub use native.Mathlib.Omega.{arith}
