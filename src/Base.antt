-- ===== src/Base.antt =====
-- Names that the modules of the library share: the libraries' and those of the children.
mod Tests
mod Lists
mod Weights
mod Results
mod Sorting
mod Positions
mod Keyed
mod Counts
pub mod Int
pub mod Text
pub use Tests.*
unfoldable pub use Lists.*
pub use Weights.*
pub use Results.*
unfoldable pub use Sorting.*
pub use Positions.*
pub use Keyed.*
pub use Counts.*
pub use Prim.Native.Nat.{ℕ, zero, suc, ◌+◌, ◌-◌, ◌*◌, ◌/◌, ◌%◌, ◌≤◌, ◌<◌, max, min}
pub use mathlib.Core.Path.{◌≡◌, refl, sym, ap, ◌∙◌, fun_ext}
pub use mathlib.Core.Logic.{◌≢◌, ◌↔◌, ◌⊎◌, inl, inr}
pub use mathlib.Core.Bool.{Bool, true, false, not, ◌&&◌, ◌||◌}
pub use mathlib.Core.Option.{Option, none, some}
pub use mathlib.Core.List.{List, [], ◌∷◌, ◌++◌, map, reverse, append-nil, append_assoc}
unfoldable pub use mathlib.Core.List.{flatten}
pub use native.Mathlib.Omega.{arith}
