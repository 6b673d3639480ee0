-- ===== src/Prelude.antt =====
-- Names and lemmas that the components share: the libraries' names, passed on, tests on the
-- native numbers, and lists measured by them.
mod Tests
mod Lists
mod Int
mod Octets
pub mod Assoc
pub use Tests.*
pub use Lists.*
pub use Int.*
unfoldable pub use Octets.{bytes_equal}
pub use Octets.*
pub use Prim.Native.Nat.{ℕ, zero, suc, ◌+◌, ◌-◌, ◌*◌, ◌/◌, ◌%◌, ◌^◌, ◌≤◌, ◌<◌}
pub use mathlib.Core.Path.{◌≡◌, refl, sym, ap, ap₂, subst, ◌∙◌}
pub use mathlib.Core.Logic.{◌≢◌, ◌↔◌, ◌⊎◌, inl, inr}
pub use mathlib.Core.Bool.{Bool, true, false, not, ◌&&◌, ◌||◌}
pub use mathlib.Core.Option.{Option, none, some, some-injective}
pub use mathlib.Core.List.{List, [], ◌∷◌, ◌++◌, map, append_assoc, append-nil}
pub use native.Mathlib.Omega.{arith}
