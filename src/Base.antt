-- ===== src/Base.antt =====
-- The names that every module of the library shares: the libraries', passed on, and those of the
-- child modules on tests, machine words, lists and loops.
mod Tests
mod Words
mod Lists
mod Search
mod Assoc
mod Keys
mod Loop
pub use Tests.*
pub use Words.*
unfoldable pub use Lists.*
pub use Search.*
unfoldable pub use Assoc.*
unfoldable pub use Keys.*
unfoldable pub use Loop.*
pub use Prim.Native.Nat.{ℕ, zero, suc, ◌+◌, ◌-◌, ◌*◌, ◌/◌, ◌%◌, ◌^◌, ◌≤◌, ◌<◌, min, max}
pub use mathlib.Core.Path.{◌≡◌, refl, sym, ap, ap₂, subst, ◌∙◌, ◌≡⟨◌⟩◌, ◌∎}
pub use mathlib.Core.Logic.{◌≢◌, ◌↔◌, ◌⊎◌, inl, inr}
pub use mathlib.Core.Bool.{Bool, true, false, not, ◌&&◌, ◌||◌}
pub use mathlib.Core.Option.{Option, none, some}
pub use mathlib.Core.List.{List, [], ◌∷◌, ◌++◌, map, append_assoc, append-nil}
pub use native.Mathlib.Omega.{arith}
