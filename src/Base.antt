-- ===== src/Base.antt =====
-- Names that all modules share: those of the libraries, passed on, and those of the children
-- (tests and conditionals, lists, signed integers, the keys of a Go map, a Go map, times).
pub mod Texts
mod Tests
mod Lists
mod Int
mod Keys
mod Dict
mod Times
unfoldable pub use Tests.*
unfoldable pub use Lists.*
unfoldable pub use Int.*
unfoldable pub use Keys.*
unfoldable pub use Dict.*
unfoldable pub use Times.*
pub use Prim.Native.Nat.{ℕ, zero, suc, ◌+◌, ◌-◌, ◌*◌, ◌/◌, ◌%◌, ◌^◌, ◌≤◌, ◌<◌, min}
pub use mathlib.Core.Path.{◌≡◌, refl, sym, ap, ◌∙◌}
pub use mathlib.Core.Logic.{◌≢◌, ◌↔◌, ◌⊎◌, inl, inr, ite, if_pos, if_neg}
pub use mathlib.Core.Bool.{Bool, true, false, not, ◌&&◌, ◌||◌}
pub use mathlib.Core.Option.{Option, none, some, map as map_option}
pub use mathlib.Core.List.{List, [], ◌∷◌, ◌++◌, map}
pub use native.Mathlib.Omega.{arith}
unfoldable pub use native.Mathlib.Decide.{dec_lt, dec_le, ℕ_discrete}
