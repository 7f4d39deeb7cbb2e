-- ===== src/Base.antt =====
-- Names and lemmas that the models of the kernel's parts share.
mod Tests
mod Lists
pub mod Int
pub mod Maps
pub mod Bytes
pub use Tests.*
pub use Lists.*
pub use Maps.{update, update_self, update_ne}
pub use Int.{ℤ, pos, negsuc, sub_ℕ}
pub use Prim.Native.Nat.{ℕ, zero, suc, ◌+◌, ◌-◌, ◌*◌, ◌/◌, ◌%◌, ◌^◌, ◌≤◌, ◌<◌}
pub use mathlib.Core.Path.{◌≡◌, refl, sym, ap, ◌∙◌}
pub use mathlib.Core.Logic.{◌≢◌, ◌↔◌, ◌⊎◌, inl, inr}
pub use mathlib.Core.Bool.{Bool, true, false, not, ◌&&◌, ◌||◌}
pub use mathlib.Core.Option.{Option, none, some}
pub use mathlib.Core.List.{List, [], ◌∷◌, ◌++◌, map}
pub use native.Mathlib.Omega.{arith}
