-- ===== src/Prelude.antt =====
-- The names that every module shares: those of the libraries, passed on, and those of the children.
mod Tests
mod Lists
mod Text
mod Int
mod Results
mod Clock
pub mod Dict
pub use Tests.*
pub use Lists.*
unfoldable pub use Text.{str_eq, has_prefix}
pub use Text.{GoString, codes, str_eq_iff, str_eq_refl, has_prefix_iff}
unfoldable pub use Int.{◌+ℤ◌, ◌*ℤ◌}
pub use Int.{ℤ, pos, negsuc, sub_ℕ, ltb_ℤ, eq_ℤ}
pub use Results.*
unfoldable pub use Clock.{unix, from_unix, hours}
pub use Clock.{
  Time, second, minute, hour, epoch, whole_seconds, from_unix-unix, add_duration, max_hours,
  hours_of_le,
}
pub use Prim.Native.Nat.{ℕ, zero, suc, ◌+◌, ◌-◌, ◌*◌, ◌/◌, ◌%◌, ◌^◌, ◌≤◌, ◌<◌}
pub use mathlib.Core.Path.{◌≡◌, refl, sym, ap, ◌∙◌, subst, ◌≡⟨◌⟩◌, ◌∎}
pub use mathlib.Core.Logic.{◌≢◌, ◌↔◌, ◌⊎◌, inl, inr}
pub use mathlib.Core.Bool.{Bool, true, false, not, ◌&&◌, ◌||◌, false≢true}
pub use mathlib.Core.Option.{Option, none, some}
pub use mathlib.Core.List.{List, [], ◌∷◌, ◌++◌, map, append-nil, append_assoc}
pub use native.Mathlib.Omega.{arith}
