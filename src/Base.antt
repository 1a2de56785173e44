-- ===== src/Base.antt =====
-- The names that every other module shares: the libraries', passed on, and those of the children.
mod Tests
mod Lists
pub mod Eq
pub mod Outcome
pub mod Text
pub mod Distinct
pub mod Dict
pub mod Time
pub use Tests.*
pub use Lists.*
pub use Eq.{
  ◌==◌, nat_eq, string_eq, option_eq, pair_eq, Equality, option_beq, ==_refl, ==_of_eq, ==_sound,
  ==_false,
}
pub use Outcome.{
  Result, Error, ok, err, ◌>>=◌, ◌>>◌, guard, fail_if, or_fail, >>=-eq-ok, Succeeds, Result-cases,
  ok_inj, or_fail-ok, guard-ok, fail_if-ok,
}
pub use Prim.Native.Nat.{ℕ, zero, suc, ◌+◌, ◌-◌, ◌-◌, ◌*◌, ◌≤◌, ◌<◌}
pub use Prim.Native.String.{String}
pub use mathlib.Core.Path.{◌≡◌, refl, sym, ap, ◌∙◌, subst}
pub use mathlib.Core.Logic.{◌≢◌, ◌↔◌, ◌⊎◌, inl, inr}
pub use mathlib.Core.Bool.{Bool, true, false, ◌&&◌, ◌||◌, not}
pub use mathlib.Core.Option.{Option, none, some}
pub use mathlib.Core.List.{List, [], ◌∷◌, ◌++◌, map, map-append}
pub use native.Mathlib.Omega.{arith}
