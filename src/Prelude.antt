-- ===== src/Prelude.antt =====
-- The names that the other modules share: the libraries', passed on, and those of the children.
mod Tests
mod Lists
mod Bytes
mod Int
mod Bits
mod Order
mod Search
mod Steps
pub use Tests.*
pub use Lists.*
pub use Bytes.*
unfoldable pub use Bytes.{str, text_eq, lookup, lower}
pub use Int.*
pub use Bits.{pow2_pos, mod_unique, mod_multiple, mod-mod_pow2, bit_and_mask}
pub use Search.*
unfoldable pub use Search.{index, starts_with, find, find_from}
pub use Order.*
pub use Steps.*
unfoldable pub use Order.{lt_wf}
pub use Prim.Native.Nat.{ℕ, zero, suc, ◌+◌, ◌-◌, ◌*◌, ◌/◌, ◌%◌, ◌^◌, ◌≤◌, ◌<◌, min, max, bit_and}
pub use Prim.Native.String.{String}
pub use mathlib.Core.Path.{◌≡◌, refl, sym, ap, ap₂, subst, ◌∙◌, ◌≡⟨◌⟩◌, ◌∎}
pub use mathlib.Core.Logic.{◌≢◌, ◌↔◌, ◌⊎◌, inl, inr}
pub use mathlib.Core.Bool.{Bool, true, false, not, ◌&&◌, ◌||◌, false≢true}
pub use mathlib.Core.Option.{Option, none, some}
pub use mathlib.Core.List.{List, [], ◌∷◌, ◌++◌, map, append_assoc, append-nil}
pub use native.Mathlib.Omega.{arith}
pub use native.Mathlib.Numerals.{add-one}
unfoldable pub use native.Mathlib.Decide.{dec_lt, dec_le, ℕ_discrete}
