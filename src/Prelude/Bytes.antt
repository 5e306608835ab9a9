-- ===== src/Prelude/Bytes.antt =====
-- `std::string` as the list of its bytes, literals by their code points.
use Prim.Native.Nat.{ℕ, ◌+◌}
use Prim.Native.Char.{code}
use Prim.Native.String.{String}
use mathlib.Core.Path.{◌≡◌, refl}
use mathlib.Core.Logic.{◌↔◌}
use mathlib.Core.Bool.{Bool, true, false, ◌&&◌}
use mathlib.Core.List.{List, [], ◌∷◌}
use native.Mathlib.Omega.{arith}
use mathlib.Core.Option.{Option, none, some}
use bintrade.Prelude.Tests.{◌==◌, if◌then◌else◌, leb}

abbrev pub Text : Type 0
Text = List ℕ

-- A literal. The texts of the program are ASCII, so a code point is a byte.
unfoldable pub str : String → Text
str String.[] = []
str (String.◌∷◌ c s) = code c ∷ str s

-- `operator==` on strings.
unfoldable pub text_eq : Text → Text → Bool
text_eq [] [] = true
text_eq [] (y ∷ ys) = false
text_eq (x ∷ xs) [] = false
text_eq (x ∷ xs) (y ∷ ys) = (x == y) && text_eq xs ys

pub text_eq_refl : (s : Text) → text_eq s s ≡ true
unfolding text_eq
text_eq_refl [] = refl
text_eq_refl (x ∷ xs) = ground (arith, text_eq_refl xs)

pub eq_of_text_eq : (s t : Text) → text_eq s t ≡ true → s ≡ t
unfolding text_eq
eq_of_text_eq [] [] h = refl
eq_of_text_eq [] (y ∷ ys) h = cc
eq_of_text_eq (x ∷ xs) [] h = cc
eq_of_text_eq (x ∷ xs) (y ∷ ys) h = ground (arith, eq_of_text_eq xs ys)

pub text_eq_iff : (s t : Text) → (text_eq s t ≡ true) ↔ (s ≡ t)
text_eq_iff s t = (eq_of_text_eq s t, λ e. rw (← e) (text_eq_refl s))

-- The value of the first entry under a key.
unfoldable pub lookup {ℓ} : {A : Type ℓ} → Text → List (Text × A) → Option A
lookup key [] = none
lookup key ((k, v) ∷ entries) = if text_eq k key then some v else lookup key entries

-- `std::tolower` of the C locale, on every byte.
pub lower_byte : ℕ → ℕ
lower_byte c = if leb 65 c && leb c 90 then c + 32 else c

unfoldable pub lower : Text → Text
unfolding lower_byte
lower [] = []
lower (c ∷ cs) = lower_byte c ∷ lower cs
