-- ===== src/Prelude/Search.antt =====
-- `std::string::find` and `substr` on bytes.
use Prim.Native.Nat.{ℕ, ◌+◌}
use mathlib.Core.Path.{◌≡◌, refl}
use mathlib.Core.Logic.{◌≢◌}
use mathlib.Core.Bool.{Bool, true, false, ◌&&◌}
use mathlib.Core.List.{[], ◌∷◌, ◌++◌}
use mathlib.Core.Option.{Option, none, some}
use native.Mathlib.Omega.{arith}
use bintrade.Prelude.Tests.{◌==◌, if◌then◌else◌}
use bintrade.Prelude.Lists.{length, take, drop, All}
use bintrade.Prelude.Bytes.{Text}

-- A place, counted from `n` bytes earlier.
abbrev pub shift : ℕ → Option ℕ → Option ℕ
shift n none = none
shift n (some i) = some (n + i)

-- The place of the first byte `c`.
unfoldable pub index : ℕ → Text → Option ℕ
index c [] = none
index c (x ∷ xs) = if x == c then some 0 else shift 1 (index c xs)

unfoldable pub starts_with : Text → Text → Bool
starts_with [] s = true
starts_with (p ∷ ps) [] = false
starts_with (p ∷ ps) (x ∷ xs) = (x == p) && starts_with ps xs

-- `s.find(needle)`
unfoldable pub find : Text → Text → Option ℕ
unfolding starts_with
find needle [] = if starts_with needle [] then some 0 else none
find needle (x ∷ xs) = if starts_with needle (x ∷ xs) then some 0 else shift 1 (find needle xs)

-- `s.find(c, from)`
unfoldable pub find_from : ℕ → Text → ℕ → Option ℕ
unfolding index
find_from c s from = shift from (index c (drop from s))

-- `s.substr(from, count)`, where `from` is no larger than the size.
abbrev pub substr : Text → ℕ → ℕ → Text
substr s from count = take count (drop from s)

-- No byte of the text is `c`.
abbrev pub Lacks : ℕ → Text → Type 0
Lacks c = All (λ x. x ≢ c)

pub index-append : (c : ℕ) (xs ys : Text) → Lacks c xs → index c (xs ++ c ∷ ys) ≡ some (length xs)
unfolding index
index-append c [] ys h = ground arith
index-append c (x ∷ xs) ys h = ground (arith, index-append c xs ys h.1)

pub index-Lacks : (c : ℕ) (xs : Text) → Lacks c xs → index c xs ≡ none
unfolding index
index-Lacks c [] h = refl
index-Lacks c (x ∷ xs) h = ground (arith, index-Lacks c xs h.1)

-- The first `c` of `xs ++ ys` is not in `xs`.
pub index-append_skip :
    (c : ℕ) (xs ys : Text) → Lacks c xs → index c (xs ++ ys) ≡ shift (length xs) (index c ys)
unfolding index
index-append_skip c [] ys h = ground arith
index-append_skip c (x ∷ xs) ys h = ground (arith, index-append_skip c xs ys h.1)

starts_with-append : (p ys : Text) → starts_with p (p ++ ys) ≡ true
unfolding starts_with
starts_with-append [] ys = refl
starts_with-append (x ∷ p) ys = ground (arith, starts_with-append p ys)

-- A needle is found behind a text that lacks its first byte.
pub find-append :
    (c : ℕ) (needle xs ys : Text)
    → Lacks c xs
    → find (c ∷ needle) (xs ++ ((c ∷ needle) ++ ys)) ≡ some (length xs)
unfolding find
find-append c needle [] ys h = ground (arith, starts_with-append needle ys)
find-append c needle (x ∷ xs) ys h = ground (arith, find-append c needle xs ys h.1)
