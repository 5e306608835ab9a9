-- ===== src/Prelude/Lists.antt =====
-- Lists measured and indexed by native numbers, under the library's names.
use Prim.Native.Nat.{ℕ, zero, suc, ◌+◌, ◌-◌, ◌<◌, ◌≤◌}
use mathlib.Core.Path.{◌≡◌, refl, ap, ap₂}
use mathlib.Core.Logic.{◌≢◌}
use mathlib.Core.List.{List, [], ◌∷◌, ◌++◌, map}
use mathlib.Core.Option.{Option, none, some}
use native.Mathlib.Omega.{arith}

module _ {ℓ} {A : Type ℓ} where
  abbrev pub length : List A → ℕ
  length [] = 0
  length (x ∷ xs) = suc (length xs)

  abbrev pub get_elem? : List A → ℕ → Option A
  get_elem? [] i = none
  get_elem? (x ∷ xs) zero = some x
  get_elem? (x ∷ xs) (suc i) = get_elem? xs i

  -- A write out of bounds changes nothing.
  abbrev pub set : List A → ℕ → A → List A
  set [] i v = []
  set (x ∷ xs) zero v = v ∷ xs
  set (x ∷ xs) (suc i) v = x ∷ set xs i v

  abbrev pub take : ℕ → List A → List A
  take zero xs = []
  take (suc n) [] = []
  take (suc n) (x ∷ xs) = x ∷ take n xs

  abbrev pub drop : ℕ → List A → List A
  drop zero xs = xs
  drop (suc n) [] = []
  drop (suc n) (x ∷ xs) = drop n xs

  abbrev pub replicate : ℕ → A → List A
  replicate zero a = []
  replicate (suc n) a = a ∷ replicate n a

  -- A predicate on every element, by recursion: it computes to tuples.
  abbrev pub All {κ} : (A → Type κ) → List A → Type κ
  All P [] = Unit
  All P (x ∷ xs) = P x × All P xs

module _ {ℓ} {A : Type ℓ} where
  pub length-append : (xs ys : List A) → length (xs ++ ys) ≡ length xs + length ys
  length-append [] ys = omega arith
  length-append (x ∷ xs) ys = omega (arith, length-append xs ys)

  pub length-set : (xs : List A) (i : ℕ) (v : A) → length (set xs i v) ≡ length xs
  length-set [] i v = refl
  length-set (x ∷ xs) zero v = refl
  length-set (x ∷ xs) (suc i) v = ap suc (length-set xs i v)

  pub get_elem?-set_self :
      (xs : List A) (i : ℕ) (v : A) → i < length xs → get_elem? (set xs i v) i ≡ some v
  get_elem?-set_self [] i v h = elim h [ ]
  get_elem?-set_self (x ∷ xs) zero v h = refl
  get_elem?-set_self (x ∷ xs) (suc i) v h = get_elem?-set_self xs i v (omega arith)

  pub get_elem?-set_ne :
      (xs : List A) {i j : ℕ} (v : A) → i ≢ j → get_elem? (set xs i v) j ≡ get_elem? xs j
  get_elem?-set_ne [] v h = refl
  get_elem?-set_ne (x ∷ xs) {i = zero} {j = zero} v h = absurd (h refl)
  get_elem?-set_ne (x ∷ xs) {i = zero} {j = suc j} v h = refl
  get_elem?-set_ne (x ∷ xs) {i = suc i} {j = zero} v h = refl
  get_elem?-set_ne (x ∷ xs) {i = suc i} {j = suc j} v h = get_elem?-set_ne xs v (λ e. h (ap suc e))

  pub length-replicate : (n : ℕ) (a : A) → length (replicate n a) ≡ n
  length-replicate zero a = refl
  length-replicate (suc n) a = ap suc (length-replicate n a)

  pub length-map {κ} : {B : Type κ} (f : A → B) (xs : List A) → length (map f xs) ≡ length xs
  length-map f [] = refl
  length-map f (x ∷ xs) = ap suc (length-map f xs)

  -- The first `length xs` elements of `xs ++ ys`, and the rest.
  pub take-append : (xs ys : List A) → take (length xs) (xs ++ ys) ≡ xs
  take-append [] ys = refl
  take-append (x ∷ xs) ys = ap (◌∷◌ x) (take-append xs ys)

  pub drop-append : (xs ys : List A) → drop (length xs) (xs ++ ys) ≡ ys
  drop-append [] ys = refl
  drop-append (x ∷ xs) ys = drop-append xs ys

  pub All-append {κ} :
      (holds : A → Type κ) (front back : List A)
      → All holds front
      → All holds back
      → All holds (front ++ back)
  All-append holds (x ∷ front) back (here, there) behind =
      (here, All-append holds front back there behind)
  All-append holds [] back _ behind = behind

module _ {ℓ} {A : Type ℓ} where
  pub get_elem?-append_left :
      (xs ys : List A) (i : ℕ) → i < length xs → get_elem? (xs ++ ys) i ≡ get_elem? xs i
  get_elem?-append_left [] ys i h = elim h [ ]
  get_elem?-append_left (x ∷ xs) ys zero h = refl
  get_elem?-append_left (x ∷ xs) ys (suc i) h = get_elem?-append_left xs ys i (omega arith)

  pub get_elem?-append_self :
      (xs ys : List A) (y : A) → get_elem? (xs ++ y ∷ ys) (length xs) ≡ some y
  get_elem?-append_self [] ys y = refl
  get_elem?-append_self (x ∷ xs) ys y = get_elem?-append_self xs ys y

  -- A list that agrees with a shorter one at each of its places begins with it.
  pub drop-of_agree :
      (xs ys : List A)
      → ((i : ℕ) → i < length xs → get_elem? xs i ≡ get_elem? ys i)
      → length xs ≤ length ys
      → ys ≡ xs ++ drop (length xs) ys
  drop-of_agree [] ys h l = refl
  drop-of_agree (x ∷ xs) [] h l = absurd (omega arith)
  drop-of_agree (x ∷ xs) (y ∷ ys) h l =
      let e : some x ≡ some y = h 0 (omega arith) in
      ap₂ ◌∷◌ (cc e) (drop-of_agree xs ys (λ i p. h (suc i) (omega arith)) (omega arith))

  pub length-drop : (n : ℕ) (xs : List A) → length (drop n xs) ≡ length xs - n
  length-drop zero xs = omega arith
  length-drop (suc n) [] = omega arith
  length-drop (suc n) (x ∷ xs) = omega (arith, length-drop n xs)
