-- ===== src/Rest/Pool/Slots.antt =====
-- The slots as a table from addresses to connections: what each change of the list does to it.
use bintrade.Prelude.{
  not, Option-cases, inl, inr, ℕ, suc, ◌≤◌, ◌<◌, ◌≡◌, ◌≢◌, ap, refl, Bool, true, false, List, [],
  ◌∷◌, ◌++◌, Option, none, some, ◌==◌, if◌then◌else◌, All, arith,
}
use bintrade.Rest.Pool.{
  Slot, pop_back, take_idle, mark_connected, erase_slot, mark_idle, contains_slot,
}

-- The connection at an address.
pub slot_at : ℕ → List Slot → Option Slot
slot_at i [] = none
slot_at i (s ∷ slots) = if s.id == i then some s else slot_at i slots

-- The addresses rise from `n` on: no two slots share one.
abbrev pub Rising : ℕ → List Slot → Type 0
Rising n [] = Unit
Rising n (s ∷ slots) = (n ≤ s.id) × Rising (suc s.id) slots

-- All addresses are below `n`.
abbrev pub Below : ℕ → List Slot → Type 0
Below n = All (λ s. s.id < n)

-- An address that is not below those of the slots is free.
pub slot_at_above : (i n : ℕ) (slots : List Slot) → n ≤ i → Below n slots → slot_at i slots ≡ none
unfolding slot_at
slot_at_above i n [] h b = refl
slot_at_above i n (s ∷ slots) h b = ground (arith, slot_at_above i n slots h b.1)

-- A new slot behind the others is found at its own address.
pub slot_at-append :
    (j n : ℕ) (slots : List Slot) (s : Slot)
    → Below n slots
    → s.id ≡ n
    → slot_at j (slots ++ s ∷ []) ≡ (if n == j then some s else slot_at j slots)
unfolding slot_at
slot_at-append j n [] s b e = ground arith
slot_at-append j n (t ∷ slots) s b e = ground (arith, slot_at-append j n slots s b.1 e)

pub pop_back-append : (slots : List Slot) (s : Slot) → pop_back (slots ++ s ∷ []) ≡ slots
unfolding pop_back
pop_back-append [] s = refl
pop_back-append (t ∷ []) s = refl
pop_back-append (t ∷ u ∷ slots) s = ap (◌∷◌ t) (pop_back-append (u ∷ slots) s)

-- Whether a slot at the address is idle.
pub idle_at : ℕ → List Slot → Bool
idle_at i [] = false
idle_at i (s ∷ slots) = if s.id == i then not s.in_use else idle_at i slots

pub idle_at-above : (i n : ℕ) (slots : List Slot) → n ≤ i → Below n slots → idle_at i slots ≡ false
unfolding idle_at
idle_at-above i n [] h b = refl
idle_at-above i n (s ∷ slots) h b = ground (arith, idle_at-above i n slots h b.1)

idle_at-below : (i n : ℕ) (slots : List Slot) → i < n → Rising n slots → idle_at i slots ≡ false
unfolding idle_at
idle_at-below i n [] h r = refl
idle_at-below i n (s ∷ slots) h r =
    ground (arith, idle_at-below i (suc s.id) slots (omega arith) r.1)

pub idle_at-erase_slot :
    (i j n : ℕ) (slots : List Slot)
    → Rising n slots
    → idle_at j (erase_slot i slots) ≡ (if i == j then false else idle_at j slots)
unfolding idle_at erase_slot
idle_at-erase_slot i j n [] r = ground arith
idle_at-erase_slot i j n (s ∷ slots) r = ground (
  arith,
  idle_at-erase_slot i j (suc s.id) slots r.1,
  idle_at-below s.id (suc s.id) slots (omega arith) r.1,
)

pub idle_at-mark_idle :
    (i j : ℕ) (slots : List Slot)
    → contains_slot i slots ≡ true
    → idle_at j (mark_idle i slots) ≡ (if i == j then true else idle_at j slots)
unfolding idle_at mark_idle
idle_at-mark_idle i j [] h = cc
idle_at-mark_idle i j (s ∷ slots) h = ground (arith, idle_at-mark_idle i j slots)

pub idle_at-mark_connected :
    (i j : ℕ) (slots : List Slot) → idle_at j (mark_connected i slots) ≡ idle_at j slots
unfolding idle_at mark_connected
idle_at-mark_connected i j [] = refl
idle_at-mark_connected i j (s ∷ slots) = ground (arith, idle_at-mark_connected i j slots)

pub idle_at-append :
    (j : ℕ) (slots : List Slot) (s : Slot)
    → s.in_use ≡ true
    → idle_at j (slots ++ s ∷ []) ≡ idle_at j slots
unfolding idle_at
idle_at-append j [] s e = ground arith
idle_at-append j (t ∷ slots) s e = ground (arith, idle_at-append j slots s e)

-- The slot that is taken was idle, and is the only one that changes.
pub take_idle-idle_at :
    (want : Bool) (n i j : ℕ) (slots : List Slot) {rest : List Slot}
    → Rising n slots
    → take_idle want slots ≡ some (i, rest)
    → (idle_at i slots ≡ true) × (idle_at j rest ≡ (if i == j then false else idle_at j slots))
unfolding idle_at take_idle
take_idle-idle_at want n i j [] r e = cc
take_idle-idle_at want n i j (s ∷ slots) {rest} r e = elim (Option-cases (take_idle want slots)) [
  | inl t ↦ ground (arith, t)
  | inr ((i', rest'), t) ↦ ground (
    arith,
    t,
    take_idle-idle_at want (suc s.id) i' j slots r.1 t,
    idle_at-below s.id (suc s.id) slots (omega arith) r.1,
  )
]

-- Whether a slot at the address is not connected yet.
unfoldable pub unconnected_at : ℕ → List Slot → Bool
unconnected_at i [] = false
unconnected_at i (s ∷ slots) = if s.id == i then not s.connected else unconnected_at i slots

unconnected_at-below :
    (i n : ℕ) (slots : List Slot) → i < n → Rising n slots → unconnected_at i slots ≡ false
unfolding unconnected_at
unconnected_at-below i n [] h r = refl
unconnected_at-below i n (s ∷ slots) h r =
    ground (arith, unconnected_at-below i (suc s.id) slots (omega arith) r.1)

pub take_idle-unconnected_at :
    (n i j : ℕ) (slots : List Slot) {rest : List Slot}
    → Rising n slots
    → take_idle true slots ≡ some (i, rest)
    → (unconnected_at i rest ≡ false) × (unconnected_at j rest ≡ unconnected_at j slots)
unfolding unconnected_at take_idle
take_idle-unconnected_at n i j [] r e = cc
take_idle-unconnected_at n i j (s ∷ slots) {rest} r e = elim (Option-cases (take_idle true slots)) [
  | inl t ↦ ground (arith, t)
  | inr ((i', rest'), t) ↦ ground (
    arith,
    t,
    take_idle-unconnected_at (suc s.id) i' j slots r.1 t,
    unconnected_at-below s.id (suc s.id) slots (omega arith) r.1,
    idle_at-below s.id (suc s.id) slots (omega arith) r.1,
    take_idle-idle_at true (suc s.id) i' i' slots r.1 t,
  )
]

pub unconnected_at-erase_slot :
    (i j n : ℕ) (slots : List Slot)
    → Rising n slots
    → unconnected_at j (erase_slot i slots) ≡ (if i == j then false else unconnected_at j slots)
unfolding unconnected_at erase_slot
unconnected_at-erase_slot i j n [] r = ground arith
unconnected_at-erase_slot i j n (s ∷ slots) r = ground (
  arith,
  unconnected_at-erase_slot i j (suc s.id) slots r.1,
  unconnected_at-below s.id (suc s.id) slots (omega arith) r.1,
)

pub unconnected_at-mark_idle :
    (i j : ℕ) (slots : List Slot) → unconnected_at j (mark_idle i slots) ≡ unconnected_at j slots
unfolding unconnected_at mark_idle
unconnected_at-mark_idle i j [] = refl
unconnected_at-mark_idle i j (s ∷ slots) = ground (arith, unconnected_at-mark_idle i j slots)

pub unconnected_at-mark_connected :
    (i j : ℕ) (slots : List Slot)
    → unconnected_at j (mark_connected i slots) ≡ (if i == j then false else unconnected_at j slots)
unfolding unconnected_at mark_connected
unconnected_at-mark_connected i j [] = ground arith
unconnected_at-mark_connected i j (s ∷ slots) =
    ground (arith, unconnected_at-mark_connected i j slots)

pub unconnected_at-append :
    (j n : ℕ) (slots : List Slot) (s : Slot)
    → s.id ≡ n
    → n ≢ j
    → unconnected_at j (slots ++ s ∷ []) ≡ unconnected_at j slots
unfolding unconnected_at
unconnected_at-append j n [] s e d = ground arith
unconnected_at-append j n (t ∷ slots) s e d = ground (arith, unconnected_at-append j n slots s e d)

-- `pop_back` makes no slot idle, and none unconnected.
pub pop_back-at :
    (j : ℕ) (slots : List Slot)
    → (idle_at j slots ≡ false → idle_at j (pop_back slots) ≡ false)
      × (unconnected_at j slots ≡ false → unconnected_at j (pop_back slots) ≡ false)
unfolding idle_at unconnected_at pop_back
pop_back-at j [] = (λ h. h, λ h. h)
pop_back-at j (s ∷ []) = (λ h. refl, λ h. refl)
pop_back-at j (s ∷ t ∷ slots) =
    (λ h. ground (arith, pop_back-at j (t ∷ slots)), λ h. ground (arith, pop_back-at j (t ∷ slots)))
