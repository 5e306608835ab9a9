-- ===== src/Rest/Pool/Valid.antt =====
-- The invariant of the connection pool, kept by every step of every coroutine.
use bintrade.Prelude.{
  ℕ, suc, ◌+◌, ◌≤◌, ◌<◌, ◌≡◌, refl, Bool, true, false, not, ◌||◌, inl, inr, List, [], ◌∷◌, ◌++◌,
  some, none, length, ◌==◌, if◌then◌else◌, All, Option-cases, arith,
}
use bintrade.Rest.Pool.{
  Slot, Pool, take_idle, mark_connected, pop_back, erase_slot, mark_idle, contains_slot,
}
use bintrade.Rest.Pool.Slots.{Rising, Below}

-- Whether some slot is idle.
abbrev pub any_idle : List Slot → Bool
any_idle [] = false
any_idle (s ∷ slots) = not s.in_use || any_idle slots

-- An idle slot is connected.
abbrev pub IdleConnected : List Slot → Type 0
IdleConnected = All (λ s. (s.in_use || s.connected) ≡ true)

pub record IsValid (p : Pool) : Type 0 where
  pub rising : Rising 0 p.slots
  pub below : Below p.next_id p.slots
  pub idle_connected : IdleConnected p.slots
  pub spare : any_idle p.slots ≡ true → length p.slots ≤ p.pool_size

-- Taking an idle slot keeps the addresses and the length; there was an idle slot.
pub take_idle-keeps :
    (want : Bool) (i n m : ℕ) (slots : List Slot) {rest : List Slot}
    → take_idle want slots ≡ some (i, rest)
    → Rising n slots
    → Below m slots
    → IdleConnected slots
    → Rising n rest
      × Below m rest
      × IdleConnected rest
      × (length rest ≡ length slots)
      × (any_idle slots ≡ true)
      × (i < m)
unfolding take_idle
take_idle-keeps want i n m [] e r b c = cc
take_idle-keeps want i n m (s ∷ slots) {rest} e r b c = elim (Option-cases (take_idle want slots)) [
  | inl t ↦ ground (arith, t)
  | inr ((i', rest'), t) ↦
      ground (arith, t, take_idle-keeps want i' (suc s.id) m slots t r.1 b.1 c.1)
]

-- With every idle slot connected, none is both idle and unconnected.
pub take_idle-false : (slots : List Slot) → IdleConnected slots → take_idle false slots ≡ none
unfolding take_idle
take_idle-false [] c = refl
take_idle-false (s ∷ slots) c = ground (arith, take_idle-false slots c.1)

-- If no connected slot is idle either, none is idle.
pub take_idle-true :
    (slots : List Slot) → IdleConnected slots → take_idle true slots ≡ none → any_idle slots ≡ false
unfolding take_idle
take_idle-true [] c e = refl
take_idle-true (s ∷ slots) c e = ground (arith, take_idle-true slots c.1)

Rising-mono : (n m : ℕ) (slots : List Slot) → n ≤ m → Rising m slots → Rising n slots
Rising-mono n m [] h r = tt
Rising-mono n m (s ∷ slots) h r = (omega arith, r.1)

pub erase_slot-keeps :
    (i n m : ℕ) (slots : List Slot)
    → Rising n slots
    → Below m slots
    → IdleConnected slots
    → Rising n (erase_slot i slots)
      × Below m (erase_slot i slots)
      × IdleConnected (erase_slot i slots)
unfolding erase_slot
erase_slot-keeps i n m [] r b c = (tt, tt, tt)
erase_slot-keeps i n m (s ∷ slots) r b c = ground (
  arith,
  erase_slot-keeps i (suc s.id) m slots r.1 b.1 c.1,
  Rising-mono n (suc s.id) slots (omega arith) r.1,
)

pub length-erase_slot :
    (i : ℕ) (slots : List Slot)
    → contains_slot i slots ≡ true
    → length (erase_slot i slots) + 1 ≡ length slots
unfolding erase_slot
length-erase_slot i [] h = cc
length-erase_slot i (s ∷ slots) h = ground (arith, length-erase_slot i slots)

pub any_idle-erase_slot :
    (i : ℕ) (slots : List Slot) → any_idle (erase_slot i slots) ≡ true → any_idle slots ≡ true
unfolding erase_slot
any_idle-erase_slot i [] h = h
any_idle-erase_slot i (s ∷ slots) h = ground (arith, any_idle-erase_slot i slots)

-- Marking a connected slot idle.
abbrev pub connected_at : ℕ → List Slot → Bool
connected_at i [] = false
connected_at i (s ∷ slots) = if s.id == i then s.connected else connected_at i slots

pub mark_idle-keeps :
    (i n m : ℕ) (slots : List Slot)
    → connected_at i slots ≡ true
    → Rising n slots
    → Below m slots
    → IdleConnected slots
    → Rising n (mark_idle i slots)
      × Below m (mark_idle i slots)
      × IdleConnected (mark_idle i slots)
      × (length (mark_idle i slots) ≡ length slots)
unfolding mark_idle
mark_idle-keeps i n m [] h r b c = cc
mark_idle-keeps i n m (s ∷ slots) h r b c = ground (arith, mark_idle-keeps i (suc s.id) m slots)

pub mark_connected-keeps :
    (i n m : ℕ) (slots : List Slot)
    → Rising n slots
    → Below m slots
    → IdleConnected slots
    → Rising n (mark_connected i slots)
      × Below m (mark_connected i slots)
      × IdleConnected (mark_connected i slots)
      × (length (mark_connected i slots) ≡ length slots)
      × (any_idle (mark_connected i slots) ≡ any_idle slots)
unfolding mark_connected
mark_connected-keeps i n m [] r b c = ground arith
mark_connected-keeps i n m (s ∷ slots) r b c =
    ground (arith, mark_connected-keeps i (suc s.id) m slots r.1 b.1 c.1)

pub pop_back-keeps :
    (n m : ℕ) (slots : List Slot)
    → Rising n slots
    → Below m slots
    → IdleConnected slots
    → Rising n (pop_back slots)
      × Below m (pop_back slots)
      × IdleConnected (pop_back slots)
      × (length (pop_back slots) ≤ length slots)
unfolding pop_back
pop_back-keeps n m [] r b c = (tt, tt, tt, omega arith)
pop_back-keeps n m (s ∷ []) r b c = (tt, tt, tt, omega arith)
pop_back-keeps n m (s ∷ t ∷ slots) r b c =
    ground (arith, pop_back-keeps (suc s.id) m (t ∷ slots) r.1 b.1 c.1)

pub any_idle-pop_back :
    (slots : List Slot) → any_idle (pop_back slots) ≡ true → any_idle slots ≡ true
unfolding pop_back
any_idle-pop_back [] h = h
any_idle-pop_back (s ∷ []) h = cc
any_idle-pop_back (s ∷ t ∷ slots) h = ground (arith, any_idle-pop_back (t ∷ slots))

pub append-keeps :
    (n : ℕ) (m : ℕ) (slots : List Slot) (s : Slot)
    → s.id ≡ m
    → s.in_use ≡ true
    → n ≤ m
    → Rising n slots
    → Below m slots
    → IdleConnected slots
    → Rising n (slots ++ s ∷ [])
      × Below (m + 1) (slots ++ s ∷ [])
      × IdleConnected (slots ++ s ∷ [])
      × (any_idle (slots ++ s ∷ []) ≡ any_idle slots)
append-keeps n m [] s e u h r b c = ground arith
append-keeps n m (t ∷ slots) s e u h r b c =
    ground (arith, append-keeps (suc t.id) m slots s e u b.0 r.1 b.1 c.1)
