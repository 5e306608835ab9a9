-- ===== src/Rest/Pool/Steps.antt =====
-- The operations of the pool keep its invariant.
use bintrade.Prelude.{
  ℕ, ◌≤◌, ◌≡◌, refl, Bool, true, false, List, [], ◌∷◌, some, length, inl, inr, ◌⊎◌, Option-cases,
  arith,
}
use bintrade.Rest.Pool.{
  Slot, Pool, Acquired, reused, idle_unconnected, appended, take_idle, acquire_begin, append_slot,
  mark_connected, mark_idle, erase_slot, connect_done, connect_failed, release, contains_slot,
}
use bintrade.Rest.Pool.Slots.{unconnected_at}
use bintrade.Rest.Pool.Valid.{
  IsValid, any_idle, take_idle-keeps, take_idle-false, take_idle-true, erase_slot-keeps,
  length-erase_slot, any_idle-erase_slot, connected_at, mark_idle-keeps, mark_connected-keeps,
  pop_back-keeps, any_idle-pop_back, append-keeps,
}

-- In a valid pool a connection is reused, or none is idle and a slot is appended: the second loop
-- of `acquire_connection` finds nothing.
pub acquire_begin-cases :
    (p : Pool)
    → IsValid p
    → ((i : ℕ) × (rest : List Slot) × (take_idle true p.slots ≡ some (i, rest))
        × (acquire_begin p ≡ (reused i, record p { slots = rest })))
      ⊎ ((any_idle p.slots ≡ false) × (acquire_begin p ≡ append_slot p))
unfolding acquire_begin
acquire_begin-cases p v = elim (Option-cases (take_idle true p.slots)) [
  | inl t ↦ inr (
    take_idle-true p.slots v.idle_connected t,
    rw (t, acquire_begin, take_idle-false p.slots v.idle_connected),
  )
  | inr ((i, rest), t) ↦ inl (i, rest, t, rw (t, acquire_begin))
]

pub reused-IsValid :
    {p : Pool} {i : ℕ} {rest : List Slot}
    → IsValid p
    → take_idle true p.slots ≡ some (i, rest)
    → IsValid (record p { slots = rest })
reused-IsValid {p} {i} {rest} v t =
    let (r, b, c, l, a, _) =
      take_idle-keeps true i 0 p.next_id p.slots t v.rising v.below v.idle_connected in
    record { rising = r; below = b; idle_connected = c; spare = λ _. omega (arith, l, v.spare a) }

pub append_slot-IsValid :
    (p : Pool) → IsValid p → any_idle p.slots ≡ false → IsValid (append_slot p).1
unfolding append_slot
append_slot-IsValid p v none_idle =
    let (r, b, c, a) =
      append-keeps 0 p.next_id p.slots (record { id = p.next_id; in_use = true; connected = false })
        refl refl (omega arith) v.rising v.below v.idle_connected in
    record { rising = r; below = b; idle_connected = c; spare = λ h. absurd (ground (arith, a)) }

pub acquire_begin-IsValid : (p : Pool) → IsValid p → IsValid (acquire_begin p).1
acquire_begin-IsValid p v = elim (acquire_begin-cases p v) [
  | inl (i, rest, t, e) ↦ rw e (reused-IsValid v t)
  | inr (n, e) ↦ rw e (append_slot-IsValid p v n)
]

mark_connected-IsValid :
    (p : Pool) (i : ℕ) → IsValid p → IsValid (record p { slots = mark_connected i p.slots })
mark_connected-IsValid p i v =
    let (r, b, c, l, a) =
      mark_connected-keeps i 0 p.next_id p.slots v.rising v.below v.idle_connected in
    record {
      rising = r;
      below = b;
      idle_connected = c;
      spare = λ h. omega (arith, l, v.spare (rw a at h));
    }

pub connect_done-IsValid : (p : Pool) (a : Acquired) → IsValid p → IsValid (connect_done a p)
unfolding connect_done
connect_done-IsValid p (reused i) v = v
connect_done-IsValid p (idle_unconnected i) v = mark_connected-IsValid p i v
connect_done-IsValid p (appended i) v = mark_connected-IsValid p i v

pub connect_failed-IsValid : (p : Pool) (a : Acquired) → IsValid p → IsValid (connect_failed a p)
unfolding connect_failed
connect_failed-IsValid p (reused i) v = v
connect_failed-IsValid p (idle_unconnected i) v = v
connect_failed-IsValid p (appended i) v =
    let (r, b, c, l) = pop_back-keeps 0 p.next_id p.slots v.rising v.below v.idle_connected in
    record {
      rising = r;
      below = b;
      idle_connected = c;
      spare = λ h. omega (arith, l, v.spare (any_idle-pop_back p.slots h));
    }

connected_of_contains :
    (i : ℕ) (slots : List Slot)
    → contains_slot i slots ≡ true
    → unconnected_at i slots ≡ false
    → connected_at i slots ≡ true
unfolding unconnected_at
connected_of_contains i [] h u = cc
connected_of_contains i (s ∷ slots) h u = ground (arith, connected_of_contains i slots)

erase_slot-IsValid :
    (p : Pool) (i : ℕ)
    → IsValid p
    → contains_slot i p.slots ≡ true
    → IsValid (record p { slots = erase_slot i p.slots })
erase_slot-IsValid p i v h =
    let (r, b, c) = erase_slot-keeps i 0 p.next_id p.slots v.rising v.below v.idle_connected in
    record {
      rising = r;
      below = b;
      idle_connected = c;
      spare = λ a.
          omega (arith, length-erase_slot i p.slots h, v.spare (any_idle-erase_slot i p.slots a));
    }

mark_idle-IsValid :
    (p : Pool) (i : ℕ)
    → IsValid p
    → contains_slot i p.slots ≡ true
    → unconnected_at i p.slots ≡ false
    → length p.slots ≤ p.pool_size
    → IsValid (record p { slots = mark_idle i p.slots })
mark_idle-IsValid p i v h u small =
    let (r, b, c, l) =
      mark_idle-keeps i 0 p.next_id p.slots (connected_of_contains i p.slots h u) v.rising v.below
        v.idle_connected in
    record { rising = r; below = b; idle_connected = c; spare = λ _. omega (arith, l) }

-- The branches of `release_connection`.
pub release-cases :
    (p : Pool) (i : ℕ) (keep_alive : Bool)
    → ((contains_slot i p.slots ≡ false) × (release i keep_alive p ≡ p))
      ⊎ ((contains_slot i p.slots ≡ true)
          × (release i keep_alive p ≡ record p { slots = erase_slot i p.slots }))
      ⊎ ((contains_slot i p.slots ≡ true)
          × (keep_alive ≡ true)
          × (length p.slots ≤ p.pool_size)
          × (release i keep_alive p ≡ record p { slots = mark_idle i p.slots }))
unfolding release
release-cases p i keep_alive = ground arith

pub release-IsValid :
    (p : Pool) (i : ℕ) (keep_alive : Bool)
    → IsValid p
    → unconnected_at i p.slots ≡ false
    → IsValid (release i keep_alive p)
release-IsValid p i keep_alive v u = elim (release-cases p i keep_alive) [
  | inl (_, e) ↦ rw e v
  | inr (inl (h, e)) ↦ rw e (erase_slot-IsValid p i v h)
  | inr (inr (h, _, small, e)) ↦ rw e (mark_idle-IsValid p i v h u small)
]
