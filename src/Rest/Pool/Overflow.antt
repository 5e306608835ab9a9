-- ===== src/Rest/Pool/Overflow.antt =====
-- What becomes of an appended slot whose connection fails: `pool_.pop_back()` takes the last slot,
-- which another coroutine may have appended in the meantime.
use bintrade.Prelude.{
  none, ◌≤◌, ℕ, ◌+◌, ◌≡◌, ◌∙◌, ap, refl, Bool, true, false, ◌||◌, List, [], ◌∷◌, ◌++◌, some, ◌==◌,
  arith,
}
use bintrade.Rest.Pool.{
  Slot, Pool, acquired_id, take_idle, acquire_begin, append_slot, connect_failed, pop_back,
  contains_slot,
}
use bintrade.Rest.Pool.Slots.{Below, slot_at, slot_at-append, pop_back-append}
use bintrade.Rest.Pool.Valid.{IsValid, any_idle}

abbrev pub new_slot : ℕ → Slot
new_slot i = record { id = i; in_use = true; connected = false }

take_idle-full :
    (want : Bool) (slots : List Slot) → any_idle slots ≡ false → take_idle want slots ≡ none
unfolding take_idle
take_idle-full want [] full = refl
take_idle-full want (s ∷ slots) full = ground (arith, take_idle-full want slots)

full_appends : (p : Pool) → any_idle p.slots ≡ false → acquire_begin p ≡ append_slot p
unfolding acquire_begin
full_appends p full =
    rw (take_idle-full true p.slots full, acquire_begin, take_idle-full false p.slots full)

any_idle-append :
    (i : ℕ) (slots : List Slot)
    → any_idle slots ≡ false
    → any_idle (slots ++ new_slot i ∷ []) ≡ false
any_idle-append i [] full = refl
any_idle-append i (s ∷ slots) full = ground (arith, any_idle-append i slots)

contains_slot-above :
    (i n : ℕ) (slots : List Slot) → n ≤ i → Below n slots → contains_slot i slots ≡ false
contains_slot-above i n [] h b = refl
contains_slot-above i n (s ∷ slots) h b = ground (arith, contains_slot-above i n slots h b.1)

contains_slot-append :
    (i : ℕ) (slots : List Slot) (s : Slot)
    → contains_slot i (slots ++ s ∷ []) ≡ (contains_slot i slots || (s.id == i))
contains_slot-append i [] s = ground arith
contains_slot-append i (t ∷ slots) s = ground (arith, contains_slot-append i slots s)

-- Where every connection of the pool is in use, a request appends a slot. If its connection fails
-- before another request has appended one, the pool has its former slots again. If a second request
-- has appended a slot by then, that slot is destroyed under the second request, and the slot of the
-- failed connection stays in the pool, in use and unconnected.
pub connect_failed-pop_back :
    (p : Pool)
    → IsValid p
    → any_idle p.slots ≡ false
    → let (a, q) = acquire_begin p in
      let (b, r) = acquire_begin q in
      ((connect_failed a q).slots ≡ p.slots)
      × (contains_slot (acquired_id b) r.slots ≡ true)
      × (contains_slot (acquired_id b) (connect_failed a r).slots ≡ false)
      × (slot_at (acquired_id a) (connect_failed a r).slots ≡ some (new_slot (acquired_id a)))
connect_failed-pop_back p v full =
    let first = full_appends p full in
    let second =
      full_appends (append_slot p).1
        (unfold append_slot in any_idle-append p.next_id p.slots full) in
    let one = p.slots ++ new_slot p.next_id ∷ [] in
    let two = one ++ new_slot (p.next_id + 1) ∷ [] in
    let after : pop_back two ≡ one = pop_back-append one (new_slot (p.next_id + 1)) in
    rw (first, second)
      (unfold append_slot connect_failed in
        (
          pop_back-append p.slots (new_slot p.next_id),
          contains_slot-append (p.next_id + 1) one (new_slot (p.next_id + 1)) ∙ (ground arith),
          ap (contains_slot (p.next_id + 1)) after
              ∙ contains_slot-append (p.next_id + 1) p.slots (new_slot p.next_id)
              ∙ (ground (
                arith,
                contains_slot-above (p.next_id + 1) p.next_id p.slots (omega arith) v.below,
              )),
          ap (slot_at p.next_id) after
              ∙ slot_at-append p.next_id p.next_id p.slots (new_slot p.next_id) v.below refl
              ∙ (ground arith),
        ))
