-- ===== src/Core/Spsc/Fifo.antt =====
-- Used by one thread at a time, the ring buffer is a FIFO queue of at most `Capacity` elements,
-- also where its counters have wrapped.
use bintrade.Prelude.{
  ℕ, suc, ◌+◌, ◌%◌, ◌^◌, ◌≤◌, ◌<◌, ◌≡◌, ◌∙◌, ap, sym, refl, true, false, none, some, List, [], ◌∷◌,
  ◌++◌, length, get_elem?, set, length-append, length-set, length-replicate, get_elem?-set_self,
  get_elem?-set_ne, get_elem?-append_left, get_elem?-append_self, ◌==◌, dec_lt, arith, pow2_pos,
  ◌⊎◌, inl, inr, ◌↔◌, ==_iff,
}
use native.Mathlib.Nat.{mod-lt}
use bintrade.Core.Spsc.{
  SpscQueue, add_size, sub_size, slot, is_full, init, try_push, try_pop, size_approx, empty,
}
use bintrade.Core.Spsc.Slots.{slot-mod, capacity_small, add_size-mod, sub_size-mod, slot_ne}

-- `q` holds `xs`, oldest first, after `taken` elements have been taken out.
pub record Holds {ℓ} {A : Type ℓ} (k : ℕ) (q : SpscQueue A) (xs : List A) : Type ℓ where
  pub taken : ℕ
  pub tail_eq : q.tail ≡ taken % 2 ^ 64
  pub head_eq : q.head ≡ (taken + length xs) % 2 ^ 64
  pub fits : length xs ≤ 2 ^ k
  pub storage : length q.buffer ≡ 2 ^ k
  pub cell : (i : ℕ) → i < length xs → get_elem? q.buffer ((taken + i) % 2 ^ k) ≡ get_elem? xs i

module _ {ℓ} {A : Type ℓ} (k : ℕ) (small : k < 64) where
  size_eq : {q : SpscQueue A} {xs : List A} → Holds k q xs → sub_size q.head q.tail ≡ length xs
  size_eq {q} {xs} v =
      rw (v.head_eq, v.tail_eq)
        (omega (
          arith,
          sub_size-mod (v.taken + length xs) v.taken (omega arith)
              (omega (arith, capacity_small k small, v.fits)),
        ))

  -- a new queue is empty
  pub init-Holds : (blank : A) → Holds k (init k blank) []
  unfolding init
  init-Holds blank = record {
    taken = 0;
    tail_eq = refl;
    head_eq = refl;
    fits = omega arith;
    storage = length-replicate (2 ^ k) blank;
    cell = λ i h. absurd (omega arith);
  }

  -- the cell that a push writes
  head_slot :
      {q : SpscQueue A} {xs : List A} (v : Holds k q xs)
      → slot k q.head ≡ (v.taken + length xs) % 2 ^ k
  head_slot {xs = xs} v = rw v.head_eq (slot-mod k (v.taken + length xs) small)

  tail_slot : {q : SpscQueue A} {xs : List A} (v : Holds k q xs) → slot k q.tail ≡ v.taken % 2 ^ k
  tail_slot v = rw v.tail_eq (slot-mod k v.taken small)

  push_cell :
      {q : SpscQueue A} {xs : List A} (x : A) (v : Holds k q xs)
      → length xs < 2 ^ k
      → (i : ℕ) → i < length (xs ++ x ∷ [])
      → get_elem? (set q.buffer (slot k q.head) x) ((v.taken + i) % 2 ^ k)
        ≡ get_elem? (xs ++ x ∷ []) i
  push_cell {q} {xs} x v room i h = elim (dec_lt i (length xs)) [
    | yes old ↦
        get_elem?-set_ne q.buffer x (λ e.
          slot_ne k (v.taken + i) (v.taken + length xs) (omega arith) (omega arith)
            (sym e ∙ head_slot v))
        ∙ v.cell i old
        ∙ sym (get_elem?-append_left xs (x ∷ []) i old)
    | no fresh ↦
        let last : i ≡ length xs = omega (arith, length-append xs (x ∷ [])) in
        rw
          (
            last,
            head_slot v,
            get_elem?-set_self q.buffer ((v.taken + length xs) % 2 ^ k) x
                (omega (arith, v.storage, mod-lt (v.taken + length xs) (pow2_pos k))),
          )
          (sym (get_elem?-append_self xs [] x))
  ]

  push_some :
      {q : SpscQueue A} {xs : List A} (x : A)
      → Holds k q xs
      → length xs < 2 ^ k
      → Holds k
          (record q { head = add_size q.head 1; buffer = set q.buffer (slot k q.head) x })
          (xs ++ x ∷ [])
  push_some {q} {xs} x v room = record {
    taken = v.taken;
    tail_eq = v.tail_eq;
    head_eq = rw v.head_eq (
        add_size-mod (v.taken + length xs)
        ∙ ap (λ n. n % 2 ^ 64) (omega (arith, length-append xs (x ∷ []))));
    fits = omega (arith, length-append xs (x ∷ []));
    storage = length-set q.buffer _ x ∙ v.storage;
    cell = push_cell x v room;
  }

  pop_some :
      {q : SpscQueue A} {x : A} {xs : List A}
      → Holds k q (x ∷ xs)
      → Holds k (record q { tail = add_size q.tail 1 }) xs
  pop_some {q} {x} {xs} v = record {
    taken = v.taken + 1;
    tail_eq = rw v.tail_eq (add_size-mod v.taken);
    head_eq = v.head_eq ∙ ap (λ n. n % 2 ^ 64) (omega arith);
    fits = omega (arith, v.fits);
    storage = v.storage;
    cell = λ i h.
        ap (λ n. get_elem? q.buffer (n % 2 ^ k)) (omega arith) ∙ v.cell (suc i) (omega arith);
  }

  -- `try_push` refuses exactly when `Capacity` elements are in the queue, and then changes nothing;
  -- otherwise the element is the last of those that the queue holds.
  pub try_push-Holds :
      {q : SpscQueue A} {xs : List A} (x : A)
      → Holds k q xs
      → ((length xs ≡ 2 ^ k) × (try_push k x q ≡ (false, q)))
        ⊎ ((length xs < 2 ^ k)
            × ((try_push k x q).0 ≡ true)
            × Holds k (try_push k x q).1 (xs ++ x ∷ []))
  unfolding try_push
  try_push-Holds {q} {xs} x v = elim (dec_lt (length xs) (2 ^ k)) [
    | yes room ↦
        let e : is_full k q.head q.tail ≡ false = rw (size_eq v) (ground arith) in
        inr (room, rw e, rw e (push_some x v room))
    | no full ↦
        let e : is_full k q.head q.tail ≡ true = rw (size_eq v) (ground arith) in
        inl (omega (arith, v.fits), rw e)
  ]

  tail_ne_head :
      {q : SpscQueue A} {x : A} {xs : List A} → Holds k q (x ∷ xs) → (q.tail == q.head) ≡ false
  tail_ne_head {q} {x} {xs} v = ground (arith, size_eq v)

  empty_tail : {q : SpscQueue A} → Holds k q [] → (q.tail == q.head) ≡ true
  empty_tail {q} v = (==_iff q.tail q.head).1 (omega (arith, v.tail_eq, v.head_eq))

  -- `size_approx` is the number of elements, and `empty` tells whether there is one.
  pub size_approx-Holds :
      {q : SpscQueue A} {xs : List A}
      → Holds k q xs
      → (size_approx k q ≡ length xs) × ((empty k q ≡ true) ↔ (xs ≡ []))
  unfolding size_approx empty
  size_approx-Holds {q} {xs = []} v = (size_eq v, (λ _. refl, λ _. rw (size_eq v)))
  size_approx-Holds {q} {xs = x ∷ xs} v =
      (size_eq v, (λ e. absurd (ground (arith, size_eq v, e)), λ e. cc))

  -- `try_pop` takes out the oldest element, and answers `nullopt` exactly when there is none.
  pub try_pop-Holds :
      {q : SpscQueue A} {xs : List A}
      → Holds k q xs
      → ((xs ≡ []) × (try_pop k q ≡ (none, q)))
        ⊎ ((x : A) × (rest : List A) × (xs ≡ x ∷ rest)
            × ((try_pop k q).0 ≡ some x)
            × Holds k (try_pop k q).1 rest)
  unfolding try_pop
  try_pop-Holds {q} {xs = []} v = inl (refl, rw (empty_tail v))
  try_pop-Holds {q} {xs = x ∷ xs} v = inr (
    x,
    xs,
    refl,
    rw (tail_ne_head v, tail_slot v)
        (ap (λ n. get_elem? q.buffer (n % 2 ^ k)) (omega arith) ∙ v.cell 0 (omega arith)),
    rw (tail_ne_head v) (pop_some v),
  )
