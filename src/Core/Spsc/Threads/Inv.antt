-- ===== src/Core/Spsc/Threads/Inv.antt =====
-- The invariant of the two threads: what each has loaded, and what the cells between the counters
-- hold, at every moment of every interleaving.
use bintrade.Prelude.{
  ℕ, ◌+◌, ◌%◌, ◌^◌, ◌≤◌, ◌<◌, ◌≡◌, ◌∙◌, ap, sym, refl, false, some, [], ◌∷◌, ◌++◌, List, length,
  set, get_elem?, length-append, length-set, length-replicate, get_elem?-set_ne,
  get_elem?-append_left, get_elem?-append_self, ◌==◌, dec_lt, arith, ==_iff, false≢true,
}
use bintrade.Core.Spsc.{SpscQueue, add_size, slot, is_full, init}
use bintrade.Core.Spsc.Slots.{slot-mod, capacity_small, add_size-mod, sub_size-mod, slot_ne}
use bintrade.Core.Spsc.Threads.{Producer, Consumer, State, start}

-- The counters, the cells and the two histories.
pub record Shared {ℓ} {A : Type ℓ} (k : ℕ) (q : SpscQueue A) (pushed popped : List A)
    (seen_tail seen_head : ℕ) : Type ℓ where
  pub tail_seen : seen_tail ≤ length popped
  pub room : length pushed ≤ seen_tail + 2 ^ k
  pub head_seen : seen_head ≤ length pushed
  pub avail : length popped ≤ seen_head
  pub head_eq : q.head ≡ length pushed % 2 ^ 64
  pub tail_eq : q.tail ≡ length popped % 2 ^ 64
  pub storage : length q.buffer ≡ 2 ^ k
  pub cell :
      (i : ℕ)
      → length popped ≤ i
      → i < length pushed
      → get_elem? q.buffer (i % 2 ^ k) ≡ get_elem? pushed i
  pub history : (i : ℕ) → i < length popped → get_elem? popped i ≡ get_elem? pushed i

-- What the producer's local variables stand for.
module _ {ℓ} {A : Type ℓ} (k : ℕ) where
  abbrev pub ProducerKnows : ℕ → List A → List A → ℕ → Producer A → Type ℓ
  ProducerKnows own buffer pushed seen Producer.idle = Unit
  ProducerKnows own buffer pushed seen (Producer.loaded_head x head) = Unit {ℓ} × (head ≡ own)
  ProducerKnows own buffer pushed seen (Producer.loaded_tail x head tail) =
      Unit {ℓ} × (head ≡ own) × (tail ≡ seen % 2 ^ 64)
  ProducerKnows own buffer pushed seen (Producer.written x head) =
      (head ≡ own)
      × (length pushed < seen + 2 ^ k)
      × (get_elem? buffer (length pushed % 2 ^ k) ≡ some x)

-- What the consumer's local variables stand for.
module _ {ℓ} {A : Type ℓ} where
  abbrev pub ConsumerKnows : ℕ → List A → List A → ℕ → Consumer A → Type ℓ
  ConsumerKnows own pushed popped seen Consumer.idle = Unit
  ConsumerKnows own pushed popped seen (Consumer.loaded_tail tail) = Unit {ℓ} × (tail ≡ own)
  ConsumerKnows own pushed popped seen (Consumer.loaded_head tail head) =
      Unit {ℓ} × (tail ≡ own) × (head ≡ seen % 2 ^ 64)
  ConsumerKnows own pushed popped seen (Consumer.moved x tail) =
      (tail ≡ own) × (length popped < seen) × (get_elem? pushed (length popped) ≡ some x)

pub record Inv {ℓ} {A : Type ℓ} (k : ℕ) (s : State A) : Type ℓ where
  pub shared : Shared k s.queue s.pushed s.popped s.seen_tail s.seen_head
  pub producer_knows : ProducerKnows k s.queue.head s.queue.buffer s.pushed s.seen_tail s.producer
  pub consumer_knows : ConsumerKnows s.queue.tail s.pushed s.popped s.seen_head s.consumer

module _ {ℓ} {A : Type ℓ} (k : ℕ) (small : k < 64) where
  pub start-Inv : (blank : A) → Inv k (start k blank)
  unfolding init
  start-Inv blank = record {
    shared = record {
      tail_seen = omega arith;
      room = omega arith;
      head_seen = omega arith;
      avail = omega arith;
      head_eq = refl;
      tail_eq = refl;
      storage = length-replicate (2 ^ k) blank;
      cell = λ i h l. absurd (omega arith);
      history = λ i h. absurd (omega arith);
    };
    producer_knows = tt;
    consumer_knows = tt;
  }

  module _ {q : SpscQueue A} {pushed popped : List A} {seen_tail seen_head : ℕ}
      (v : Shared k q pushed popped seen_tail seen_head) where
    -- The producer's test is about the true counts.
    pub not_full :
        {head tail : ℕ}
        → head ≡ q.head
        → tail ≡ seen_tail % 2 ^ 64
        → is_full k head tail ≡ false
        → length pushed < seen_tail + 2 ^ k
    not_full {head} {tail} eh et room = ground (
      arith,
      sub_size-mod (length pushed) seen_tail (omega (arith, v.tail_seen, v.avail, v.head_seen))
          (omega (arith, v.room, capacity_small k small)),
    )

    -- So is the consumer's.
    pub not_empty :
        {head tail : ℕ}
        → tail ≡ q.tail
        → head ≡ seen_head % 2 ^ 64
        → (tail == head) ≡ false
        → length popped < seen_head
    not_empty {head} {tail} et eh apart = elim (dec_lt (length popped) seen_head) [
      | yes h ↦ h
      | no h ↦
          let e : tail ≡ head =
            et ∙ v.tail_eq ∙ ap (λ n. n % 2 ^ 64) (omega (arith, v.avail)) ∙ sym eh in
          absurd (false≢true (sym apart ∙ (==_iff tail head).1 e))
    ]

    pub see_tail :
        (seen : ℕ)
        → seen_tail ≤ seen
        → seen ≤ length popped
        → Shared k q pushed popped seen seen_head
    see_tail seen le lt = record {
      tail_seen = lt;
      room = omega (arith, v.room);
      head_seen = v.head_seen;
      avail = v.avail;
      head_eq = v.head_eq;
      tail_eq = v.tail_eq;
      storage = v.storage;
      cell = v.cell;
      history = v.history;
    }

    pub see_head :
        (seen : ℕ)
        → seen_head ≤ seen
        → seen ≤ length pushed
        → Shared k q pushed popped seen_tail seen
    see_head seen le lt = record {
      tail_seen = v.tail_seen;
      room = v.room;
      head_seen = lt;
      avail = omega (arith, v.avail);
      head_eq = v.head_eq;
      tail_eq = v.tail_eq;
      storage = v.storage;
      cell = v.cell;
      history = v.history;
    }

    -- the cell that the producer writes
    pub head_slot : {head : ℕ} → head ≡ q.head → slot k head ≡ length pushed % 2 ^ k
    head_slot e = rw (e, v.head_eq) (slot-mod k (length pushed) small)

    -- the cell that the consumer reads
    pub tail_slot : {tail : ℕ} → tail ≡ q.tail → slot k tail ≡ length popped % 2 ^ k
    tail_slot e = rw (e, v.tail_eq) (slot-mod k (length popped) small)

    pub write_cell :
        (x : A)
        → length pushed < seen_tail + 2 ^ k
        → Shared k
            (record q { buffer = set q.buffer (length pushed % 2 ^ k) x })
            pushed
            popped
            seen_tail
            seen_head
    write_cell x room = record {
      tail_seen = v.tail_seen;
      room = v.room;
      head_seen = v.head_seen;
      avail = v.avail;
      head_eq = v.head_eq;
      tail_eq = v.tail_eq;
      storage = length-set q.buffer _ x ∙ v.storage;
      cell = λ i h l.
          get_elem?-set_ne q.buffer x
            (λ e. slot_ne k i (length pushed) l (omega (arith, v.tail_seen)) (sym e))
          ∙ v.cell i h l;
      history = v.history;
    }

    pub publish_push :
        (x : A)
        → length pushed < seen_tail + 2 ^ k
        → get_elem? q.buffer (length pushed % 2 ^ k) ≡ some x
        → Shared k
            (record q { head = add_size q.head 1 })
            (pushed ++ x ∷ [])
            popped
            seen_tail
            seen_head
    publish_push x room e = record {
      tail_seen = v.tail_seen;
      room = omega (arith, length-append pushed (x ∷ []));
      head_seen = omega (arith, v.head_seen, length-append pushed (x ∷ []));
      avail = v.avail;
      head_eq = rw v.head_eq (
          add_size-mod (length pushed)
          ∙ ap (λ n. n % 2 ^ 64) (omega (arith, length-append pushed (x ∷ []))));
      tail_eq = v.tail_eq;
      storage = v.storage;
      cell = λ i h l. elim (dec_lt i (length pushed)) [
        | yes old ↦ v.cell i h old ∙ sym (get_elem?-append_left pushed (x ∷ []) i old)
        | no fresh ↦
            let last : i ≡ length pushed = omega (arith, length-append pushed (x ∷ [])) in
            rw (last, e) (sym (get_elem?-append_self pushed [] x))
      ];
      history = λ i h.
          v.history i h
          ∙ sym (get_elem?-append_left pushed (x ∷ []) i (omega (arith, v.avail, v.head_seen)));
    }

    pub publish_pop :
        (x : A)
        → length popped < seen_head
        → get_elem? pushed (length popped) ≡ some x
        → Shared k
            (record q { tail = add_size q.tail 1 })
            pushed
            (popped ++ x ∷ [])
            seen_tail
            seen_head
    publish_pop x avail e = record {
      tail_seen = omega (arith, v.tail_seen, length-append popped (x ∷ []));
      room = v.room;
      head_seen = v.head_seen;
      avail = omega (arith, length-append popped (x ∷ []));
      head_eq = v.head_eq;
      tail_eq = rw v.tail_eq (
          add_size-mod (length popped)
          ∙ ap (λ n. n % 2 ^ 64) (omega (arith, length-append popped (x ∷ []))));
      storage = v.storage;
      cell = λ i h l. v.cell i (omega (arith, length-append popped (x ∷ []))) l;
      history = λ i h. elim (dec_lt i (length popped)) [
        | yes old ↦ get_elem?-append_left popped (x ∷ []) i old ∙ v.history i old
        | no fresh ↦
            let last : i ≡ length popped = omega (arith, length-append popped (x ∷ [])) in
            rw (last, e) (get_elem?-append_self popped [] x)
      ];
    }

    pub read_cell :
        length popped < seen_head
        → get_elem? q.buffer (length popped % 2 ^ k) ≡ get_elem? pushed (length popped)
    read_cell avail = v.cell (length popped) (omega arith) (omega (arith, v.head_seen))
