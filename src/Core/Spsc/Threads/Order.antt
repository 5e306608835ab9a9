-- ===== src/Core/Spsc/Threads/Order.antt =====
-- Every interleaving of the two threads passes the values on in order, without loss, repetition or
-- overwriting, and the threads never touch the same cell at once.
use bintrade.Prelude.{
  ℕ, ◌+◌, ◌^◌, ◌≤◌, ◌<◌, ◌≡◌, ◌≢◌, ◌∙◌, sym, refl, subst, false, [], ◌∷◌, ◌++◌, List, length,
  get_elem?, drop, drop-of_agree, get_elem?-append_left, get_elem?-set_self, ◌==◌, arith, pow2_pos,
}
use native.Mathlib.Nat.{mod-lt}
use bintrade.Core.Spsc.{slot, is_full}
use bintrade.Core.Spsc.Slots.{slot_ne}
use bintrade.Core.Spsc.Threads.{
  Producer, Consumer, State, Step, push_load_head, push_load_tail, push_refused, push_write,
  push_publish, pop_load_tail, pop_load_head, pop_empty, pop_move, pop_publish, Reach, here, next,
  start,
}
use bintrade.Core.Spsc.Threads.Inv.{
  Shared, Inv, ProducerKnows, ConsumerKnows, start-Inv, not_full, not_empty, see_tail, see_head,
  head_slot, tail_slot, write_cell, publish_push, publish_pop, read_cell,
}

-- What the consumer holds stays right when the producer publishes.
ConsumerKnows-append {ℓ} :
    {A : Type ℓ} (own seen : ℕ) (pushed popped : List A) (x : A) (c : Consumer A)
    → seen ≤ length pushed
    → ConsumerKnows own pushed popped seen c
    → ConsumerKnows own (pushed ++ x ∷ []) popped seen c
ConsumerKnows-append own seen pushed popped x Consumer.idle le h = tt
ConsumerKnows-append own seen pushed popped x (Consumer.loaded_tail t) le h = h
ConsumerKnows-append own seen pushed popped x (Consumer.loaded_head t hd) le h = h
ConsumerKnows-append own seen pushed popped x (Consumer.moved y t) le (e, lt, g) =
    (e, lt, get_elem?-append_left pushed (x ∷ []) (length popped) (omega arith) ∙ g)

module _ {ℓ} {A : Type ℓ} (k : ℕ) (small : k < 64) where
  at_producer :
      {s : State A} (p : Producer A)
      → Inv k s
      → s.producer ≡ p
      → ProducerKnows k s.queue.head s.queue.buffer s.pushed s.seen_tail p
  at_producer {s} p v e =
      subst (ProducerKnows k s.queue.head s.queue.buffer s.pushed s.seen_tail) e v.producer_knows

  at_consumer :
      {s : State A} (c : Consumer A)
      → Inv k s
      → s.consumer ≡ c
      → ConsumerKnows s.queue.tail s.pushed s.popped s.seen_head c
  at_consumer {s} c v e =
      subst (ConsumerKnows s.queue.tail s.pushed s.popped s.seen_head) e v.consumer_knows

  Step-Inv : {s t : State A} → Step k s t → Inv k s → Inv k t
  Step-Inv (push_load_head s x e) v = record {
    shared = v.shared;
    producer_knows = (tt, refl);
    consumer_knows = v.consumer_knows;
  }
  Step-Inv (push_load_tail s x head seen e le lt) v = record {
    shared = see_tail k small v.shared seen le lt;
    producer_knows = (tt, (at_producer _ v e).1, refl);
    consumer_knows = v.consumer_knows;
  }
  Step-Inv (push_refused s x head tail e f) v = record {
    shared = v.shared;
    producer_knows = tt;
    consumer_knows = v.consumer_knows;
  }
  Step-Inv (push_write s x head tail e f) v =
      let (_, eh, et) = at_producer _ v e in
      let room = not_full k small v.shared eh et f in
      let at_slot = head_slot k small v.shared eh in
      rw at_slot (record {
        shared = write_cell k small v.shared x room;
        producer_knows = (
          eh,
          room,
          get_elem?-set_self s.queue.buffer _ x
              (omega (arith, v.shared.storage, mod-lt (length s.pushed) (pow2_pos k))),
        );
        consumer_knows = v.consumer_knows;
      })
  Step-Inv (push_publish s x head e) v =
      let (eh, room, held) = at_producer _ v e in
      rw eh (record {
        shared = publish_push k small v.shared x room held;
        producer_knows = tt;
        consumer_knows =
            ConsumerKnows-append s.queue.tail s.seen_head s.pushed s.popped x s.consumer
              v.shared.head_seen v.consumer_knows;
      })
  Step-Inv (pop_load_tail s e) v = record {
    shared = v.shared;
    producer_knows = v.producer_knows;
    consumer_knows = (tt, refl);
  }
  Step-Inv (pop_load_head s tail seen e le lt) v = record {
    shared = see_head k small v.shared seen le lt;
    producer_knows = v.producer_knows;
    consumer_knows = (tt, (at_consumer _ v e).1, refl);
  }
  Step-Inv (pop_empty s tail head e f) v = record {
    shared = v.shared;
    producer_knows = v.producer_knows;
    consumer_knows = tt;
  }
  Step-Inv (pop_move s tail head x e f g) v =
      let (_, et, eh) = at_consumer _ v e in
      let avail = not_empty k small v.shared et eh f in
      record {
        shared = v.shared;
        producer_knows = v.producer_knows;
        consumer_knows = (
          et,
          avail,
          sym (read_cell k small v.shared avail) ∙ rw (tail_slot k small v.shared et) at g,
        );
      }
  Step-Inv (pop_publish s x tail e) v =
      let (et, avail, held) = at_consumer _ v e in
      rw et (record {
        shared = publish_pop k small v.shared x avail held;
        producer_knows = v.producer_knows;
        consumer_knows = tt;
      })

  pub Reach-Inv : {s t : State A} → Inv k s → Reach k s t → Inv k t
  Reach-Inv v here = v
  Reach-Inv v (next r st) = Step-Inv st (Reach-Inv v r)

  -- At every moment of every interleaving of a producer and a consumer that start on a new queue,
  -- the values taken out are the first of those put in, in their order, and at most `Capacity`
  -- values are in between.
  pub pushed-eq-append :
      {s : State A} (blank : A)
      → Reach k (start k blank) s
      → (s.pushed ≡ s.popped ++ drop (length s.popped) s.pushed)
        × (length s.pushed ≤ length s.popped + 2 ^ k)
  pushed-eq-append {s} blank r = (
    drop-of_agree s.popped s.pushed v.history (omega (arith, v.avail, v.head_seen)),
    omega (arith, v.room, v.tail_seen),
  )
    where
      v : Shared k s.queue s.pushed s.popped s.seen_tail s.seen_head
      v = (Reach-Inv (start-Inv k small blank) r).shared

  -- When the producer is about to write a cell and the consumer to read one, in any interleaving
  -- from a new queue, these are two cells of the buffer, and the consumer's holds the oldest value
  -- that was not taken yet.
  pub no_race :
      {s : State A} (blank x : A) (head tail tail' head' : ℕ)
      → Reach k (start k blank) s
      → s.producer ≡ Producer.loaded_tail x head tail
      → is_full k head tail ≡ false
      → s.consumer ≡ Consumer.loaded_head tail' head'
      → (tail' == head') ≡ false
      → (slot k tail' ≢ slot k head)
        × (get_elem? s.queue.buffer (slot k tail') ≡ get_elem? s.pushed (length s.popped))
        × (length s.popped < length s.pushed)
  no_race {s} blank x head tail tail' head' r ep room ec avail =
      let v = Reach-Inv (start-Inv k small blank) r in
      let (_, eh, et) = at_producer _ v ep in
      let (_, et', eh') = at_consumer _ v ec in
      let free = not_full k small v.shared eh et room in
      let held = not_empty k small v.shared et' eh' avail in
      rw (head_slot k small v.shared eh, tail_slot k small v.shared et')
        (
          slot_ne k (length s.popped) (length s.pushed) (omega (arith, v.shared.head_seen))
              (omega (arith, v.shared.tail_seen)),
          read_cell k small v.shared held,
          omega (arith, v.shared.head_seen),
        )
