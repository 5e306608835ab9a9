-- ===== src/Core/Spsc/Threads.antt =====
-- The two threads, one atomic load or store, or one access of a cell, at a time. The producer runs
-- `try_push`, the consumer `try_pop`. An acquire load of the other thread's counter may return an
-- old value, though none older than the thread has seen before. What a thread sees of the other's
-- counter comes with all writes before the release store of that value.
pub mod Inv
pub mod Order
use bintrade.Prelude.{
  ℕ, ◌+◌, ◌%◌, ◌^◌, ◌≤◌, ◌≡◌, Bool, true, false, some, List, [], ◌∷◌, ◌++◌, length, ◌==◌, set,
  get_elem?,
}
use bintrade.Core.Spsc.{SpscQueue, add_size, slot, is_full, init}

-- Where `try_push` stands, with its local variables.
pub data Producer {ℓ} (A : Type ℓ) : Type ℓ where
  idle : Producer A
  loaded_head : A → ℕ → Producer A
  loaded_tail : A → ℕ → ℕ → Producer A
  written : A → ℕ → Producer A

-- Where `try_pop` stands, with its local variables.
pub data Consumer {ℓ} (A : Type ℓ) : Type ℓ where
  idle : Consumer A
  loaded_tail : ℕ → Consumer A
  loaded_head : ℕ → ℕ → Consumer A
  moved : A → ℕ → Consumer A

-- `pushed` and `popped` are the values that went in and came out so far, oldest first; `seen_tail`
-- and `seen_head` are the counts that each thread saw last of the other. The program keeps none of
-- these four: they say what the counters stand for.
pub record State {ℓ} (A : Type ℓ) : Type ℓ where
  pub queue : SpscQueue A
  pub producer : Producer A
  pub consumer : Consumer A
  pub pushed : List A
  pub popped : List A
  pub seen_tail : ℕ
  pub seen_head : ℕ

module _ {ℓ} {A : Type ℓ} (k : ℕ) where
  abbrev pub start : A → State A
  start blank = record {
    queue = init k blank;
    producer = Producer.idle;
    consumer = Consumer.idle;
    pushed = [];
    popped = [];
    seen_tail = 0;
    seen_head = 0;
  }

  pub data Step : State A → State A → Type ℓ where
    push_load_head :
        (s : State A) (x : A)
        → s.producer ≡ Producer.idle
        → Step s (record s { producer = Producer.loaded_head x s.queue.head })
    push_load_tail :
        (s : State A) (x : A) (head seen : ℕ)
        → s.producer ≡ Producer.loaded_head x head
        → s.seen_tail ≤ seen
        → seen ≤ length s.popped
        → Step s
            (record s { producer = Producer.loaded_tail x head (seen % 2 ^ 64); seen_tail = seen })
    push_refused :
        (s : State A) (x : A) (head tail : ℕ)
        → s.producer ≡ Producer.loaded_tail x head tail
        → is_full k head tail ≡ true
        → Step s (record s { producer = Producer.idle })
    push_write :
        (s : State A) (x : A) (head tail : ℕ)
        → s.producer ≡ Producer.loaded_tail x head tail
        → is_full k head tail ≡ false
        → Step s (record s {
          producer = Producer.written x head;
          queue = record (s.queue) { buffer = set s.queue.buffer (slot k head) x };
        })
    push_publish :
        (s : State A) (x : A) (head : ℕ)
        → s.producer ≡ Producer.written x head
        → Step s (record s {
          producer = Producer.idle;
          queue = record (s.queue) { head = add_size head 1 };
          pushed = s.pushed ++ x ∷ [];
        })
    pop_load_tail :
        (s : State A)
        → s.consumer ≡ Consumer.idle
        → Step s (record s { consumer = Consumer.loaded_tail s.queue.tail })
    pop_load_head :
        (s : State A) (tail seen : ℕ)
        → s.consumer ≡ Consumer.loaded_tail tail
        → s.seen_head ≤ seen
        → seen ≤ length s.pushed
        → Step s
            (record s { consumer = Consumer.loaded_head tail (seen % 2 ^ 64); seen_head = seen })
    pop_empty :
        (s : State A) (tail head : ℕ)
        → s.consumer ≡ Consumer.loaded_head tail head
        → (tail == head) ≡ true
        → Step s (record s { consumer = Consumer.idle })
    pop_move :
        (s : State A) (tail head : ℕ) (x : A)
        → s.consumer ≡ Consumer.loaded_head tail head
        → (tail == head) ≡ false
        → get_elem? s.queue.buffer (slot k tail) ≡ some x
        → Step s (record s { consumer = Consumer.moved x tail })
    pop_publish :
        (s : State A) (x : A) (tail : ℕ)
        → s.consumer ≡ Consumer.moved x tail
        → Step s (record s {
          consumer = Consumer.idle;
          queue = record (s.queue) { tail = add_size tail 1 };
          popped = s.popped ++ x ∷ [];
        })

  pub data Reach (s : State A) : State A → Type ℓ where
    here : Reach s s
    next : {t u : State A} → Reach s t → Step t u → Reach s u
