-- ===== src/Core/Spsc.antt =====
-- include/bintrade/core/spsc_queue.hpp: the ring buffer between one producer thread and one
-- consumer thread. `k` is the logarithm of `Capacity`, which the static_assert makes a power of
-- two. The counters are `size_t`: they wrap at 2^64.
pub mod Slots
pub mod Fifo
pub mod Threads
pub mod Trace
use bintrade.Prelude.{
  ℕ, ◌+◌, ◌-◌, ◌%◌, ◌^◌, Bool, true, false, Option, none, some, List, leb, ◌==◌, if◌then◌else◌, set,
  get_elem?, replicate, bit_and,
}

pub record SpscQueue {ℓ} (A : Type ℓ) : Type ℓ where
  pub head : ℕ
  pub tail : ℕ
  pub buffer : List A

-- `size_t` addition and subtraction
abbrev pub add_size : ℕ → ℕ → ℕ
add_size a b = (a + b) % 2 ^ 64

abbrev pub sub_size : ℕ → ℕ → ℕ
sub_size a b = (a + 2 ^ 64 - b) % 2 ^ 64

module _ (k : ℕ) where
  abbrev pub capacity : ℕ
  capacity = 2 ^ k

  -- `k_mask`
  abbrev pub mask : ℕ
  mask = capacity - 1

  -- the index of a counter's cell, `counter & k_mask`
  pub slot : ℕ → ℕ
  slot counter = bit_and counter mask

  -- `head - tail >= Capacity`
  abbrev pub is_full : ℕ → ℕ → Bool
  is_full head tail = leb capacity (sub_size head tail)

module _ {ℓ} {A : Type ℓ} (k : ℕ) where
  -- A new queue, whose cells hold default values.
  unfoldable pub init : A → SpscQueue A
  init blank = record { head = 0; tail = 0; buffer = replicate (capacity k) blank }

  -- Both overloads: whether the value is copied or moved in makes no difference to the queue.
  pub try_push : A → SpscQueue A → Bool × SpscQueue A
  try_push value q = if is_full k q.head q.tail then (false, q) else (
    true,
    record q { head = add_size q.head 1; buffer = set q.buffer (slot k q.head) value },
  )

  -- A cell that was moved from is not read before it is written again, so it keeps its value
  -- here. `none` is the empty queue; a read outside the buffer is ruled out by `Fifo`.
  pub try_pop : SpscQueue A → Option A × SpscQueue A
  try_pop q =
      if q.tail == q.head
      then (none, q)
      else (get_elem? q.buffer (slot k q.tail), record q { tail = add_size q.tail 1 })

  pub size_approx : SpscQueue A → ℕ
  size_approx q = sub_size q.head q.tail

  pub empty : SpscQueue A → Bool
  unfolding size_approx
  empty q = size_approx q == 0
