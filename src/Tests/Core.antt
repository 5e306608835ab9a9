-- ===== src/Tests/Core.antt =====
-- Examples for the queue, the clock, the enumerations and the credentials.
use bintrade.Prelude.{
  ℕ, ◌+◌, ◌*◌, ◌/◌, ◌^◌, ◌≤◌, ◌≡◌, refl, pos, List, [], ◌∷◌, ◌++◌, none, some, length, drop, ltb,
  if◌then◌else◌, arith, set,
}
use bintrade.Core.Clock.{ticks_to_ns, naive_ticks_to_ns, ns_per_second, int64_limit}
use bintrade.Core.Clock.Exact.{ticks_to_ns-exact}
use bintrade.Core.Spsc.{init, slot}
use bintrade.Core.Spsc.Threads.{
  State, Producer, Consumer, start, Reach, here, next, push_load_head, push_load_tail, push_write,
  push_publish,
}
use bintrade.Core.Spsc.Threads.Order.{pushed-eq-append}
use bintrade.Core.Spsc.Trace.{Call, push, pop, run, run_list, run-eq-run_list}

-- A counter of 10 MHz, after a bit more than a second.
ticks_to_ns-exact_example :
    (ticks_to_ns (pos 12_345_678) (pos 10_000_000)
      ≡ some (pos (12_345_678 * ns_per_second / 10_000_000)))
    × (naive_ticks_to_ns (pos 12_345_678) (pos 10_000_000) ≡ (
        if ltb (12_345_678 * ns_per_second) int64_limit
        then some (pos (12_345_678 * ns_per_second / 10_000_000))
        else none))
ticks_to_ns-exact_example = ticks_to_ns-exact 12_345_678 9_999_999 (omega arith) (omega arith)

abbrev calls : List (Call ℕ)
calls = push 1 ∷ push 2 ∷ push 3 ∷ pop ∷ push 4 ∷ pop ∷ []

run-eq-run_list_example : run 1 calls (init 1 0) ≡ run_list 1 calls []
run-eq-run_list_example = run-eq-run_list 1 (omega arith) 0 calls

-- One value has been put into a queue of two cells.
abbrev filled : State ℕ
filled = record {
  queue = record { head = 1; tail = 0; buffer = set (init 1 0).buffer (slot 1 0) 7 };
  producer = Producer.idle;
  consumer = Consumer.idle;
  pushed = 7 ∷ [];
  popped = [];
  seen_tail = 0;
  seen_head = 0;
}

filled-Reach : Reach 1 (start 1 0) filled
unfolding init
filled-Reach =
    next
      (next
        (next (next here (push_load_head _ 7 refl))
          (push_load_tail _ 7 0 0 refl (omega arith) (omega arith)))
        (push_write _ 7 0 0 refl refl))
      (push_publish _ 7 0 refl)

pushed-eq-append_example :
    (filled.pushed ≡ filled.popped ++ drop (length filled.popped) filled.pushed)
    × (length filled.pushed ≤ length filled.popped + 2 ^ 1)
pushed-eq-append_example = pushed-eq-append 1 (omega arith) 0 filled-Reach
