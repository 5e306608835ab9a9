-- ===== src/Rest/Pool.antt =====
-- `HttpClient::Impl` of src/rest/detail/http_client.cpp: the connection pool and the request
-- pipeline above it. All of it runs on the I/O thread; a coroutine gives way to others only where it
-- waits for the network, so `acquire_connection` is in two parts, before and after `do_connect`.
-- A slot is named by a number, its address; `next_id` is an address not used before.
pub mod Slots
pub mod Valid
pub mod Steps
pub mod Ownership
pub mod Exclusive
pub mod Overflow
pub mod Request
use bintrade.Prelude.{
  ℕ, suc, ◌+◌, Bool, true, false, not, ◌&&◌, ◌||◌, List, [], ◌∷◌, ◌++◌, Option, none, some, length,
  ltb, ◌==◌, if◌then◌else◌, Text,
}
use bintrade.Core.Error.{Error, Result, ok, err}

-- `PooledConnection`
pub record Slot : Type 0 where
  pub id : ℕ
  pub in_use : Bool
  pub connected : Bool

pub record Pool : Type 0 where
  pub pool_size : ℕ
  pub slots : List Slot
  pub next_id : ℕ

-- Which connection `acquire_connection` takes, and whether it has yet to be connected.
pub data Acquired : Type 0 where
  reused : ℕ → Acquired
  idle_unconnected : ℕ → Acquired
  appended : ℕ → Acquired

abbrev pub acquired_id : Acquired → ℕ
acquired_id (reused i) = i
acquired_id (idle_unconnected i) = i
acquired_id (appended i) = i

-- The first slot that is idle and has the given `connected`, marked as in use.
unfoldable pub take_idle : Bool → List Slot → Option (ℕ × List Slot)
take_idle want [] = none
take_idle want (s ∷ slots) =
    if not s.in_use && (if want then s.connected else not s.connected)
    then some (s.id, record s { in_use = true } ∷ slots)
    else elim (take_idle want slots) [ none ↦ none | some (i, rest) ↦ some (i, s ∷ rest) ]

unfoldable pub append_slot : Pool → Acquired × Pool
append_slot p = (
  appended p.next_id,
  record p {
    slots = p.slots ++ record { id = p.next_id; in_use = true; connected = false } ∷ [];
    next_id = p.next_id + 1;
  },
)

-- `acquire_connection` up to the call of `do_connect`.
unfoldable pub acquire_begin : Pool → Acquired × Pool
unfolding append_slot
acquire_begin p = elim (take_idle true p.slots) [
  | some (i, slots) ↦ (reused i, record p { slots = slots })
  | none ↦ elim (take_idle false p.slots) [
    | some (i, slots) ↦ (idle_unconnected i, record p { slots = slots })
    | none ↦ append_slot p
  ]
]

-- `conn.connected = true` at the end of `do_connect`
unfoldable pub mark_connected : ℕ → List Slot → List Slot
mark_connected i [] = []
mark_connected i (s ∷ slots) =
    if s.id == i then record s { connected = true } ∷ slots else s ∷ mark_connected i slots

-- `pool_.pop_back()`
unfoldable pub pop_back : List Slot → List Slot
pop_back [] = []
pop_back (s ∷ []) = []
pop_back (s ∷ t ∷ slots) = s ∷ pop_back (t ∷ slots)

-- The rest of `acquire_connection`, once `do_connect` has come to its end. The code reads its slot
-- again through a reference into the vector; this is the slot it was, as long as no other coroutine
-- has put a slot into the vector or taken one out since. Ownership is restricted to that.
unfoldable pub connect_done : Acquired → Pool → Pool
connect_done (reused i) p = p
connect_done (idle_unconnected i) p = record p { slots = mark_connected i p.slots }
connect_done (appended i) p = record p { slots = mark_connected i p.slots }

unfoldable pub connect_failed : Acquired → Pool → Pool
connect_failed (reused i) p = p
connect_failed (idle_unconnected i) p = p
connect_failed (appended i) p = record p { slots = pop_back p.slots }

abbrev pub contains_slot : ℕ → List Slot → Bool
contains_slot i [] = false
contains_slot i (s ∷ slots) = (s.id == i) || contains_slot i slots

unfoldable pub erase_slot : ℕ → List Slot → List Slot
erase_slot i [] = []
erase_slot i (s ∷ slots) = if s.id == i then slots else s ∷ erase_slot i slots

unfoldable pub mark_idle : ℕ → List Slot → List Slot
mark_idle i [] = []
mark_idle i (s ∷ slots) =
    if s.id == i then record s { in_use = false } ∷ slots else s ∷ mark_idle i slots

-- `release_connection`
unfoldable pub release : ℕ → Bool → Pool → Pool
release i keep_alive p =
    if not (contains_slot i p.slots)
    then p
    else if not keep_alive || ltb p.pool_size (length p.slots)
    then record p { slots = erase_slot i p.slots }
    else record p { slots = mark_idle i p.slots }

-- `acquire_connection` with no other coroutine in between: the error is what `do_connect` throws.
unfoldable pub after_connect : Option Error → Acquired → Pool → Result ℕ × Pool
unfolding connect_done connect_failed
after_connect failure (reused i) q = (ok i, q)
after_connect none (idle_unconnected i) q = (ok i, connect_done (idle_unconnected i) q)
after_connect none (appended i) q = (ok i, connect_done (appended i) q)
after_connect (some e) (idle_unconnected i) q = (err e, connect_failed (idle_unconnected i) q)
after_connect (some e) (appended i) q = (err e, connect_failed (appended i) q)

unfoldable pub acquire : Option Error → Pool → Result ℕ × Pool
acquire failure p = let (a, q) = acquire_begin p in after_connect failure a q
