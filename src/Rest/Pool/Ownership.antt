-- ===== src/Rest/Pool/Ownership.antt =====
-- Requests as coroutines of the I/O thread, and the interleavings that their waits allow. Behind its
-- wait `acquire_connection` reads `slot` or `new_slot` again, a reference into the vector `pool_`: it
-- names the slot for as long as no other coroutine puts a slot into the vector or takes one out, and
-- the steps are restricted to that. Otherwise the behaviour of the code is undefined.
use bintrade.Prelude.{
  ◌⊎◌, ◌≢◌, true, length, ℕ, ◌<◌, ◌≡◌, Bool, false, [], Option, none, some, ◌==◌, if◌then◌else◌,
}
use bintrade.Rest.Pool.{
  Pool, Acquired, acquired_id, reused, idle_unconnected, appended, acquire_begin, connect_done,
  connect_failed, release,
}
use bintrade.Rest.Pool.Slots.{idle_at, unconnected_at}
use bintrade.Rest.Pool.Valid.{IsValid}

-- What the coroutine that holds a slot is doing.
pub data Phase : Type 0 where
  connecting : Acquired → Phase
  serving : Phase

-- The pool, and for each address the request that holds it. The program keeps no such table: a
-- coroutine holds the pointer that `acquire_connection` gave it.
pub record System : Type 0 where
  pub pool : Pool
  pub held : ℕ → Option Phase

abbrev pub update : (ℕ → Option Phase) → ℕ → Option Phase → ℕ → Option Phase
update f i v j = if i == j then v else f j

abbrev pub first_phase : Acquired → Phase
first_phase (reused i) = serving
first_phase (idle_unconnected i) = connecting (idle_unconnected i)
first_phase (appended i) = connecting (appended i)

abbrev pub appends : Acquired → Bool
appends (reused i) = false
appends (idle_unconnected i) = false
appends (appended i) = true

-- No coroutine waits in `acquire_connection`, with a reference into the vector.
abbrev pub NoneOpening : System → Type 0
NoneOpening s = (i : ℕ) (a : Acquired) → s.held i ≢ some (connecting a)

-- One step of one coroutine, from one wait to the next, where no slot is put into the vector or taken
-- out of it while another coroutine has a reference into it. A reused connection is not connected anew.
pub data Step : System → System → Type 0 where
  begin :
      (s : System)
      → (appends (acquire_begin s.pool).0 ≡ false) ⊎ NoneOpening s
      → Step s (record s {
        pool = (acquire_begin s.pool).1;
        held =
            update s.held
              (acquired_id (acquire_begin s.pool).0)
              (some (first_phase (acquire_begin s.pool).0));
      })
  connect_succeeds :
      (s : System) (a : Acquired)
      → first_phase a ≡ connecting a
      → s.held (acquired_id a) ≡ some (connecting a)
      → Step s (record s {
        pool = connect_done a s.pool;
        held = update s.held (acquired_id a) (some serving);
      })
  connect_fails :
      (s : System) (a : Acquired)
      → s.held (acquired_id a) ≡ some (connecting a)
      → Step s
          (record s { pool = connect_failed a s.pool; held = update s.held (acquired_id a) none })
  finish :
      (s : System) (i : ℕ) (keep_alive : Bool)
      → s.held i ≡ some serving
      → (length (release i keep_alive s.pool).slots ≡ length s.pool.slots) ⊎ NoneOpening s
      → Step s (record s { pool = release i keep_alive s.pool; held = update s.held i none })

abbrev pub start : ℕ → System
start pool_size = record {
  pool = record { pool_size = pool_size; slots = []; next_id = 0 };
  held = λ i. none;
}

pub data Reach (s : System) : System → Type 0 where
  here : Reach s s
  next : {t u : System} → Reach s t → Step t u → Reach s u

pub record Inv (s : System) : Type 0 where
  pub valid : IsValid s.pool
  pub active :
      (i : ℕ) (ph : Phase)
      → s.held i ≡ some ph
      → (i < s.pool.next_id) × (idle_at i s.pool.slots ≡ false)
  pub ready : (i : ℕ) → s.held i ≡ some serving → unconnected_at i s.pool.slots ≡ false
