-- ===== src/Rest/Http/Transport/OneConnection.antt =====
-- What a request does to a pool of at most one connection.
use bintrade.Prelude.{
  ℕ, ◌+◌, ◌-◌, ◌≡◌, refl, sym, subst, ap, Bool, true, false, not, ◌&&◌, ◌||◌, List, [], ◌∷◌, Option,
  none, some, Text, length, ltb, leb, ◌==◌, if◌then◌else◌, arith,
}
use bintrade.Core.Error.{Error, Result, ok, err, network_exception}
use bintrade.Rest.Response.{HttpResponse}
use bintrade.Rest.Pool.{
  Slot, Pool, take_idle, append_slot, acquire_begin, mark_connected, pop_back, connect_done,
  connect_failed, erase_slot, mark_idle, release, after_connect, acquire,
}
use bintrade.Rest.Pool.Valid.{connected_at}
use bintrade.Rest.Pool.Request.{
  max_attempts, Outcome, response, transport_error, other_error, Attempt, Run, res_keep_alive,
  execute, attempts, round, serve,
}
use bintrade.Rest.Http.Transport.Sequential.{exchange_once, request_once}

-- A pool that stands for an abstract client.
abbrev pub Stands : Bool → Pool → Type 0
Stands false p = p.slots ≡ []
Stands true p = (i : ℕ) × (p.slots ≡ record { id = i; in_use = false; connected = true } ∷ [])

Stands-if :
    (b : Bool) (p : Pool) (i : ℕ)
    → p.slots ≡ (if b then record { id = i; in_use = false; connected = true } ∷ [] else [])
    → Stands b p
Stands-if true p i e = (i, e)
Stands-if false p i e = e

-- Giving back the only connection.
release-only :
    (p : Pool) (i : ℕ) (keep_alive : Bool)
    → p.slots ≡ record { id = i; in_use = true; connected = true } ∷ []
    → ((release i keep_alive p).slots ≡ (
        if keep_alive && leb 1 p.pool_size
        then record { id = i; in_use = false; connected = true } ∷ []
        else []))
      × ((release i keep_alive p).pool_size ≡ p.pool_size)
unfolding release erase_slot mark_idle
release-only p i false e = ground (arith, e)
release-only p i true e = ground (arith, e)

-- What is left of the pool when a connection is all it had, and what the caller gets.
abbrev pub StandsFor : ℕ → Result HttpResponse × Bool → Run → Type 0
StandsFor size (result, kept) run =
    (run.result ≡ result) × Stands kept run.pool × (run.pool.pool_size ≡ size)

serve-transport_error :
    (p : Pool) (i n : ℕ) (what : Text) (again : Pool → ℕ → Run)
    → p.slots ≡ record { id = i; in_use = true; connected = true } ∷ []
    → serve 0 i p (transport_error what) n again
      ≡ record { result = err (network_exception what); pool = release i false p; written = n + 1 }
unfolding serve
serve-transport_error p i n what again e =
    let no_retry : (not ((0 == 0) && (ltb 1 (length p.slots) || not (connected_at i p.slots)))
          || (0 == max_attempts - 1))
        ≡ true =
      rw e (ground arith) in
    ap
      (λ b.
        if b
        then record {
          result = err (network_exception what);
          pool = release i false p;
          written = n + 1;
        }
        else again (release i false p) (n + 1))
      no_retry

serve-StandsFor :
    (p : Pool) (i n : ℕ) (o : Outcome) (again : Pool → ℕ → Run)
    → p.slots ≡ record { id = i; in_use = true; connected = true } ∷ []
    → StandsFor p.pool_size (exchange_once p.pool_size o) (serve 0 i p o n again)
serve-StandsFor p i n (response resp) again e =
    unfold serve in
    let (slots, size) = release-only p i (res_keep_alive resp) e in
    (refl, Stands-if _ _ i slots, size)
serve-StandsFor p i n (transport_error what) again e =
    let (slots, size) = release-only p i false e in
    subst (StandsFor p.pool_size (exchange_once p.pool_size (transport_error what)))
      (sym (serve-transport_error p i n what again e)) (refl, slots, size)
serve-StandsFor p i n (other_error what) again e =
    unfold serve in let (slots, size) = release-only p i false e in (refl, slots, size)

abbrev only : ℕ → List Slot
only i = record { id = i; in_use = true; connected = true } ∷ []

acquire-idle :
    (failure : Option Error) (p : Pool) (i : ℕ)
    → p.slots ≡ record { id = i; in_use = false; connected = true } ∷ []
    → acquire failure p ≡ (ok i, record p { slots = only i })
unfolding acquire acquire_begin take_idle after_connect
acquire-idle failure p i e = rw e (refl)

mark_connected-only :
    (i : ℕ) → mark_connected i (record { id = i; in_use = true; connected = false } ∷ []) ≡ only i
unfolding mark_connected
mark_connected-only i = ground arith

acquire-connects :
    (p : Pool)
    → p.slots ≡ []
    → acquire none p ≡ (ok p.next_id, record p { slots = only p.next_id; next_id = p.next_id + 1 })
unfolding acquire acquire_begin take_idle append_slot after_connect connect_done
acquire-connects p e = rw e (
    ap (λ slots. (ok p.next_id, record p { slots = slots; next_id = p.next_id + 1 }))
      (mark_connected-only p.next_id))

acquire-fails :
    (error : Error) (p : Pool)
    → p.slots ≡ []
    → acquire (some error) p ≡ (err error, record p { slots = []; next_id = p.next_id + 1 })
unfolding acquire acquire_begin take_idle append_slot after_connect connect_failed pop_back
acquire-fails error p e = rw e refl

-- One request, whatever the network does.
execute-StandsFor :
    (net : ℕ → Attempt) (p : Pool) (kept : Bool)
    → Stands kept p
    → StandsFor p.pool_size
        (request_once p.pool_size (net 0).connect (net 0).outcome kept)
        (execute net p)
unfolding execute attempts
execute-StandsFor net p true (i, e) =
    subst
      (λ a.
        StandsFor p.pool_size (exchange_once p.pool_size (net 0).outcome)
          (round 0 (net 0).outcome 0 (attempts 1 1 net) a))
      (sym (acquire-idle (net 0).connect p i e))
      (unfold round in serve-StandsFor (record p { slots = only i }) i 0 (net 0).outcome _ refl)
execute-StandsFor net p false e = go (net 0).connect
  where
    go :
        (failure : Option Error)
        → StandsFor p.pool_size
            (request_once p.pool_size failure (net 0).outcome false)
            (round 0 (net 0).outcome 0 (attempts 1 1 net) (acquire failure p))
    go none =
        subst
          (λ a.
            StandsFor p.pool_size (exchange_once p.pool_size (net 0).outcome)
              (round 0 (net 0).outcome 0 (attempts 1 1 net) a))
          (sym (acquire-connects p e))
          (unfold round in
            serve-StandsFor (record p { slots = only p.next_id; next_id = p.next_id + 1 }) p.next_id
              0 (net 0).outcome _ refl)
    go (some error) =
        subst
          (λ a.
            StandsFor p.pool_size (err error, false)
              (round 0 (net 0).outcome 0 (attempts 1 1 net) a))
          (sym (acquire-fails error p e)) (unfold round in (refl, refl, refl))

pub execute-StandsFor-at :
    (net : ℕ → Attempt) (p : Pool) (kept : Bool) {failure : Option Error} {o : Outcome} {size : ℕ}
    → Stands kept p
    → (net 0).connect ≡ failure
    → (net 0).outcome ≡ o
    → p.pool_size ≡ size
    → StandsFor size (request_once size failure o kept) (execute net p)
execute-StandsFor-at net p kept stands f o s = rw⁻¹ (f, o, s) (execute-StandsFor net p kept stands)
