-- ===== src/Ws/Socket/DoubleLoss.antt =====
-- A lost connection that the ping timer and the pending read both notice.
use bintrade.Prelude.{
  ap, subst, ℕ, zero, suc, ◌+◌, ◌<◌, ◌≡◌, refl, Bool, true, false, List, [], ◌∷◌, none, some, Text,
  leb, arith, if◌then◌else◌,
}
use bintrade.Ws.Socket.{
  Config, Retry, read_error, Socket, attempt_reconnect, handle_read, handle_ping, handle_retry,
  read_ended, pinged, reconnected, do_read, do_ping_timer,
}

-- A connection, and whether a read is pending on the stream that `ws` holds.
pub record Link : Type 0 where
  pub socket : Socket
  pub reading : Bool

module _ (cfg : Config) (int_text : ℕ → Text) where
  -- The oldest reconnect timer ends, and the new connection opens. The stream that it replaces is
  -- destroyed. That aborts the read that is pending on it, whose handler runs next.
  replace_oldest : List Retry → Text → Link → Link
  replace_oldest [] aborted l = l
  replace_oldest (r ∷ rs) aborted l =
      let back = handle_retry cfg int_text false none r (record l.socket { retries = rs }) in
      record {
        socket = if l.reading then handle_read cfg int_text (read_error aborted) back else back;
        reading = true;
      }

  -- This number of timers end, one after another.
  pub replace_all : ℕ → Text → Link → Link
  unfolding replace_oldest
  replace_all zero aborted l = l
  replace_all (suc n) aborted l = replace_all n aborted (replace_oldest l.socket.retries aborted l)

  -- An open connection without reconnect timers.
  abbrev pub opened : Socket → Socket
  opened s = record s { connected = true; should_stop = false; retries = [] }

  -- A ping fails, and then the read that was pending.
  pub lost : Text → Text → Socket → Link
  lost ping read s = record {
    socket =
        handle_read cfg int_text (read_error read) (handle_ping cfg int_text false (some ping) s);
    reading = false;
  }

  abbrev pub first_retry : Retry
  first_retry = record { attempt = 0; delay = cfg.reconnect_interval }

  -- A read is pending, and one timer is armed.
  record Armed (reads : ℕ) (l : Link) : Type 0 where
    reading : l.reading ≡ true
    running : l.socket.should_stop ≡ false
    armed : l.socket.retries ≡ first_retry ∷ []
    started : l.socket.reads ≡ reads

  replace_oldest-Armed :
      (n : ℕ) (aborted : Text) (l : Link)
      → leb cfg.max_reconnect_attempts 0 ≡ false
      → Armed n l
      → Armed (suc n) (replace_oldest l.socket.retries aborted l)
        × ((replace_oldest l.socket.retries aborted l).socket.connected ≡ false)
  unfolding replace_oldest handle_retry reconnected do_read do_ping_timer handle_read read_ended
      attempt_reconnect
  replace_oldest-Armed n aborted l e v =
      rw (v.armed, v.reading)
        (rw (v.running) (
          rw e (
            record { reading = refl; running = refl; armed = refl; started = ap suc v.started },
            refl,
          )))

  -- At least one more timer ends.
  replace_all-Armed :
      (m n : ℕ) (aborted : Text) (l : Link)
      → leb cfg.max_reconnect_attempts 0 ≡ false
      → Armed n l
      → Armed (n + suc m) (replace_all (suc m) aborted l)
        × ((replace_all (suc m) aborted l).socket.connected ≡ false)
  unfolding replace_all
  replace_all-Armed zero n aborted l e v =
      let (w, down) = replace_oldest-Armed n aborted l e v in
      (subst (λ k. Armed k (replace_oldest l.socket.retries aborted l)) (omega arith) w, down)
  replace_all-Armed (suc m) n aborted l e v =
      let next = replace_oldest l.socket.retries aborted l in
      let (w, down) =
        replace_all-Armed m (suc n) aborted next e (replace_oldest-Armed n aborted l e v).0 in
      (subst (λ k. Armed k (replace_all (suc m) aborted next)) (omega arith) w, down)

  lost-eq :
      (ping read : Text) (s : Socket)
      → leb cfg.max_reconnect_attempts 0 ≡ false
      → let down = (lost ping read (opened s)).socket in
        (down.retries ≡ first_retry ∷ first_retry ∷ [])
        × (down.should_stop ≡ false)
        × (down.reads ≡ s.reads)
  unfolding lost handle_read handle_ping pinged read_ended attempt_reconnect
  lost-eq ping read s e = rw e (refl, refl, refl)

  -- The first timer finds no read that is pending.
  replace_oldest-lost :
      (n : ℕ) (aborted : Text) (l : Link)
      → l.reading ≡ false
      → l.socket.should_stop ≡ false
      → l.socket.retries ≡ first_retry ∷ first_retry ∷ []
      → l.socket.reads ≡ n
      → Armed (suc n) (replace_oldest l.socket.retries aborted l)
  unfolding replace_oldest handle_retry reconnected do_read do_ping_timer
  replace_oldest-lost n aborted l idle running two reads =
      rw (two, idle)
        (rw running
          (record { reading = refl; running = refl; armed = refl; started = ap suc reads }))

  -- A connection that was up is lost, its ping notices that first, and then the read that was pending:
  -- if reconnecting is configured, two reconnect timers are armed for the one loss. From the second of
  -- them on, each new connection that opens aborts the read of the one before, whose handler reports
  -- the client as not connected and arms the next timer: however many connections open, one more
  -- timer is armed, and `connected` is false.
  pub replace_all-lost :
      (n : ℕ) (ping read aborted : Text) (s : Socket)
      → 0 < cfg.max_reconnect_attempts
      → let down = lost ping read (opened s) in
        let later = (replace_all (suc (suc n)) aborted down).socket in
        (down.socket.retries ≡ first_retry ∷ first_retry ∷ [])
        × (later.retries ≡ first_retry ∷ [])
        × (later.connected ≡ false)
        × (later.reads ≡ s.reads + (n + 2))
  unfolding replace_all lost
  replace_all-lost n ping read aborted s h =
      let e : leb cfg.max_reconnect_attempts 0 ≡ false = ground (arith, h) in
      let (two, running, reads) = lost-eq ping read s e in
      let first =
        replace_oldest-lost s.reads aborted (lost ping read (opened s)) refl running two reads in
      let (v, down) = replace_all-Armed n (suc s.reads) aborted _ e first in
      (two, v.armed, down, omega (arith, v.started))
