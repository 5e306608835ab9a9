-- ===== src/Ws/Socket/Reuse.antt =====
-- A second life of a connection.
use bintrade.Prelude.{
  ℕ, ◌≡◌, refl, ◌∙◌, ap, Bool, true, false, List, [], ◌∷◌, Option, none, some, Text, if◌then◌else◌,
  Bool-cases, inl, inr, arith,
}
use bintrade.Core.Error.{Error, Result, ok, err, terminated}
use bintrade.Ws.Socket.{
  Config, Socket, connect, disconnect, post_close, enter_run, do_connect, do_read, do_ping_timer,
  after_connect,
}
use bintrade.Ws.Socket.Stopped.{Event, handle}

-- A guarded call that returns took the branch behind its guard.
pub guarded-eq-ok {ℓ} :
    {S : Type ℓ} {A : Type ℓ} (b : Bool) (e : Error) (s : S) (call : Result A × S) (x : A)
    → (if b then (err e, s) else call).0 ≡ ok x
    → (b ≡ false) × ((if b then (err e, s) else call) ≡ call)
guarded-eq-ok true e s call x h = cc
guarded-eq-ok false e s call x h = (refl, refl)

module _ (cfg : Config) (int_text : ℕ → Text) where
  -- The `io_context` runs a handler only while it is not stopped.
  pub deliver : Event cfg int_text → Socket → Socket
  deliver e s = if s.stopped then s else handle cfg int_text e s

  pub deliver_all : List (Event cfg int_text) → Socket → Socket
  unfolding deliver
  deliver_all [] s = s
  deliver_all (e ∷ es) s = deliver_all es (deliver e s)

  deliver_all-stopped :
      (es : List (Event cfg int_text)) (s : Socket) → s.stopped ≡ true → deliver_all es s ≡ s
  unfolding deliver_all deliver
  deliver_all-stopped [] s h = refl
  deliver_all-stopped (e ∷ es) s h =
      ap (λ b. deliver_all es (if b then s else handle cfg int_text e s)) h
      ∙ deliver_all-stopped es s h

  -- A client that was disconnected, whether or not it was connected before, can connect again:
  -- where the first attempt opens the connection, `connect` returns and `is_connected` holds. But its
  -- I/O thread is at its end, so no handler runs any more: whatever arrives changes nothing, so no
  -- message and no error reaches a callback, and no reconnect is tried.
  pub connect-disconnect :
      (path : Text) (s : Socket) (es : List (Event cfg int_text))
      → let (answer, again) = connect cfg int_text path none (disconnect s) in
        (answer ≡ ok tt) × (again.connected ≡ true) × (deliver_all es again ≡ again)
  unfolding connect disconnect post_close enter_run do_connect do_read do_ping_timer
  connect-disconnect path s es = (
    refl,
    refl,
    deliver_all-stopped es _
        (elim (Bool-cases s.joinable) [ inl h ↦ ground (arith, h) | inr h ↦ ground (arith, h) ]),
  )

  after_connect-eq-ok :
      (outcome : Option Text) (s : Socket)
      → (after_connect outcome s).0 ≡ ok tt
      → (outcome ≡ none) × (after_connect outcome s ≡ (ok tt, s))
  unfolding after_connect
  after_connect-eq-ok none s h = (refl, refl)
  after_connect-eq-ok (some what) s h = cc

  -- Where `connect` returns there was no I/O thread, and now there is one, behind an open connection.
  pub connect-eq-ok :
      (path : Text) (outcome : Option Text) (s : Socket)
      → (connect cfg int_text path outcome s).0 ≡ ok tt
      → let after = (connect cfg int_text path outcome s).1 in
        (s.joinable ≡ false) × (after.joinable ≡ true) × (after.connected ≡ true)
  unfolding connect enter_run do_connect do_read do_ping_timer after_connect
  connect-eq-ok path none s h =
      let (free, same) = guarded-eq-ok s.joinable terminated s _ tt h in
      (free, ap (λ r. r.1.joinable) same, ap (λ r. r.1.connected) same)
  connect-eq-ok path (some what) s h =
      let (_, same) = guarded-eq-ok s.joinable terminated s _ tt h in cc

  pub connect-joinable :
      (path : Text) (outcome : Option Text) (s : Socket)
      → s.joinable ≡ true
      → (connect cfg int_text path outcome s).0 ≡ err terminated
  unfolding connect
  connect-joinable path outcome s busy =
      ap
        (λ b.
          (if b
            then (err terminated, s)
            else after_connect outcome (
                enter_run outcome (
                  do_connect cfg int_text outcome
                    (record s { should_stop = false; path = path; joinable = true })))).0)
        busy

  -- `connect` on a client that is connected already, or that was and lost its connection, ends the
  -- program.
  pub connect-connect :
      (path again : Text) (outcome later : Option Text) (s : Socket)
      → (connect cfg int_text path outcome s).0 ≡ ok tt
      → (connect cfg int_text again later (connect cfg int_text path outcome s).1).0
        ≡ err terminated
  connect-connect path again outcome later s h =
      let (_, busy, _) = connect-eq-ok path outcome s h in connect-joinable again later _ busy
