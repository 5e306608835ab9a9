-- ===== src/Ws/Socket/Paths.antt =====
-- Which stream each connection of a client asks for.
use bintrade.Prelude.{
  ℕ, zero, suc, ◌+◌, ◌≡◌, refl, sym, ap, ap₂, ◌∙◌, Bool, Bool-cases, inl, inr, List, [], ◌∷◌, ◌++◌,
  Option, none, some, Text, replicate, arith, ◌||◌,
}
use bintrade.Core.Error.{ok}
use bintrade.Ws.Socket.{
  Config, Retry, ReadEnd, read_error, text_frame, other_frame, Socket, attempt_reconnect, do_read,
  do_ping_timer, handle_read, handle_ping, handle_retry, handle_write, read_ended, pinged,
  reconnected, write_ended, connect, do_connect, enter_run, after_connect,
}
use bintrade.Ws.Socket.Stopped.{
  Event, read_event, ping_event, retry_event, write_event, handle, handle_all,
}

replicate-cons {ℓ} :
    {A : Type ℓ} (n : ℕ) (a : A) (xs : List A)
    → replicate n a ++ (a ∷ xs) ≡ replicate (suc n) a ++ xs
replicate-cons zero a xs = refl
replicate-cons (suc n) a xs = ap (◌∷◌ a) (replicate-cons n a xs)

replicate-add {ℓ} :
    {A : Type ℓ} (m n : ℕ) (a : A) (xs : List A)
    → replicate (m + n) a ++ xs ≡ replicate m a ++ (replicate n a ++ xs)
replicate-add zero n a xs = let e : 0 + n ≡ n = omega arith in ap (λ k. replicate k a ++ xs) e
replicate-add (suc m) n a xs =
    let e : suc m + n ≡ suc (m + n) = omega arith in
    ap (λ k. replicate k a ++ xs) e ∙ ap (◌∷◌ a) (replicate-add m n a xs)

-- From the first state on, the client has its path, and asked for nothing else.
abbrev Keeps : Socket → Socket → Type 0
Keeps s t = (t.path ≡ s.path) × (n : ℕ) × (t.upgrades ≡ replicate n s.path ++ s.upgrades)

-- A part of the state that no handler but a reconnect changes.
abbrev Same : Socket → Socket → Type 0
Same s t = (t.path ≡ s.path) × (t.upgrades ≡ s.upgrades)

module _ (cfg : Config) (int_text : ℕ → Text) where
  do_read-Same : (s : Socket) → Same s (do_read s)
  unfolding do_read
  do_read-Same s = ground arith

  attempt_reconnect-Same :
      (attempt delay : ℕ) (s : Socket) → Same s (attempt_reconnect cfg int_text attempt delay s)
  unfolding attempt_reconnect
  attempt_reconnect-Same attempt delay s = ground arith

  handle_read-Same :
      (end : ReadEnd cfg int_text) (s : Socket) → Same s (handle_read cfg int_text end s)
  unfolding handle_read read_ended attempt_reconnect do_read
  handle_read-Same (read_error ec) s = ground arith
  handle_read-Same (text_frame msg) s = ground arith
  handle_read-Same other_frame s = ground arith

  handle_ping-Same :
      (cancelled : Bool) (ping : Option Text) (s : Socket)
      → Same s (handle_ping cfg int_text cancelled ping s)
  unfolding handle_ping pinged attempt_reconnect do_ping_timer
  handle_ping-Same cancelled none s = ground arith
  handle_ping-Same cancelled (some ec) s = ground arith

  handle_write-Same : (ec : Option Text) (msg : Text) (s : Socket) → Same s (handle_write ec msg s)
  unfolding handle_write write_ended
  handle_write-Same none msg s = ground arith
  handle_write-Same (some ec) msg s = ground arith

  handle_retry-Keeps :
      (cancelled : Bool) (outcome : Option Text) (r : Retry) (s : Socket)
      → Keeps s (handle_retry cfg int_text cancelled outcome r s)
  unfolding handle_retry reconnected attempt_reconnect do_read do_ping_timer
  handle_retry-Keeps cancelled none r s = elim (Bool-cases (cancelled || s.should_stop)) [
    | inl stopped ↦ (ground (arith, stopped), 0, ground (arith, stopped))
    | inr on ↦ (ground (arith, on), 1, ground (arith, on))
  ]
  handle_retry-Keeps cancelled (some what) r s = (ground arith, 0, ground arith)

  handle-Keeps : (e : Event cfg int_text) (s : Socket) → Keeps s (handle cfg int_text e s)
  unfolding handle
  handle-Keeps (read_event end) s = let (p, u) = handle_read-Same end s in (p, 0, u)
  handle-Keeps (ping_event cancelled ec) s =
      let (p, u) = handle_ping-Same cancelled ec s in (p, 0, u)
  handle-Keeps (retry_event cancelled ec r) s = handle_retry-Keeps cancelled ec r s
  handle-Keeps (write_event ec msg) s = let (p, u) = handle_write-Same ec msg s in (p, 0, u)

  handle_all-Keeps :
      (es : List (Event cfg int_text)) (s : Socket) → Keeps s (handle_all cfg int_text es s)
  unfolding handle_all
  handle_all-Keeps [] s = (refl, 0, refl)
  handle_all-Keeps (e ∷ es) s =
      let (p, n, u) = handle-Keeps e s in
      let (q, m, v) = handle_all-Keeps es (handle cfg int_text e s) in
      (
        q ∙ p,
        m + n,
        v
            ∙ ap₂ (λ path older. replicate m path ++ older) p u
            ∙ sym (replicate-add m n s.path s.upgrades),
      )

  pub connect-upgraded :
      (path : Text) (outcome : Option Text) (s : Socket)
      → (connect cfg int_text path outcome s).0 ≡ ok tt
      → let after = (connect cfg int_text path outcome s).1 in
        (after.path ≡ path) × (after.upgrades ≡ path ∷ s.upgrades)
  unfolding connect enter_run do_connect do_read do_ping_timer after_connect
  connect-upgraded path none s h = elim (Bool-cases s.joinable) [
    | inl e ↦ ground (arith, e, h)
    | inr e ↦ ground (arith, e, h)
  ]
  connect-upgraded path (some what) s h = elim (Bool-cases s.joinable) [
    | inl e ↦ ground (arith, e, h)
    | inr e ↦ ground (arith, e, h)
  ]

  -- When `connect` returns for a path, then whatever the handlers of the connection are told after
  -- that, in any number and order: every handshake that opened a connection since then, the first one
  -- and those of the reconnects, was for that path, and it still is the path of the client.
  pub handle_all-connect :
      (path : Text) (outcome : Option Text) (s : Socket) (es : List (Event cfg int_text))
      → (connect cfg int_text path outcome s).0 ≡ ok tt
      → let later = handle_all cfg int_text es (connect cfg int_text path outcome s).1 in
        (later.path ≡ path) × (n : ℕ) × (later.upgrades ≡ replicate (suc n) path ++ s.upgrades)
  handle_all-connect path outcome s es h =
      let (p, u) = connect-upgraded path outcome s h in
      let (q, n, v) = handle_all-Keeps es (connect cfg int_text path outcome s).1 in
      (q ∙ p, n, v ∙ ap₂ (λ x older. replicate n x ++ older) p u ∙ replicate-cons n path s.upgrades)
