-- ===== src/Ws/User/Lifecycle.antt =====
-- What `start` and `stop` of a user stream bring about.
use bintrade.Prelude.{
  ◌≡◌, ◌≢◌, refl, ap, subst, sym, ◌∙◌, true, false, List, [], ◌∷◌, ◌++◌, ◌&&◌, Option, Text, str,
  if◌then◌else◌, Bool-cases, arith, ℕ, inl, inr,
}
use bintrade.Core.Error.{Result, ok, err, terminated}
use bintrade.Auth.Credentials.{has_credentials}
use bintrade.Rest.Client.{Platform, Request, del}
use bintrade.Ws.Socket.{Config, disconnect}
use bintrade.Ws.Socket.Reuse.{guarded-eq-ok, connect-eq-ok}
use bintrade.Ws.Queue.{is_queued}
use bintrade.Ws.User.{
  UserStream, stop, stop_consumer, drop_listen_key, delete_listen_key, request, start, with_key,
  connected, kept_alive, create_listen_key,
}

module _ (P : Platform) where
  -- The request that gives a listen key back.
  abbrev pub deletions : Text → List Request
  deletions [] = []
  deletions (b ∷ key) = del (str "/api/v3/userDataStream") ((str "listenKey", b ∷ key) ∷ []) ∷ []

  stop_consumer-eq : (u : UserStream) → stop_consumer u ≡ record u { consumer_running = false }
  unfolding stop_consumer
  stop_consumer-eq u = elim (Bool-cases u.consumer_running) [
    | inl on ↦ ap (λ b. if b then record u { consumer_running = false } else u) on
    | inr off ↦
        ap (λ b. if b then record u { consumer_running = false } else u) off
        ∙ ap (λ b. record u { consumer_running = b }) off
  ]

  drop_listen_key-all :
      (key : Text) (u : UserStream)
      → u.listen_key ≡ key
      → ((drop_listen_key P key u).listen_key ≡ [])
        × ((drop_listen_key P key u).consumer_running ≡ u.consumer_running)
        × ((drop_listen_key P key u).stop_keep_alive ≡ u.stop_keep_alive)
        × ((drop_listen_key P key u).requests ≡ deletions key ++ u.requests)
  unfolding drop_listen_key delete_listen_key request
  drop_listen_key-all [] u e = (e, refl, refl, refl)
  drop_listen_key-all (b ∷ key) u e = (refl, refl, refl, refl)

  -- `stop` leaves no listen key and no running consumer, and tells the keep-alive thread and the
  -- handlers of the connection to end, whatever the server answers, also where the stream was never
  -- started. It sends one request if there was a key, which deletes that key, and else none.
  pub stop-all :
      (u : UserStream)
      → ((stop P u).listen_key ≡ [])
        × ((stop P u).consumer_running ≡ false)
        × ((stop P u).stop_keep_alive ≡ true)
        × ((stop P u).socket.should_stop ≡ true)
        × ((stop P u).requests ≡ deletions u.listen_key ++ u.requests)
  unfolding stop stop_consumer disconnect
  stop-all u =
      let (key, running, alive, sent) =
        drop_listen_key-all u.listen_key
          (record u {
            consumer_running = false;
            stop_keep_alive = true;
            keep_alive_joinable = false;
          })
          refl in
      rw (stop_consumer-eq u) (key, running, alive, refl, sent)

  abbrev pub IsStarted : UserStream → Type 0
  IsStarted u = (u.listen_key ≢ []) × (u.socket.connected ≡ true) × (u.started ≡ true)

  module _ (cfg : Config) (int_text : ℕ → Text) where
    pub kept_alive-eq-ok :
        (r : Result (Unit {0}) × UserStream)
        → (kept_alive P cfg int_text r).0 ≡ ok tt
        → (r.0 ≡ ok tt)
          × (kept_alive P cfg int_text r
              ≡ (ok tt, record r.1 { stop_keep_alive = false; keep_alive_joinable = true }))
    unfolding kept_alive
    kept_alive-eq-ok (ok x, u) h = (refl, (guarded-eq-ok u.keep_alive_joinable _ _ _ _ h).1)
    kept_alive-eq-ok (err e, u) h = cc

    connected-IsStarted :
        (outcome : Option Text) (u : UserStream)
        → u.listen_key ≢ []
        → u.started ≡ true
        → (kept_alive P cfg int_text (connected P cfg int_text outcome u)).0 ≡ ok tt
        → IsStarted (kept_alive P cfg int_text (connected P cfg int_text outcome u)).1
    unfolding connected
    connected-IsStarted outcome u key on e =
        let (returned, same) = kept_alive-eq-ok _ e in
        let (_, free) =
          guarded-eq-ok (is_queued u.dispatch_mode && u.consumer_running) terminated u _ tt
            returned in
        let (_, _, live) =
          connect-eq-ok cfg int_text _ outcome u.socket (ap (λ r. r.0) (sym free) ∙ returned) in
        subst (λ r. IsStarted r.1) (sym same)
          (subst
            (λ r. IsStarted (record r.1 { stop_keep_alive = false; keep_alive_joinable = true }))
            (sym free)
            (elim (Bool-cases (is_queued u.dispatch_mode)) [
              | inl q ↦ rw q (key, live, on)
              | inr q ↦ rw q (key, live, on)
            ]))

    with_key-IsStarted :
        (outcome : Option Text) (answer : Result Text) (u : UserStream)
        → u.started ≡ true
        → (with_key P cfg int_text outcome (answer, u)).0 ≡ ok tt
        → IsStarted (with_key P cfg int_text outcome (answer, u)).1
    unfolding with_key
    with_key-IsStarted outcome (err e) u on h = cc
    with_key-IsStarted outcome (ok []) u on h = cc
    with_key-IsStarted outcome (ok (b ∷ key)) u on h =
        connected-IsStarted outcome (record u { listen_key = b ∷ key }) (λ e. cc) on h

  -- If `start` returns, the credentials were there, the server gave a listen key that is not empty,
  -- the stream is connected, and it is marked as started.
  pub start-eq-ok :
      (cfg : Config) (int_text : ℕ → Text) (outcome : Option Text) (u : UserStream)
      → (start P cfg int_text outcome u).0 ≡ ok tt
      → (has_credentials u.credentials ≡ true) × IsStarted (start P cfg int_text outcome u).1
  unfolding start create_listen_key request
  start-eq-ok cfg int_text outcome u e = elim (Bool-cases (has_credentials u.credentials)) [
    | inl there ↦
        (there, rw there (with_key-IsStarted cfg int_text outcome _ _ refl (rw there at e)))
    | inr missing ↦ ground (arith, e, missing)
  ]
