-- ===== src/Rest/Http/Sessions.antt =====
-- The TLS session that a connection offers.
use bintrade.Prelude.{
  ◌≡◌, false, refl, ◌∙◌, ap, List, [], ◌∷◌, Option, none, some, text_eq_refl, lookup,
}
use bintrade.Rest.Url.{ParsedUrl}
use bintrade.Rest.Http.{
  ConnectEnd, sni_refused, step_failed, handshaken, Tls, do_connect, offered, keep_session,
  cache_key,
}

module _ {Session : Type 0} (url : ParsedUrl) where
  -- One connection after another, each in a new slot of the pool.
  pub connect_all : List (ConnectEnd Session) → Tls Session → Tls Session
  connect_all [] t = t
  connect_all (end ∷ ends) t =
      connect_all ends (do_connect url end (record t { connected = false })).1

  -- The session of a handshake that gave one; else the one from before.
  abbrev newer : ConnectEnd Session → Option Session → Option Session
  newer (handshaken (some session)) before = some session
  newer (handshaken none) before = before
  newer sni_refused before = before
  newer (step_failed e) before = before

  -- The session of the last handshake that gave one; `before` where none did.
  pub last_session : List (ConnectEnd Session) → Option Session → Option Session
  last_session [] before = before
  last_session (end ∷ ends) before = last_session ends (newer end before)

  offered-do_connect :
      (end : ConnectEnd Session) (t : Tls Session)
      → offered url (do_connect url end t).1 ≡ newer end (offered url t)
  unfolding offered do_connect keep_session lookup
  offered-do_connect (handshaken (some session)) t = rw (text_eq_refl (cache_key url)) refl
  offered-do_connect (handshaken none) t = refl
  offered-do_connect sni_refused t = refl
  offered-do_connect (step_failed e) t = refl

  -- However many connections the client opens, and whichever of them fail at whichever step: the next
  -- one offers the session of the last handshake that gave one, and where none did, the one that was
  -- there before.
  pub offered-connect_all :
      (ends : List (ConnectEnd Session)) (t : Tls Session)
      → offered url (connect_all ends t) ≡ last_session ends (offered url t)
  unfolding connect_all last_session offered
  offered-connect_all [] t = refl
  offered-connect_all (end ∷ ends) t =
      let fresh = record t { connected = false } in
      offered-connect_all ends (do_connect url end fresh).1
      ∙ ap (last_session ends) (offered-do_connect end fresh)
