-- ===== src/Ws/User/KeepAlive.antt =====
-- The renewals of the listen key.
use bintrade.Prelude.{
  ◌⊎◌, inl, inr, true, leb, Bool-cases, arith, ℕ, zero, suc, ◌≡◌, refl, sym, ap, subst, ◌∙◌, List,
  [], ◌∷◌, ◌++◌, Text, str, replicate,
}
use bintrade.Core.Error.{Result, ok, err, Error, terminated, ◌>>=◌, Result-cases}
use bintrade.Rest.Response.{HttpResponse}
use bintrade.Rest.Parse.{parse_response}
use bintrade.Rest.Parse.Errors.{IsNoError, parse_response-eq-ok}
use bintrade.Rest.Client.Status.{IsReturned}
use bintrade.Rest.Client.{Platform, Request, post}
use bintrade.Ws.User.{
  UserStream, request, check_status, renew_listen_key, keep_alive, Wake, timed_out, told_to_stop,
  keep_alive_turn, keep_alive_thread,
}

module _ (P : Platform) where
  open P use {http, json}

  -- The request that renews the listen key, and `m` of them behind the requests `rs`.
  abbrev pub renewal : Text → Request
  renewal key = post (str "/api/v3/userDataStream?listenKey=" ++ key) []

  abbrev pub renewals : Text → ℕ → List Request → List Request
  renewals key zero rs = rs
  renewals key (suc m) rs = renewals key m (renewal key ∷ rs)

  -- How the renewal behind the requests `rs` ends.
  renewed : Text → List Request → Result (Unit {0})
  renewed key rs = http (renewal key ∷ rs) >>= check_status P

  -- The renewal behind the requests `rs` is answered, with a status below 400 or with a JSON body that
  -- is no error object.
  abbrev pub Succeeds : Text → List Request → Type 0
  Succeeds key rs = (resp : HttpResponse) × (http (renewal key ∷ rs) ≡ ok resp) × IsReturned P resp

  -- It is not answered, or with a status from 400 on and a body that is empty, no JSON, or an error
  -- object.
  abbrev pub Fails : Text → List Request → Type 0
  Fails key rs =
      ((e : Error) × (http (renewal key ∷ rs) ≡ err e))
      ⊎ ((resp : HttpResponse) × (http (renewal key ∷ rs) ≡ ok resp)
          × (leb 400 resp.status_code ≡ true)
          × ¬ IsNoError json resp.body)

  -- The next `m` renewals succeed.
  abbrev pub AllRenewed : Text → ℕ → List Request → Type 0
  AllRenewed key zero rs = Unit
  AllRenewed key (suc m) rs = Succeeds key rs × AllRenewed key m (renewal key ∷ rs)

  check_status-ok : (resp : HttpResponse) → IsReturned P resp → check_status P resp ≡ ok tt
  unfolding check_status
  check_status-ok resp (inl good) = ground (arith, good)
  check_status-ok resp (inr fine) = elim (Bool-cases (leb 400 resp.status_code)) [
    | inl bad ↦
        let (j, p) = (parse_response-eq-ok json resp.status_code resp.body bad).1 fine in
        ground (arith, bad, p)
    | inr good ↦ ground (arith, good)
  ]

  check_status-err :
      (resp : HttpResponse)
      → leb 400 resp.status_code ≡ true
      → ¬ IsNoError json resp.body
      → (x : Error) × (check_status P resp ≡ err x)
  unfolding check_status
  check_status-err resp bad refused =
      elim (Result-cases (parse_response json resp.status_code resp.body)) [
        | inl (j, p) ↦
            absurd (refused ((parse_response-eq-ok json resp.status_code resp.body bad).0 (j, p)))
        | inr (x, p) ↦ (x, ground (arith, bad, p))
      ]

  renewed-ok : (key : Text) (rs : List Request) → Succeeds key rs → renewed key rs ≡ ok tt
  unfolding renewed
  renewed-ok key rs (resp, p, fine) = rw p (check_status-ok resp fine)

  renewed-err :
      (key : Text) (rs : List Request) → Fails key rs → (x : Error) × (renewed key rs ≡ err x)
  unfolding renewed
  renewed-err key rs (inl (e, p)) = (e, rw p refl)
  renewed-err key rs (inr (resp, p, bad, refused)) =
      let (x, q) = check_status-err resp bad refused in (x, rw p q)

  keep_alive-renewed :
      (b : ℕ) (key : Text) (u : UserStream)
      → u.listen_key ≡ b ∷ key
      → ((keep_alive P u).0 ≡ renewed (b ∷ key) u.requests)
        × ((keep_alive P u).1.requests ≡ renewal (b ∷ key) ∷ u.requests)
        × ((keep_alive P u).1.listen_key ≡ b ∷ key)
  unfolding keep_alive renew_listen_key request renewed
  keep_alive-renewed b key u e = rw e (refl, refl, refl)

  turn-ok :
      (r later : Result (Unit {0}) × UserStream) → r.0 ≡ ok tt → keep_alive_turn P r later ≡ later
  unfolding keep_alive_turn
  turn-ok (ok _, u) later e = refl
  turn-ok (err x, u) later e = cc

  turn-err :
      (r later : Result (Unit {0}) × UserStream) {x : Error}
      → r.0 ≡ err x
      → keep_alive_turn P r later ≡ (err terminated, r.1)
  unfolding keep_alive_turn
  turn-err (ok _, u) later e = cc
  turn-err (err x, u) later e = refl

  -- After `m` renewals that succeed, the thread is where it was, with their requests sent.
  keep_alive_thread-replicate :
      (m b : ℕ) (key : Text) (wakes : List Wake) (u : UserStream)
      → u.listen_key ≡ b ∷ key
      → AllRenewed (b ∷ key) m u.requests
      → (v : UserStream) × (v.listen_key ≡ b ∷ key)
        × (v.requests ≡ renewals (b ∷ key) m u.requests)
        × (keep_alive_thread P (replicate m timed_out ++ wakes) u ≡ keep_alive_thread P wakes v)
  unfolding keep_alive_thread
  keep_alive_thread-replicate zero b key wakes u e all = (u, e, refl, refl)
  keep_alive_thread-replicate (suc m) b key wakes u e (first, all) =
      let (answer, sent, same) = keep_alive-renewed b key u e in
      let (v, k, rs, behind) =
        keep_alive_thread-replicate m b key wakes (keep_alive P u).1 same
          (subst (AllRenewed (b ∷ key) m) (sym sent) all) in
      (
        v,
        k,
        rs ∙ ap (renewals (b ∷ key) m) sent,
        turn-ok (keep_alive P u) _ (answer ∙ renewed-ok (b ∷ key) u.requests first) ∙ behind,
      )

  -- The keep-alive thread of a stream with a listen key sends one renewal each time that its 25 minutes
  -- are over, as long as they succeed; told to stop, it returns.
  pub keep_alive_thread-told :
      (m b : ℕ) (key : Text) (wakes : List Wake) (u : UserStream)
      → u.listen_key ≡ b ∷ key
      → AllRenewed (b ∷ key) m u.requests
      → let end = keep_alive_thread P (replicate m timed_out ++ told_to_stop ∷ wakes) u in
        (end.0 ≡ ok tt) × (end.1.requests ≡ renewals (b ∷ key) m u.requests)
  unfolding keep_alive_thread
  keep_alive_thread-told m b key wakes u e all =
      let (v, _, rs, behind) = keep_alive_thread-replicate m b key (told_to_stop ∷ wakes) u e all in
      (ap (λ r. r.0) behind, ap (λ r. r.1.requests) behind ∙ rs)

  -- A stream has a listen key, and any number of renewals are answered with a status below 400 or a
  -- JSON body that is no error object. Then one is not answered, or with a status from 400 on and a
  -- body that is empty, no JSON or an error object: whatever would wake the keep-alive thread later,
  -- the program ends, with this renewal as the last request.
  pub keep_alive_thread-failed :
      (m b : ℕ) (key : Text) (wakes : List Wake) (u : UserStream)
      → u.listen_key ≡ b ∷ key
      → AllRenewed (b ∷ key) m u.requests
      → Fails (b ∷ key) (renewals (b ∷ key) m u.requests)
      → let end = keep_alive_thread P (replicate m timed_out ++ timed_out ∷ wakes) u in
        (end.0 ≡ err terminated)
        × (end.1.requests ≡ renewal (b ∷ key) ∷ renewals (b ∷ key) m u.requests)
  unfolding keep_alive_thread
  keep_alive_thread-failed m b key wakes u e all fails =
      let (x, bad) = renewed-err (b ∷ key) (renewals (b ∷ key) m u.requests) fails in
      let (v, k, rs, behind) = keep_alive_thread-replicate m b key (timed_out ∷ wakes) u e all in
      let (answer, sent, _) = keep_alive-renewed b key v k in
      let end = behind ∙ turn-err (keep_alive P v) _ (answer ∙ ap (renewed (b ∷ key)) rs ∙ bad) in
      (ap (λ r. r.0) end, ap (λ r. r.1.requests) end ∙ sent ∙ ap (◌∷◌ (renewal (b ∷ key))) rs)
