-- ===== src/Ws/Socket/Attempts.antt =====
-- Reconnecting comes to an end, in whatever order the reconnect timers end.
use bintrade.Prelude.{
  ℕ, suc, ◌+◌, ◌*◌, ◌-◌, ◌≤◌, ◌≡◌, refl, ap, Bool, true, false, ◌||◌, List, [], ◌∷◌, ◌++◌, some,
  Text, leb, if◌then◌else◌, arith, min,
}
use bintrade.Ws.Socket.{
  Config, Retry, read_error, Socket, attempt_reconnect, handle_read, handle_retry, read_ended,
  reconnected,
}

-- What holds of both branches holds of the `if`.
by_cases {ℓ κ} :
    {A : Type ℓ} (holds : A → Type κ) (b : Bool) {x y : A}
    → (b ≡ true → holds x)
    → (b ≡ false → holds y)
    → holds (if b then x else y)
by_cases holds true f g = f refl
by_cases holds false f g = g refl

module _ (cfg : Config) (int_text : ℕ → Text) where
  -- Any reconnect timer of `s` ends, cancelled or with a new connection that fails; and `n` in a row.
  pub data Failures : ℕ → Socket → Socket → Type 0 where
    no_more : (s : Socket) → Failures 0 s s
    one_more :
        (n : ℕ) (s t : Socket) (cancelled : Bool) (what : Text) (front : List Retry) (r : Retry)
        (back : List Retry)
        → s.retries ≡ front ++ (r ∷ back)
        → Failures n
            (handle_retry cfg int_text cancelled
              (some what)
              r
              (record s { retries = front ++ back }))
            t
        → Failures (suc n) s t

  -- How often a timer and those behind it can still end.
  abbrev pub work : List Retry → ℕ
  work [] = 0
  work (r ∷ rs) = suc (cfg.max_reconnect_attempts - 1 - r.attempt) + work rs

  work-append : (rs ss : List Retry) → work (rs ++ ss) ≡ work rs + work ss
  work-append [] ss = omega arith
  work-append (r ∷ rs) ss = omega (arith, work-append rs ss)

  -- At most this much work waits.
  abbrev AtMost : ℕ → Socket → Type 0
  AtMost n s = work s.retries ≤ n

  attempt_reconnect-AtMost :
      (attempt delay : ℕ) (s : Socket)
      → AtMost
          (work s.retries + (cfg.max_reconnect_attempts - 1 - attempt))
          (attempt_reconnect cfg int_text (attempt + 1) delay s)
  unfolding attempt_reconnect
  attempt_reconnect-AtMost attempt delay s =
      by_cases (AtMost _) s.should_stop (λ _. omega arith)
        (λ _.
          by_cases (AtMost _) (leb cfg.max_reconnect_attempts (attempt + 1)) (λ _. omega arith)
            (λ e. ground (
              arith,
              e,
              work-append s.retries (record { attempt = attempt + 1; delay = delay } ∷ []),
            )))

  handle_retry-AtMost :
      (cancelled : Bool) (what : Text) (r : Retry) (s : Socket)
      → AtMost
          (work s.retries + (cfg.max_reconnect_attempts - 1 - r.attempt))
          (handle_retry cfg int_text cancelled (some what) r s)
  unfolding handle_retry reconnected
  handle_retry-AtMost cancelled what r s =
      by_cases (AtMost _) (cancelled || s.should_stop) (λ _. omega arith)
        (λ _. attempt_reconnect-AtMost r.attempt (min (r.delay * 2) 60) _)

  pub Failures-work : (n : ℕ) (s t : Socket) → Failures n s t → n + work t.retries ≤ work s.retries
  Failures-work _ _ _ (no_more s) = omega arith
  Failures-work _ _ _ (one_more n s t cancelled what front r back e later) =
      let rest = record s { retries = front ++ back } in
      omega (
        arith,
        Failures-work n (handle_retry cfg int_text cancelled (some what) r rest) t later,
        handle_retry-AtMost cancelled what r rest,
        ap work e,
        work-append front (r ∷ back),
        work-append front back,
      )

  -- After a read that failed with no timer waiting, at most the configured number of timers end before
  -- none waits, if any is configured.
  pub handle_read-Failures :
      (n : ℕ) (ec : Text) (s t : Socket)
      → s.retries ≡ []
      → 1 ≤ cfg.max_reconnect_attempts
      → Failures n (handle_read cfg int_text (read_error ec) s) t
      → n + work t.retries ≤ cfg.max_reconnect_attempts
  unfolding handle_read read_ended attempt_reconnect
  handle_read-Failures n ec s t e some_configured f =
      let bound : AtMost cfg.max_reconnect_attempts (handle_read cfg int_text (read_error ec) s) =
        by_cases (AtMost _) s.should_stop (λ _. omega (arith, ap work e))
          (λ _.
            by_cases (AtMost _) s.should_stop (λ _. omega (arith, ap work e))
              (λ _.
                by_cases (AtMost _) (leb cfg.max_reconnect_attempts 0)
                  (λ _. omega (arith, ap work e))
                  (λ _. omega (
                    arith,
                    ap work e,
                    work-append s.retries
                        (record { attempt = 0; delay = cfg.reconnect_interval } ∷ []),
                  )))) in
      omega (arith, Failures-work n _ t f, bound)
