-- ===== src/Ws/Socket/Backoff/Outage.antt =====
-- How long an outage lasts, with the jitter on the reconnect timers.
use bintrade.Prelude.{
  ℕ, zero, suc, ◌+◌, ◌*◌, ◌≤◌, ◌<◌, ◌≡◌, ap, ◌∙◌, false, List, [], ◌∷◌, Text, length, leb, arith,
}
use bintrade.Ws.Socket.{Config, Retry, read_error, Socket, handle_read}
use bintrade.Ws.Socket.Backoff.{
  backoff, if-eq-else, fail_first, IsDown, fail_first-IsDown, handle_read-IsDown,
}

-- The `double` arithmetic of `jitter`: the `n`-th call scales its milliseconds by the number that the
-- generator then draws between 0.75 and 1.25. For whole seconds both products are exact.
pub record JitterLib : Type 0 where
  pub scaled : ℕ → ℕ → ℕ
  pub scaled-le : (n s : ℕ) → 4 * scaled n (1000 * s) ≤ 5000 * s
  pub le-scaled : (n s : ℕ) → 3000 * s ≤ 4 * scaled n (1000 * s)

module _ (J : JitterLib) where
  open J use {scaled}

  -- The duration of a timer in milliseconds, with the `n`-th call of `jitter`.
  pub jittered : ℕ → Retry → ℕ
  jittered n r = scaled n (1000 * r.delay)

  module _ (cfg : Config) (int_text : ℕ → Text) where
    -- How long the oldest timer waits.
    first_wait : ℕ → List Retry → ℕ
    unfolding jittered
    first_wait n [] = 0
    first_wait n (r ∷ rs) = jittered n r

    -- How long the timers of an outage wait, one failed attempt after another.
    pub outage_ms : ℕ → List Text → Socket → ℕ
    unfolding first_wait
    outage_ms n [] s = 0
    outage_ms n (what ∷ whats) s =
        first_wait n s.retries + outage_ms (suc n) whats (fail_first cfg int_text what s.retries s)

    -- The backoffs of `n` attempts from `k` on.
    pub backoffs : ℕ → ℕ → ℕ
    unfolding backoff
    backoffs k zero = 0
    backoffs k (suc n) = backoff cfg.reconnect_interval k + backoffs (suc k) n

    first_wait-IsDown :
        (n k : ℕ) (s : Socket)
        → k < cfg.max_reconnect_attempts
        → IsDown cfg int_text k s
        → first_wait n s.retries ≡ scaled n (1000 * backoff cfg.reconnect_interval k)
    unfolding first_wait jittered IsDown
    first_wait-IsDown n k s lt (go, down, timers) =
        ap (first_wait n)
          (timers ∙ if-eq-else {b = leb cfg.max_reconnect_attempts k} _ _ (ground (arith, lt)))

    outage_ms-backoffs :
        (n k : ℕ) (whats : List Text) (s : Socket)
        → k + length whats ≤ cfg.max_reconnect_attempts
        → IsDown cfg int_text k s
        → (3000 * backoffs k (length whats) ≤ 4 * outage_ms n whats s)
          × (4 * outage_ms n whats s ≤ 5000 * backoffs k (length whats))
    unfolding outage_ms backoffs
    outage_ms-backoffs n k [] s h d = (omega arith, omega arith)
    outage_ms-backoffs n k (what ∷ whats) s h d =
        let e = first_wait-IsDown n k s (omega (arith, h)) d in
        let (low, high) =
          outage_ms-backoffs (suc n) (suc k) whats (fail_first cfg int_text what s.retries s)
            (omega (arith, h)) (fail_first-IsDown cfg int_text k what s (omega (arith, h)) d) in
        let wait = backoff cfg.reconnect_interval k in
        (omega (arith, e, low, J.le-scaled n wait), omega (arith, e, high, J.scaled-le n wait))

    backoffs-le : (k n : ℕ) → backoffs (suc k) n ≤ 60 * n
    unfolding backoffs backoff
    backoffs-le k zero = omega arith
    backoffs-le k (suc n) = omega (arith, backoffs-le (suc k) n)

    -- A connection that was up loses its read, and then attempts to reconnect fail, no more than are
    -- configured. The timers for these attempts wait between three and five quarters of the sum of
    -- their backoffs, whatever `jitter` draws; and no longer, in all, than five quarters of the
    -- configured interval and one minute for every attempt behind the first.
    pub outage_ms-handle_read :
        (n : ℕ) (ec what : Text) (whats : List Text) (s : Socket)
        → s.should_stop ≡ false
        → s.retries ≡ []
        → suc (length whats) ≤ cfg.max_reconnect_attempts
        → let ms = outage_ms n (what ∷ whats) (handle_read cfg int_text (read_error ec) s) in
          (3000 * backoffs 0 (suc (length whats)) ≤ 4 * ms)
          × (4 * ms ≤ 5000 * backoffs 0 (suc (length whats)))
          × (4 * ms ≤ 5000 * (cfg.reconnect_interval + 60 * length whats))
    outage_ms-handle_read n ec what whats s go idle h =
        let (low, high) =
          outage_ms-backoffs n 0 (what ∷ whats) _ (omega (arith, h))
            (handle_read-IsDown cfg int_text ec s go idle) in
        let total : backoffs 0 (suc (length whats)) ≤ cfg.reconnect_interval + 60 * length whats =
          unfold backoffs backoff in omega (arith, backoffs-le 0 (length whats)) in
        (low, high, omega (arith, high, total))
