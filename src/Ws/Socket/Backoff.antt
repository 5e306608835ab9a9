-- ===== src/Ws/Socket/Backoff.antt =====
-- The reconnect timers of an outage: exponential backoff, and an end.
pub mod Outage
use bintrade.Prelude.{
  ℕ, zero, suc, ◌+◌, ◌*◌, ◌^◌, ◌≤◌, ◌<◌, min, ◌≡◌, refl, Bool, true, false, List, [], ◌∷◌, ◌++◌,
  some, Text, length, leb, if◌then◌else◌, arith, ap, ap₂, inl, inr, Bool-cases, add-one, subst, ◌∙◌,
  sym,
}
use native.Mathlib.Nat.{pow-suc}
use bintrade.Ws.Socket.{
  Config, Retry, read_error, Socket, attempt_reconnect, handle_read, handle_retry, read_ended,
  reconnected,
}

-- The delay before an attempt, in seconds: doubled each time, and at most a minute once doubled.
pub backoff : ℕ → ℕ → ℕ
backoff interval zero = interval
backoff interval (suc k) = min (interval * 2 ^ suc k) 60

backoff-suc : (interval k : ℕ) → min (backoff interval k * 2) 60 ≡ backoff interval (suc k)
unfolding backoff
backoff-suc interval zero = omega (arith, pow-suc 2 0)
backoff-suc interval (suc k) =
    omega (arith, pow-suc 2 (suc k), ap (λ x. interval * x) (pow-suc 2 (suc k)))

pub if-eq-then {ℓ} : {A : Type ℓ} {b : Bool} (x y : A) → b ≡ true → (if b then x else y) ≡ x
if-eq-then x y e = ap (λ b. if b then x else y) e

pub if-eq-else {ℓ} : {A : Type ℓ} {b : Bool} (x y : A) → b ≡ false → (if b then x else y) ≡ y
if-eq-else x y e = ap (λ b. if b then x else y) e

module _ (cfg : Config) (int_text : ℕ → Text) where
  -- The oldest reconnect timer ends, and the new connection fails.
  pub fail_first : Text → List Retry → Socket → Socket
  fail_first what [] s = s
  fail_first what (r ∷ rs) s =
      handle_retry cfg int_text false (some what) r (record s { retries = rs })

  -- One failure after another.
  pub outage : List Text → Socket → Socket
  unfolding fail_first
  outage [] s = s
  outage (what ∷ whats) s = outage whats (fail_first what s.retries s)

  -- The state of an outage in which `k` attempts have failed.
  pub IsDown : ℕ → Socket → Type 0
  IsDown k s =
      (s.should_stop ≡ false)
      × (s.connected ≡ false)
      × (s.retries ≡ (
          if leb cfg.max_reconnect_attempts k
          then []
          else record { attempt = k; delay = backoff cfg.reconnect_interval k } ∷ []))

  pub attempt_reconnect-IsDown :
      (k delay : ℕ) (s : Socket)
      → delay ≡ backoff cfg.reconnect_interval k
      → s.should_stop ≡ false
      → s.connected ≡ false
      → s.retries ≡ []
      → IsDown k (attempt_reconnect cfg int_text k delay s)
  unfolding IsDown attempt_reconnect
  attempt_reconnect-IsDown k delay s e go down idle =
      elim (Bool-cases (leb cfg.max_reconnect_attempts k)) [
        | inl last ↦
            subst (IsDown k) (sym (if-eq-else _ _ go ∙ if-eq-then _ _ last))
              (go, down, idle ∙ sym (if-eq-then _ _ last))
        | inr more ↦ subst (IsDown k) (sym (if-eq-else _ _ go ∙ if-eq-else _ _ more)) (
          go,
          down,
          ap₂ (λ rs d. rs ++ record { attempt = k; delay = d } ∷ []) idle e
              ∙ sym (if-eq-else _ _ more),
        )
      ]

  -- The timer of attempt `k` ends with a failure.
  handle_retry-IsDown :
      (k : ℕ) (what : Text) (s : Socket)
      → s.should_stop ≡ false
      → s.retries ≡ []
      → IsDown (suc k) (
          handle_retry cfg int_text false
            (some what)
            (record { attempt = k; delay = backoff cfg.reconnect_interval k })
            s)
  unfolding handle_retry reconnected
  handle_retry-IsDown k what s go idle = subst (IsDown (suc k)) (sym (if-eq-else _ _ go)) (
      rw add-one
        (attempt_reconnect-IsDown (suc k) _ _ (backoff-suc cfg.reconnect_interval k) go refl idle))

  pub fail_first-IsDown :
      (k : ℕ) (what : Text) (s : Socket)
      → k < cfg.max_reconnect_attempts
      → IsDown k s
      → IsDown (suc k) (fail_first what s.retries s)
  unfolding IsDown fail_first
  fail_first-IsDown k what s lt (go, down, timers) =
      subst (λ rs. IsDown (suc k) (fail_first what rs s))
        (sym (timers ∙ if-eq-else {b = leb cfg.max_reconnect_attempts k} _ _ (ground (arith, lt))))
        (handle_retry-IsDown k what (record s { retries = [] }) go refl)

  outage-IsDown :
      (k n : ℕ) (whats : List Text) (s : Socket)
      → n ≡ k + length whats
      → n ≤ cfg.max_reconnect_attempts
      → IsDown k s
      → IsDown n (outage whats s)
  unfolding outage
  outage-IsDown k n [] s e h d = subst (λ m. IsDown m s) (omega (arith, e)) d
  outage-IsDown k n (what ∷ whats) s e h d =
      outage-IsDown (suc k) n whats _ (omega (arith, e)) h
        (fail_first-IsDown k what s (omega (arith, e, h)) d)

  pub handle_read-IsDown :
      (ec : Text) (s : Socket)
      → s.should_stop ≡ false
      → s.retries ≡ []
      → IsDown 0 (handle_read cfg int_text (read_error ec) s)
  unfolding handle_read read_ended backoff
  handle_read-IsDown ec s go idle =
      subst (IsDown 0) (sym (if-eq-else _ _ go)) (attempt_reconnect-IsDown 0 _ _ refl go refl idle)

  -- A connection that was up loses its read, and then every attempt to reconnect fails. After `k`
  -- failures, up to the configured maximum, it is down, and exactly one timer is armed: the one of
  -- attempt `k`, with the backoff of `k`. After the last attempt none is armed.
  pub outage-handle_read :
      (ec : Text) (whats : List Text) (s : Socket)
      → s.should_stop ≡ false
      → s.retries ≡ []
      → length whats ≤ cfg.max_reconnect_attempts
      → IsDown (length whats) (outage whats (handle_read cfg int_text (read_error ec) s))
  outage-handle_read ec whats s go idle h =
      outage-IsDown 0 (length whats) whats _ (omega arith) h (handle_read-IsDown ec s go idle)
