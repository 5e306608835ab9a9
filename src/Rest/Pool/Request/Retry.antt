-- ===== src/Rest/Pool/Request/Retry.antt =====
-- When a request is sent again.
use bintrade.Prelude.{
  ℕ, suc, ◌+◌, ◌≤◌, ◌≡◌, ◌∙◌, ap, refl, Bool, true, false, Option, none, some, List, [], ◌∷◌, ◌++◌,
  length, ltb, if◌then◌else◌, inl, inr, Option-cases, Bool-cases, arith,
}
use bintrade.Core.Error.{Error, Result, ok, err, network_exception}
use bintrade.Rest.Response.{HttpResponse}
use bintrade.Rest.Pool.{
  Slot, Pool, Acquired, acquired_id, reused, idle_unconnected, appended, take_idle, mark_connected,
  append_slot, acquire_begin, after_connect, acquire, release,
}
use bintrade.Rest.Pool.Slots.{Rising, Below}
use bintrade.Rest.Pool.Valid.{IsValid, connected_at}
use bintrade.Rest.Pool.Steps.{acquire_begin-cases}
use bintrade.Rest.Pool.Request.{
  Attempt, Outcome, response, transport_error, other_error, Run, serve, round, attempts, execute,
}

after_connect-ok : (a : Acquired) (q : Pool) → (after_connect none a q).0 ≡ ok (acquired_id a)
unfolding after_connect
after_connect-ok (reused i) q = refl
after_connect-ok (idle_unconnected i) q = refl
after_connect-ok (appended i) q = refl

-- Where no connection fails, `acquire_connection` gives a slot.
acquire-ok :
    (failure : Option Error) (p : Pool)
    → failure ≡ none
    → acquire failure p ≡ (ok (acquired_id (acquire_begin p).0), (acquire none p).1)
unfolding acquire
acquire-ok failure p e = rw e (
    ap (λ r. (r, (after_connect none (acquire_begin p).0 (acquire_begin p).1).1))
      (after_connect-ok (acquire_begin p).0 (acquire_begin p).1))

take_idle-connected_at :
    (n i : ℕ) (slots : List Slot) {rest : List Slot}
    → Rising n slots
    → take_idle true slots ≡ some (i, rest)
    → (n ≤ i) × (connected_at i rest ≡ true)
unfolding take_idle
take_idle-connected_at n i [] r e = cc
take_idle-connected_at n i (s ∷ slots) {rest} r e = elim (Option-cases (take_idle true slots)) [
  | inl t ↦ ground (arith, t)
  | inr ((i', rest'), t) ↦ ground (arith, t, take_idle-connected_at (suc s.id) i' slots r.1 t)
]

mark_connected-append :
    (n : ℕ) (slots : List Slot) (s : Slot)
    → Below n slots
    → s.id ≡ n
    → connected_at n (mark_connected n (slots ++ s ∷ [])) ≡ true
unfolding mark_connected
mark_connected-append n [] s b e = ground arith
mark_connected-append n (t ∷ slots) s b e = ground (arith, mark_connected-append n slots s b.1 e)

-- The slot that a valid pool gives is connected.
acquire-connected :
    (p : Pool)
    → IsValid p
    → connected_at (acquired_id (acquire_begin p).0) (acquire none p).1.slots ≡ true
unfolding acquire after_connect
acquire-connected p v = elim (acquire_begin-cases p v) [
  | inl (i, rest, t, e) ↦ rw e (take_idle-connected_at 0 i p.slots v.rising t).1
  | inr (n, e) ↦ rw e (unfold append_slot in mark_connected-append p.next_id p.slots _ v.below refl)
]

-- What the caller gets, and how often the request is written, by what becomes of the attempts.
pub data Report : Type 0 where
  report : Result HttpResponse → ℕ → Report

abbrev pub report_of : Run → Report
report_of r = report r.result r.written

abbrev pub last_report : Outcome → ℕ → Report
last_report (response resp) n = report (ok resp) n
last_report (transport_error what) n = report (err (network_exception what)) n
last_report (other_error what) n = report (err (network_exception what)) n

-- A transport error is met by a second attempt if `another` connection is in the pool.
abbrev pub expected_report : Bool → Outcome → Outcome → Report
expected_report another (transport_error what) second =
    if another then last_report second 2 else report (err (network_exception what)) 1
expected_report another first second = last_report first 1

serve-last :
    (i : ℕ) (q : Pool) (o : Outcome) (again : Pool → ℕ → Run)
    → report_of (serve 1 i q o 1 again) ≡ last_report o 2
unfolding serve
serve-last i q (response resp) again = refl
serve-last i q (transport_error what) again = ground arith
serve-last i q (other_error what) again = refl

attempts_step :
    (left attempt n : ℕ) (net : ℕ → Attempt) (p : Pool)
    → (net attempt).connect ≡ none
    → attempts (suc left) attempt net p n
      ≡ serve attempt
          (acquired_id (acquire_begin p).0)
          (acquire none p).1
          (net attempt).outcome
          n
          (attempts left (attempt + 1) net)
unfolding attempts round
attempts_step left attempt n net p e =
    ap (round attempt (net attempt).outcome n (attempts left (attempt + 1) net))
      (acquire-ok (net attempt).connect p e)

second_attempt :
    (net : ℕ → Attempt) (p : Pool)
    → (net 1).connect ≡ none
    → report_of (attempts 1 1 net p 1) ≡ last_report (net 1).outcome 2
second_attempt net p e =
    ap report_of (attempts_step 0 1 1 net p e)
    ∙ serve-last (acquired_id (acquire_begin p).0) (acquire none p).1 (net 1).outcome _

serve-first :
    (i : ℕ) (q : Pool) (first second : Outcome) (again : Pool → ℕ → Run)
    → connected_at i q.slots ≡ true
    → ((r : Pool) → report_of (again r 1) ≡ last_report second 2)
    → report_of (serve 0 i q first 0 again) ≡ expected_report (ltb 1 (length q.slots)) first second
unfolding serve
serve-first i q (response resp) second again c h = refl
serve-first i q (transport_error what) second again c h =
    elim (Bool-cases (ltb 1 (length q.slots))) [
      | inl e ↦ rw (e, serve) (h (release i false q))
      | inr e ↦ rw (e, c, serve) refl
    ]
serve-first i q (other_error what) second again c h = refl

-- Over a valid pool, and where no connection fails: a response and an error of another kind end the
-- request after it was written once. After a transport error it is written a second time, and ends
-- as that attempt ends, exactly when the pool holds a second connection; with its own connection
-- alone in the pool, the caller gets the error of the first attempt.
pub execute-report :
    (net : ℕ → Attempt) (p : Pool)
    → IsValid p
    → (net 0).connect ≡ none
    → (net 1).connect ≡ none
    → report_of (execute net p)
      ≡ expected_report (ltb 1 (length (acquire none p).1.slots)) (net 0).outcome (net 1).outcome
unfolding execute
execute-report net p v e0 e1 =
    ap report_of (attempts_step 1 0 0 net p e0)
    ∙ serve-first (acquired_id (acquire_begin p).0) (acquire none p).1 (net 0).outcome
        (net 1).outcome (attempts 1 1 net) (acquire-connected p v) (λ r. second_attempt net r e1)
