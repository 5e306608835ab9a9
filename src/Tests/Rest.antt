-- ===== src/Tests/Rest.antt =====
-- Examples for the URL, the query string, the pool and the retry.
use bintrade.Prelude.{
  inr, ℕ, ◌≡◌, refl, true, false, [], ◌∷◌, ◌++◌, none, some, str, length, ltb, arith,
}
use bintrade.Core.Error.{ok}
use bintrade.Tests.Sample.{Lacks-of_lacks}
use bintrade.Rest.Url.{parse_url, parse_wss_url, default_port}
use bintrade.Rest.Url.RoundTrip.{path, parse_url-append}
use bintrade.Rest.Pool.{
  Pool, Slot, acquire_begin, acquired_id, acquire, append_slot, connect_failed, contains_slot,
}
use bintrade.Rest.Pool.Slots.{slot_at}
use bintrade.Rest.Pool.Valid.{IsValid}
use bintrade.Rest.Pool.Ownership.{System, here, next, begin, start, update, first_phase}
use bintrade.Rest.Pool.Exclusive.{acquire_begin-exclusive}
use bintrade.Rest.Pool.Overflow.{connect_failed-pop_back, new_slot}
use bintrade.Rest.Pool.Request.{Attempt, transport_error, response, execute}
use bintrade.Rest.Pool.Request.Retry.{report_of, expected_report, execute-report}

parse_url-append_example :
    (parse_url (str "https" ++ (str "://" ++ (str "api.binance.com" ++ str "/x")))
      ≡ ok (record {
        scheme = str "https";
        host = str "api.binance.com";
        port = default_port (str "https");
      }))
    × (parse_url (
          str "https"
          ++ (str "://" ++ (str "api.binance.com" ++ (b':' ∷ (str "8443" ++ str "/x")))))
        ≡ ok (record { scheme = str "https"; host = str "api.binance.com"; port = str "8443" }))
    × (parse_wss_url (str "https" ++ (str "://" ++ (str "api.binance.com" ++ str "/x")))
        ≡ ok (record { host = str "api.binance.com"; port = str "443" }))
    × (parse_wss_url (
          str "https"
          ++ (str "://" ++ (str "api.binance.com" ++ (b':' ∷ (str "8443" ++ str "/x")))))
        ≡ ok (record { host = str "api.binance.com"; port = str "8443" }))
unfolding str
parse_url-append_example =
    parse_url-append (str "https") (str "api.binance.com") (str "8443") {tail = str "/x"}
      (Lacks-of_lacks b':' (str "https") refl) (Lacks-of_lacks b':' (str "api.binance.com") refl)
      (Lacks-of_lacks b'/' (str "api.binance.com") refl) (Lacks-of_lacks b'/' (str "8443") refl)
      (path (str "x"))

-- A pool of one with its connection in use.
abbrev busy_pool : Pool
busy_pool = record {
  pool_size = 1;
  slots = record { id = 0; in_use = true; connected = true } ∷ [];
  next_id = 1;
}

busy_pool-IsValid : IsValid busy_pool
busy_pool-IsValid = record {
  rising = (omega arith, tt);
  below = (omega arith, tt);
  idle_connected = (refl, tt);
  spare = λ e. omega arith;
}

connect_failed-pop_back_example :
    let (a, q) = acquire_begin busy_pool in
    let (b, r) = acquire_begin q in
    ((connect_failed a q).slots ≡ busy_pool.slots)
    × (contains_slot (acquired_id b) r.slots ≡ true)
    × (contains_slot (acquired_id b) (connect_failed a r).slots ≡ false)
    × (slot_at (acquired_id a) (connect_failed a r).slots ≡ some (new_slot (acquired_id a)))
connect_failed-pop_back_example = connect_failed-pop_back busy_pool busy_pool-IsValid refl

-- One request has taken the first slot of a pool of two.
abbrev one_taken : System
one_taken = record {
  pool = (acquire_begin (start 2).pool).1;
  held =
      update (start 2).held (acquired_id (acquire_begin (start 2).pool).0)
        (some (first_phase (acquire_begin (start 2).pool).0));
}

acquire_begin-exclusive_example :
    (one_taken.held (acquired_id (acquire_begin one_taken.pool).0) ≡ none) × IsValid one_taken.pool
acquire_begin-exclusive_example =
    acquire_begin-exclusive 2 {s = one_taken} (next here (begin (start 2) (inr (λ i a e. cc))))

-- The first attempt breaks, the second is answered.
abbrev flaky : ℕ → Attempt
flaky n = record { connect = none; outcome = outcome_of n }
  where
    outcome_of : ℕ → bintrade.Rest.Pool.Request.Outcome
    outcome_of n = transport_error (str "broken pipe")

execute-report_example :
    report_of (execute flaky busy_pool)
    ≡ expected_report
        (ltb 1 (length (acquire none busy_pool).1.slots))
        (flaky 0).outcome
        (flaky 1).outcome
execute-report_example = execute-report flaky busy_pool busy_pool-IsValid refl refl
