-- ===== src/Tests/Logging.antt =====
-- Examples for the logger and the clock.
use bintrade.Prelude.{ℕ, ◌≡◌, ◌≤◌, refl, pos, map, List, [], ◌∷◌, none, some, str, Text, arith, inl}
use bintrade.Core.Clock.{timespec, monotonic_now_ns}
use bintrade.Core.Clock.Monotonic.{times, monotonic_now_ns-InOrder}
use bintrade.Core.Config.{debug, warn, default_log_config}
use bintrade.Core.Logger.{Spdlog}
use bintrade.Core.Logger.Calls.{
  LogCall, init_call, sink_call, level_call, calls, Ready, fresh_global, calls-first,
}

-- A sink as the pattern that was put on it, and a logger as its level and its sinks.
abbrev plain_spdlog : Spdlog
plain_spdlog = record {
  Sink = Text;
  Logger = ℕ × List Text;
  stdout_sink = [];
  with_pattern = λ p s. p;
  make_logger = λ name s. (2, s ∷ []);
  make_async_logger = λ name s. (2, s ∷ []);
  thread_pool_error = λ size count. none;
  register_error = λ name. none;
  level = λ l. l.0;
  sinks = λ l. l.1;
  set_level = λ n l. (n, l.1);
  set_pattern = λ p l. (l.0, map (λ s. p) l.1);
  set_sinks = λ s l. (l.0, s);
  sinks-make_logger = λ name s. refl;
  sinks-make_async_logger = λ name s. refl;
  level-set_level = λ n l. refl;
  sinks-set_level = λ n l. refl;
  level-set_pattern = λ p l. refl;
  sinks-set_pattern = λ p l. refl;
  level-set_sinks = λ s l. refl;
  sinks-set_sinks = λ s l. refl;
}

abbrev later_calls : List (LogCall plain_spdlog)
later_calls = sink_call (str "%v") ∷ init_call default_log_config ∷ level_call debug ∷ []

calls-first_example :
    Ready plain_spdlog 1
      (str "%v" ∷ [])
      (calls plain_spdlog (level_call warn ∷ later_calls) (fresh_global plain_spdlog))
calls-first_example = calls-first plain_spdlog (level_call warn) later_calls refl refl

monotonic_now_ns-InOrder_example :
    (a : ℕ) × (b : ℕ) × (monotonic_now_ns (timespec (pos 5) (pos 999)) ≡ some (pos a))
    × (monotonic_now_ns (timespec (pos 6) (pos 1)) ≡ some (pos b))
    × (a ≤ b)
monotonic_now_ns-InOrder_example =
    monotonic_now_ns-InOrder (timespec (pos 5) (pos 999)) (timespec (pos 6) (pos 1))
      (times 5 999 6 1 (omega arith) (omega arith) (omega arith) (inl (omega arith)))
