-- ===== src/Core/Logger.antt =====
-- src/core/logger.cpp: the global logger. The calls come one after another, as `std::call_once` makes
-- those that initialize.
pub mod Calls
use bintrade.Prelude.{
  ℕ, Bool, true, false, List, [], ◌∷◌, Option, none, some, Text, str, if◌then◌else◌, map, ◌≡◌,
}
use bintrade.Core.Error.{Error, Result, ok, err}
use bintrade.Core.Config.{
  LogLevel, trace, debug, info, warn, error, critical, off, LogConfig, default_log_config,
}

-- What the code uses of spdlog, which is not part of the repository. `thread_pool_error` and
-- `register_error` are what `init_thread_pool` and `register_logger` throw; the laws are the
-- documented behaviour of the loggers: `set_pattern` sets the formatter of the logger's sinks.
pub record Spdlog : Type 1 where
  pub Sink : Type 0
  pub Logger : Type 0
  pub stdout_sink : Sink
  pub with_pattern : Text → Sink → Sink
  pub make_logger : Text → Sink → Logger
  pub make_async_logger : Text → Sink → Logger
  pub thread_pool_error : ℕ → ℕ → Option Error
  pub register_error : Text → Option Error
  pub level : Logger → ℕ
  pub sinks : Logger → List Sink
  pub set_level : ℕ → Logger → Logger
  pub set_pattern : Text → Logger → Logger
  pub set_sinks : List Sink → Logger → Logger
  pub sinks-make_logger : (name : Text) (s : Sink) → sinks (make_logger name s) ≡ s ∷ []
  pub sinks-make_async_logger : (name : Text) (s : Sink) → sinks (make_async_logger name s) ≡ s ∷ []
  pub level-set_level : (n : ℕ) (l : Logger) → level (set_level n l) ≡ n
  pub sinks-set_level : (n : ℕ) (l : Logger) → sinks (set_level n l) ≡ sinks l
  pub level-set_pattern : (p : Text) (l : Logger) → level (set_pattern p l) ≡ level l
  pub sinks-set_pattern :
      (p : Text) (l : Logger) → sinks (set_pattern p l) ≡ map (with_pattern p) (sinks l)
  pub level-set_sinks : (s : List Sink) (l : Logger) → level (set_sinks s l) ≡ level l
  pub sinks-set_sinks : (s : List Sink) (l : Logger) → sinks (set_sinks s l) ≡ s

-- `static_cast<int>(level)`, the value of spdlog's `level_enum`.
abbrev pub to_spdlog_level : LogLevel → ℕ
to_spdlog_level trace = 0
to_spdlog_level debug = 1
to_spdlog_level info = 2
to_spdlog_level warn = 3
to_spdlog_level error = 4
to_spdlog_level critical = 5
to_spdlog_level off = 6

module _ (L : Spdlog) where
  open L use {
    Sink, Logger, stdout_sink, make_logger, make_async_logger, thread_pool_error, register_error,
    sinks, set_level, set_pattern, set_sinks,
  }

  -- `g_logger`, and whether `g_init_flag` is set.
  pub record Global : Type 0 where
    pub g_logger : Option Logger
    pub initialized : Bool

  -- The logger of the two branches of `do_init`, or what `init_thread_pool` throws.
  unfoldable pub new_logger : LogConfig → Result Logger
  new_logger config =
      if config.use_async
      then (elim (thread_pool_error config.async_queue_size config.async_thread_count) [
        | some e ↦ err e
        | none ↦ ok (make_async_logger (str "bintrade") stdout_sink)
      ])
      else ok (make_logger (str "bintrade") stdout_sink)

  unfoldable pub registered : Logger → Option Error → Result (Unit {0}) × Global
  registered log none = (ok tt, record { g_logger = some log; initialized = true })
  registered log (some e) = (err e, record { g_logger = some log; initialized = false })

  -- The rest of `do_init`, and `call_once` behind it: the flag stays unset where it throws.
  unfoldable pub configured : LogConfig → Global → Result Logger → Result (Unit {0}) × Global
  unfolding registered
  configured config g (err e) = (err e, g)
  configured config g (ok log) =
      registered (set_pattern config.pattern (set_level (to_spdlog_level config.level) log))
        (register_error (str "bintrade"))

  unfoldable pub init_logging : LogConfig → Global → Result (Unit {0}) × Global
  unfolding configured new_logger
  init_logging config g =
      if g.initialized then (ok tt, g) else configured config g (new_logger config)

  -- `logger()`, which initializes with the defaults, and then what is done with the logger.
  unfoldable pub with_logger :
      (Logger → Logger) → Result (Unit {0}) × Global → Result (Unit {0}) × Global
  with_logger f (err e, g) = (err e, g)
  with_logger f (ok _, g) =
      (ok tt, record g { g_logger = elim g.g_logger [ none ↦ none | some log ↦ some (f log) ] })

  unfoldable pub logger : Global → Result (Unit {0}) × Global
  unfolding init_logging
  logger g = init_logging default_log_config g

  unfoldable pub set_log_sink : Sink → Global → Result (Unit {0}) × Global
  unfolding logger with_logger
  set_log_sink sink g = with_logger (λ log. set_sinks (sink ∷ []) log) (logger g)

  unfoldable pub set_log_level : LogLevel → Global → Result (Unit {0}) × Global
  unfolding logger with_logger
  set_log_level level g = with_logger (λ log. set_level (to_spdlog_level level) log) (logger g)
