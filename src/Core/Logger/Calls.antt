-- ===== src/Core/Logger/Calls.antt =====
-- What a sequence of calls of the logging functions leaves behind.
use bintrade.Prelude.{
  ℕ, ◌≡◌, refl, ap, ◌∙◌, true, false, Bool-cases, inl, inr, List, [], ◌∷◌, none, some, str, map,
}
use bintrade.Core.Error.{ok}
use bintrade.Core.Config.{LogLevel, LogConfig, default_log_config}
use bintrade.Core.Logger.{
  Spdlog, to_spdlog_level, Global, new_logger, registered, configured, init_logging, with_logger,
  logger, set_log_sink, set_log_level,
}

module _ (L : Spdlog) where
  open L use {
    Sink, Logger, stdout_sink, with_pattern, thread_pool_error, register_error, level, sinks,
    set_level, set_pattern, set_sinks,
  }

  pub data LogCall : Type 0 where
    init_call : LogConfig → LogCall
    logger_call : LogCall
    sink_call : Sink → LogCall
    level_call : LogLevel → LogCall

  -- A call, whose exception the caller catches.
  pub call : LogCall → Global L → Global L
  call (init_call config) g = (init_logging L config g).1
  call logger_call g = (logger L g).1
  call (sink_call sink) g = (set_log_sink L sink g).1
  call (level_call l) g = (set_log_level L l g).1

  -- Oldest first.
  pub calls : List LogCall → Global L → Global L
  unfolding call
  calls [] g = g
  calls (c ∷ cs) g = calls cs (call c g)

  -- The configuration that the first call initializes with.
  abbrev pub first_config : LogCall → LogConfig
  first_config (init_call config) = config
  first_config logger_call = default_log_config
  first_config (sink_call sink) = default_log_config
  first_config (level_call l) = default_log_config

  abbrev pub last_level : ℕ → List LogCall → ℕ
  last_level n [] = n
  last_level n (level_call l ∷ cs) = last_level (to_spdlog_level l) cs
  last_level n (init_call config ∷ cs) = last_level n cs
  last_level n (logger_call ∷ cs) = last_level n cs
  last_level n (sink_call sink ∷ cs) = last_level n cs

  abbrev pub last_sinks : List Sink → List LogCall → List Sink
  last_sinks ss [] = ss
  last_sinks ss (sink_call sink ∷ cs) = last_sinks (sink ∷ []) cs
  last_sinks ss (init_call config ∷ cs) = last_sinks ss cs
  last_sinks ss (logger_call ∷ cs) = last_sinks ss cs
  last_sinks ss (level_call l ∷ cs) = last_sinks ss cs

  -- The logger is initialized, with this level and these sinks.
  abbrev pub Ready : ℕ → List Sink → Global L → Type 0
  Ready n ss g =
      (log : Logger) × (g ≡ record { g_logger = some log; initialized = true })
      × (level log ≡ n)
      × (sinks log ≡ ss)

  calls-Ready :
      (cs : List LogCall) (n : ℕ) (ss : List Sink) (g : Global L)
      → Ready n ss g
      → Ready (last_level n cs) (last_sinks ss cs) (calls cs g)
  unfolding calls call init_logging logger set_log_sink set_log_level with_logger
  calls-Ready [] n ss g r = r
  calls-Ready (init_call config ∷ cs) n ss g (log, e, l, s) =
      calls-Ready cs n ss _ (log, rw e refl, l, s)
  calls-Ready (logger_call ∷ cs) n ss g (log, e, l, s) =
      calls-Ready cs n ss _ (log, rw e refl, l, s)
  calls-Ready (sink_call sink ∷ cs) n ss g (log, e, l, s) = calls-Ready cs n (sink ∷ []) _ (
    set_sinks (sink ∷ []) log,
    rw e refl,
    L.level-set_sinks (sink ∷ []) log ∙ l,
    L.sinks-set_sinks (sink ∷ []) log,
  )
  calls-Ready (level_call v ∷ cs) n ss g (log, e, l, s) = calls-Ready cs (to_spdlog_level v) ss _ (
    set_level (to_spdlog_level v) log,
    rw e refl,
    L.level-set_level (to_spdlog_level v) log,
    L.sinks-set_level (to_spdlog_level v) log ∙ s,
  )

  abbrev pub fresh_global : Global L
  fresh_global = record { g_logger = none; initialized = false }

  -- The logger that a configuration gives.
  new_logger-sinks :
      (config : LogConfig)
      → thread_pool_error config.async_queue_size config.async_thread_count ≡ none
      → (log : Logger) × (new_logger L config ≡ ok log) × (sinks log ≡ stdout_sink ∷ [])
  unfolding new_logger
  new_logger-sinks config free = elim (Bool-cases config.use_async) [
    | inl a ↦ (
      L.make_async_logger (str "bintrade") stdout_sink,
      rw (a, free) refl,
      L.sinks-make_async_logger _ _,
    )
    | inr a ↦ (L.make_logger (str "bintrade") stdout_sink, rw a refl, L.sinks-make_logger _ _)
  ]

  init_logging-Ready :
      (config : LogConfig)
      → thread_pool_error config.async_queue_size config.async_thread_count ≡ none
      → register_error (str "bintrade") ≡ none
      → (log : Logger) × (init_logging L config fresh_global
          ≡ (ok tt, record { g_logger = some log; initialized = true }))
        × (level log ≡ to_spdlog_level config.level)
        × (sinks log ≡ with_pattern config.pattern stdout_sink ∷ [])
  unfolding init_logging configured registered
  init_logging-Ready config free named =
      let (log, made, s) = new_logger-sinks config free in
      (
        set_pattern config.pattern (set_level (to_spdlog_level config.level) log),
        rw (made, named) refl,
        L.level-set_pattern _ _ ∙ L.level-set_level _ _,
        L.sinks-set_pattern _ _
            ∙ ap (map (with_pattern config.pattern)) (L.sinks-set_level _ _ ∙ s),
      )

  first-Ready :
      (c : LogCall)
      → let config = first_config c in
        thread_pool_error config.async_queue_size config.async_thread_count ≡ none
        → register_error (str "bintrade") ≡ none
        → Ready
            (last_level (to_spdlog_level config.level) (c ∷ []))
            (last_sinks (with_pattern config.pattern stdout_sink ∷ []) (c ∷ []))
            (call c fresh_global)
  unfolding call logger set_log_sink set_log_level with_logger
  first-Ready (init_call config) free named =
      let (log, e, l, s) = init_logging-Ready config free named in (log, ap (λ r. r.1) e, l, s)
  first-Ready logger_call free named =
      let (log, e, l, s) = init_logging-Ready default_log_config free named in
      (log, ap (λ r. r.1) e, l, s)
  first-Ready (sink_call sink) free named =
      let (log, e, l, s) = init_logging-Ready default_log_config free named in
      (
        set_sinks (sink ∷ []) log,
        ap (λ r. (with_logger L (set_sinks (sink ∷ [])) r).1) e,
        L.level-set_sinks (sink ∷ []) log ∙ l,
        L.sinks-set_sinks (sink ∷ []) log,
      )
  first-Ready (level_call v) free named =
      let (log, e, l, s) = init_logging-Ready default_log_config free named in
      (
        set_level (to_spdlog_level v) log,
        ap (λ r. (with_logger L (set_level (to_spdlog_level v)) r).1) e,
        L.level-set_level (to_spdlog_level v) log,
        L.sinks-set_level (to_spdlog_level v) log ∙ s,
      )

  -- When `init_thread_pool` and `register_logger` do not throw for the first call: whatever calls of
  -- the four functions follow, the global logger is initialized once, by the configuration of the
  -- first call, or the defaults if that is not `init_logging`. Its level is the one set last, else the
  -- configured one. Its only sink is the one set last, as it was passed, with no pattern put on it;
  -- else it is the standard output with the configured pattern.
  pub calls-first :
      (c : LogCall) (cs : List LogCall)
      → let config = first_config c in
        thread_pool_error config.async_queue_size config.async_thread_count ≡ none
        → register_error (str "bintrade") ≡ none
        → Ready
            (last_level (to_spdlog_level config.level) (c ∷ cs))
            (last_sinks (with_pattern config.pattern stdout_sink ∷ []) (c ∷ cs))
            (calls (c ∷ cs) fresh_global)
  unfolding calls
  calls-first (init_call config) cs free named =
      calls-Ready cs _ _ _ (first-Ready (init_call config) free named)
  calls-first logger_call cs free named = calls-Ready cs _ _ _ (first-Ready logger_call free named)
  calls-first (sink_call sink) cs free named =
      calls-Ready cs _ _ _ (first-Ready (sink_call sink) free named)
  calls-first (level_call l) cs free named =
      calls-Ready cs _ _ _ (first-Ready (level_call l) free named)
