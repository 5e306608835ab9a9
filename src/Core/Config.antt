-- ===== src/Core/Config.antt =====
-- include/bintrade/core/config.hpp: what a user of the library configures, with the defaults. The
-- times are in seconds.
use bintrade.Prelude.{ℤ, pos, negsuc, ℕ, Bool, true, false, Option, none, Text, str}

pub record RestConfig : Type 0 where
  pub base_url : Text
  pub timeout : ℕ
  pub use_testnet : Bool
  pub proxy : Option Text
  pub verify_ssl : Bool

abbrev pub default_rest_config : RestConfig
default_rest_config = record {
  base_url = str "https://api.binance.com";
  timeout = 30;
  use_testnet = false;
  proxy = none;
  verify_ssl = true;
}

pub record WebSocketConfig : Type 0 where
  pub base_url : Text
  pub use_testnet : Bool
  pub ping_interval : ℕ
  pub reconnect_interval : ℕ
  pub max_reconnect_attempts : ℤ
  pub io_core_id : ℤ

abbrev pub default_web_socket_config : WebSocketConfig
default_web_socket_config = record {
  base_url = str "wss://stream.binance.com:9443";
  use_testnet = false;
  ping_interval = 30;
  reconnect_interval = 5;
  max_reconnect_attempts = pos 10;
  io_core_id = negsuc 0;
}

pub data LogLevel : Type 0 where
  trace debug info warn error critical off : LogLevel

pub record LogConfig : Type 0 where
  pub level : LogLevel
  pub pattern : Text
  pub use_async : Bool
  pub async_queue_size : ℕ
  pub async_thread_count : ℕ

abbrev pub default_log_config : LogConfig
default_log_config = record {
  level = info;
  pattern = str "[%Y-%m-%d %H:%M:%S.%e] [%n] [%l] [t:%t] %v";
  use_async = true;
  async_queue_size = 8_192;
  async_thread_count = 1;
}
