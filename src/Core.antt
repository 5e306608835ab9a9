-- ===== src/Core.antt =====
-- include/bintrade/core and src/core: the public enumerations, the exceptions, the platform
-- clock, and the queue between the I/O thread and the consumer thread.
pub mod Error
pub mod Types
pub mod Clock
pub mod Config
pub mod Logger
pub mod Affinity
pub mod Spsc
