-- ===== src/Tests.antt =====
-- The theorems applied to concrete inputs.
mod Sample
mod Core
mod Rest
mod Calls
mod Ws
mod Async
mod Wire
mod Streams
mod Network
mod Logging
mod User
