-- ===== src/Rest.antt =====
-- src/rest: the HTTP client with its connection pool, and the typed clients above it.
pub mod Url
pub mod Query
pub mod Response
pub mod ParamMap
pub mod Parse
pub mod Client
pub mod Trading
pub mod Account
pub mod Market
pub mod Pool
pub mod Http
