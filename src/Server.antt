-- ===== src/Server.antt =====
-- The server, the Go program in main.go, internal and plugins: the parts that the page script
-- depends on.
pub mod Assets
pub mod Ttl
pub mod Strings
pub mod Limiter
pub mod Log
pub mod Config
pub mod Store
pub mod Contract
pub mod Postgres
pub mod Redis
pub mod Cipher
pub mod Query
pub mod Routes
pub mod Start
pub mod Readers
pub mod Http
