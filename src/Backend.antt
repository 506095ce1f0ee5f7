-- ===== src/Backend.antt =====
-- The server of P2SER, a program in Go under backend/internal. A string or a `[]byte` of Go is the
-- list of its bytes.
pub mod Pod
pub mod Store
pub mod Scheduler
pub mod Agent
pub mod Compose
pub mod Api
pub mod Files
pub mod Gossip
pub mod EnvFile
pub mod GitUrl
pub mod Dns
pub mod Volume
pub mod Sanctions
