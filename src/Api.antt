-- ===== src/Api.antt =====
-- src/api: what the hub answers to its clients.
pub mod Http
pub mod Commands
pub mod Served
pub mod Ws
pub mod Router
pub mod Client
mod Tests
