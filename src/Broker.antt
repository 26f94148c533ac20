-- ===== src/Broker.antt =====
-- The crypto broker service: security/broker/.
pub mod Text
pub mod Json
pub mod Base64
pub mod Exn
pub mod Glob
pub mod Policy
pub mod Session
pub mod Service
pub mod Backend
pub mod Handler
pub mod Framing
mod Tests
