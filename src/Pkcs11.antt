-- ===== src/Pkcs11.antt =====
-- The PKCS#11 view of the broker: security/broker/pkcs11/.
pub mod Table
pub mod Types
pub mod Session
pub mod Token
pub mod Library
mod Tests
