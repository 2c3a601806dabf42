-- ===== src/Qbft.antt =====
-- The QBFT consensus instance: anchor/common/qbft/src.
pub mod Error
pub mod Types
pub mod Leader
pub mod Config
pub mod Container
pub mod Instance
pub mod Tally
pub mod Reachable
pub mod Agreement
pub mod Safety
pub mod Timeout
