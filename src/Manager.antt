-- ===== src/Manager.antt =====
-- The manager of QBFT instances: anchor/qbft_manager/src.
pub mod Timeout
pub mod Deadlines
pub mod Instance
pub mod Answers
pub mod Agreed
pub mod Run
pub mod Driven
pub mod Held
pub mod Backed
