-- ===== src/Ssv.antt =====
-- The shared SSV types: anchor/common/ssv_types/src.
pub mod Committee
pub mod Round
pub mod Message
pub mod Consensus
pub mod Codec
pub mod PartialSig
pub mod MessageId
