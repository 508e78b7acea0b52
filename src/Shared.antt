-- ===== src/Shared.antt =====
-- pkg/shared: the types that the chains' packages share.
pub mod Types
pub mod Names
pub mod ChainType
