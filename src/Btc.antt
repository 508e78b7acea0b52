-- ===== src/Btc.antt =====
-- pkg/btc: the Bitcoin side.
pub mod Types
pub mod Tables
pub mod Cleaner
pub mod Indexer
pub mod Filterer
