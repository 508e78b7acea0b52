-- ===== src/Btc/Indexer/Outcome.antt =====
-- What Index of a Bitcoin block returns, and what it did to the tables then.
