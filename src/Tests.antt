-- ===== src/Tests.antt =====
-- The theorems of the components at concrete inputs.
mod Heights
mod Names
mod Filters
mod BtcFilters
mod Constructors
mod Tries
mod Cleaners
mod Rounds
mod Indexers
mod BtcIndexers
mod Rewards
mod Subscribers
