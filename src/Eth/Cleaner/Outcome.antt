-- ===== src/Eth/Cleaner/Outcome.antt =====
-- What Clean returns, and what it did to the tables then.
use ipfs_blockchain_watcher.Prelude.{
  ℕ, ◌≡◌, sym, ◌∙◌, subst, String, List, [], ◌∷◌, Option, ◌⊎◌, inl, inr,
}
use ipfs_blockchain_watcher.Prelude.Results.{ok}
use ipfs_blockchain_watcher.Shared.ChainType.{
  DataType, unknown_data_type, full, headers, uncles, transactions, receipts, state, storage,
}
use ipfs_blockchain_watcher.Sql.{Session, transaction, for_ranges}
use ipfs_blockchain_watcher.Sql.Calls.{
  Failed, Idle, Idle-trans, vacuum-Idle, vacuum-more, afterwards-Idle, afterwards-Failed,
  afterwards-fail_with,
}
use ipfs_blockchain_watcher.Sql.Atomic.{
  Ensures, fail_with-Ensures, and_then-Ensures, transaction-Atomic,
}
use ipfs_blockchain_watcher.Eth.Tables.{Db}
use ipfs_blockchain_watcher.Eth.Cleaner.{for_ranges, clean, vacuum_full, vacuum_analyze, clean_all}
use ipfs_blockchain_watcher.Eth.Cleaner.Removal.{Cleaned, for_ranges-Cleaned}

vacuum_analyze-Idle : (t : DataType) → Ensures Idle (vacuum_analyze t)
unfolding vacuum_analyze vacuum_full
vacuum_analyze-Idle full =
    vacuum-more (vacuum-more (vacuum-more (vacuum-more (vacuum-more (vacuum-more vacuum-Idle)))))
vacuum_analyze-Idle headers =
    vacuum-more (vacuum-more (vacuum-more (vacuum-more (vacuum-more (vacuum-more vacuum-Idle)))))
vacuum_analyze-Idle uncles = vacuum-more vacuum-Idle
vacuum_analyze-Idle transactions = vacuum-more (vacuum-more vacuum-Idle)
vacuum_analyze-Idle receipts = vacuum-more vacuum-Idle
vacuum_analyze-Idle state = vacuum-more (vacuum-more (vacuum-more vacuum-Idle))
vacuum_analyze-Idle storage = vacuum-more vacuum-Idle
vacuum_analyze-Idle unknown_data_type = fail_with-Ensures Idle _

-- Clean of the Ethereum tables has one of two outcomes, whichever statements the database refuses.
-- Either all its deletions are done: no row of the data type is left in any of the ranges, no
-- deletion brought a row of any type into any range, and foreign keys still hold where they held;
-- the call then returns no error, or the error of a later VACUUM. Or it fails, and no table changed.
pub clean_all-outcome :
    (rngs : List (ℕ × ℕ)) (t : DataType) (fault : ℕ → Option String) (s : Session Db)
    → (Cleaned rngs t s.tables (clean_all rngs t fault s).0.tables
        × ((clean_all rngs t fault s).1 ≡ ok tt ⊎ Failed (clean_all rngs t fault s).1))
      ⊎ (((clean_all rngs t fault s).0.tables ≡ s.tables) × Failed (clean_all rngs t fault s).1)
unfolding clean_all
clean_all-outcome rngs t fault s =
    let body = for_ranges (λ rng. clean rng t) rngs in
    let out = transaction body fault s in
    elim (transaction-Atomic (Cleaned rngs t) body fault s (for_ranges-Cleaned rngs t)) [
      | inl (done, cleaned) ↦
          let last = afterwards-Idle (vacuum_analyze t) fault out.0 (vacuum_analyze-Idle t) in
          inl (
            rw (clean_all, done) (subst (Cleaned rngs t s.tables) (sym last.0) cleaned),
            rw (clean_all, done) last.1,
          )
      | inr (failed, same) ↦
          let last = afterwards-Failed (vacuum_analyze t) fault out.0 out.1 failed in
          inr (last.0 ∙ same, last.1)
    ]

unknown-Idle :
    (rngs : List (ℕ × ℕ)) → Ensures Idle (for_ranges (λ rng. clean rng unknown_data_type) rngs)
unfolding for_ranges clean
unknown-Idle [] = λ fault s t e. ok-same e
  where
    ok-same : {s t : Session Db} → ok s ≡ ok t → t.tables ≡ s.tables
    ok-same e = cc
unknown-Idle (rng ∷ rngs) =
    and_then-Ensures Idle-trans (fail_with-Ensures Idle _) (unknown-Idle rngs)

-- Clean of a data type that it does not know changes no table and fails, on any ranges, also on none.
pub clean_all-unknown :
    (rngs : List (ℕ × ℕ)) (fault : ℕ → Option String) (s : Session Db)
    → ((clean_all rngs unknown_data_type fault s).0.tables ≡ s.tables)
      × Failed (clean_all rngs unknown_data_type fault s).1
unfolding clean_all vacuum_analyze
clean_all-unknown rngs fault s =
    let body = for_ranges (λ rng. clean rng unknown_data_type) rngs in
    let out = transaction body fault s in
    let last = afterwards-fail_with _ fault out.0 out.1 in
    elim (transaction-Atomic Idle body fault s (unknown-Idle rngs)) [
      | inl (done, same) ↦ (last.0 ∙ same, last.1)
      | inr (failed, same) ↦ (last.0 ∙ same, last.1)
    ]
