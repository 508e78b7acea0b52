-- ===== src/Btc/Cleaner/Outcome.antt =====
-- What Clean of the Bitcoin tables returns, and what it did to the tables then.
use ipfs_blockchain_watcher.Prelude.{
  ℕ, ◌≡◌, sym, ◌∙◌, subst, String, Bool, true, false, List, [], ◌∷◌, Option, ◌⊎◌, inl, inr, any,
  All, arith,
}
use ipfs_blockchain_watcher.Prelude.Results.{ok}
use ipfs_blockchain_watcher.Shared.ChainType.{
  DataType, unknown_data_type, full, headers, uncles, transactions, receipts, state, storage,
}
use ipfs_blockchain_watcher.Sql.{Session, Statement, and_then, transaction, for_ranges}
use ipfs_blockchain_watcher.Sql.Atomic.{
  Ensures, exec-Ensures, fail_with-Ensures, and_then-Ensures, transaction-Atomic,
}
use ipfs_blockchain_watcher.Sql.Calls.{
  Failed, Idle, vacuum-Idle, vacuum-more, afterwards-Idle, afterwards-Failed,
}
use ipfs_blockchain_watcher.Btc.Tables.{
  Db, Targets, Consistent, cascade, in_range, in_header, cascade-Consistent, headers-cascade,
  transactions-cascade, headers-cleared, transactions-cleared,
}
use ipfs_blockchain_watcher.Btc.Cleaner.{
  delete, transaction_iplds, transaction_meta_data, header_iplds, header_meta_data, clean_full,
  clean, vacuum_analyze, clean_all,
}

-- Whether there is a row of a data type in the range.
unfoldable pub selected : ℕ × ℕ → DataType → Db → Bool
selected rng full d = any (in_range rng) d.header_cids
selected rng headers d = any (in_range rng) d.header_cids
selected rng transactions d = any (in_header rng d) d.transaction_cids
selected rng uncles d = false
selected rng receipts d = false
selected rng state d = false
selected rng storage d = false
selected rng unknown_data_type d = false

selected-cascade :
    (rng : ℕ × ℕ) (type : DataType) (t : Targets) (d : Db)
    → selected rng type (cascade t d) ≡ true
    → selected rng type d ≡ true
unfolding selected
selected-cascade rng full t d e = headers-cascade t d rng e
selected-cascade rng headers t d e = headers-cascade t d rng e
selected-cascade rng transactions t d e = transactions-cascade t d rng e
selected-cascade rng uncles t d e = e
selected-cascade rng receipts t d e = e
selected-cascade rng state t d e = e
selected-cascade rng storage t d e = e
selected-cascade rng unknown_data_type t d e = e

pub record Shrinks (d d' : Db) : Type 0 where
  pub fewer : (rng : ℕ × ℕ) (t : DataType) → selected rng t d' ≡ true → selected rng t d ≡ true
  pub consistent : Consistent d → Consistent d'

Shrinks-trans : (d m n : Db) → Shrinks d m → Shrinks m n → Shrinks d n
Shrinks-trans d m n f s = record {
  fewer = λ rng t e. f.fewer rng t (s.fewer rng t e);
  consistent = λ c. s.consistent (f.consistent c);
}

cascade-Shrinks : (t : Targets) (d : Db) → Shrinks d (cascade t d)
cascade-Shrinks t d = record {
  fewer = λ rng type. selected-cascade rng type t d;
  consistent = cascade-Consistent t d;
}

record Clears (rng : ℕ × ℕ) (t : DataType) (d d' : Db) : Type 0 where
  pub shrinks : Shrinks d d'
  pub cleared : selected rng t d' ≡ false

-- A deletion before those that clear the range.
after :
    {rng : ℕ × ℕ} {t : DataType} {b : Statement Db} (targets : Db → Targets)
    → Ensures (Clears rng t) b
    → Ensures (Clears rng t) (and_then (delete targets) b)
after targets =
    and_then-Ensures
      (λ d m n s c. record { shrinks = Shrinks-trans d m n s c.shrinks; cleared = c.cleared })
      (exec-Ensures Shrinks (λ d. cascade (targets d) d) (λ d. cascade-Shrinks (targets d) d))

last-Clears :
    (rng : ℕ × ℕ) (t : DataType) (targets : Db → Targets)
    → ((d : Db) → selected rng t (cascade (targets d) d) ≡ false)
    → Ensures (Clears rng t) (delete targets)
last-Clears rng t targets none_left =
    exec-Ensures (Clears rng t) (λ d. cascade (targets d) d)
      (λ d. record { shrinks = cascade-Shrinks (targets d) d; cleared = none_left d })

clean_full-Clears :
    (rng : ℕ × ℕ) (t : DataType)
    → ((d : Db) → selected rng t (cascade (header_meta_data rng d) d) ≡ false)
    → Ensures (Clears rng t) (clean_full rng)
unfolding clean_full
clean_full-Clears rng t none_left =
    after (transaction_iplds rng)
      (after (header_iplds rng) (last-Clears rng t (header_meta_data rng) none_left))

clean-Clears : (rng : ℕ × ℕ) (t : DataType) → Ensures (Clears rng t) (clean rng t)
unfolding clean selected
clean-Clears rng full =
    clean_full-Clears rng full (λ d. headers-cleared (header_meta_data rng d) d rng (λ h e. e))
clean-Clears rng headers =
    clean_full-Clears rng headers (λ d. headers-cleared (header_meta_data rng d) d rng (λ h e. e))
clean-Clears rng transactions = after (transaction_iplds rng) (
    last-Clears rng transactions (transaction_meta_data rng)
      (λ d. transactions-cleared (transaction_meta_data rng d) d rng (λ r e. e)))
clean-Clears rng uncles = fail_with-Ensures (Clears rng uncles) _
clean-Clears rng receipts = fail_with-Ensures (Clears rng receipts) _
clean-Clears rng state = fail_with-Ensures (Clears rng state) _
clean-Clears rng storage = fail_with-Ensures (Clears rng storage) _
clean-Clears rng unknown_data_type = fail_with-Ensures (Clears rng unknown_data_type) _

-- What Clean promises of the tables before it and after it.
pub record Cleaned (rngs : List (ℕ × ℕ)) (t : DataType) (d d' : Db) : Type 0 where
  pub shrinks : Shrinks d d'
  pub cleared : All (λ rng. selected rng t d' ≡ false) rngs

false_before : (a b : Bool) → (a ≡ true → b ≡ true) → b ≡ false → a ≡ false
false_before a b h e = ground (arith, h)

for_ranges-Cleaned :
    (rngs : List (ℕ × ℕ)) (t : DataType)
    → Ensures (Cleaned rngs t) (for_ranges (λ rng. clean rng t) rngs)
unfolding for_ranges
for_ranges-Cleaned [] t = λ fault s u e.
    subst (λ x. Cleaned [] t s.tables x.tables) (ok-same e)
      (record { shrinks = record { fewer = λ rng type h. h; consistent = λ c. c }; cleared = tt })
  where
    ok-same : {s u : Session Db} → ok s ≡ ok u → s ≡ u
    ok-same e = cc
for_ranges-Cleaned (rng ∷ rngs) t =
    and_then-Ensures
      (λ d m n first rest. record {
        shrinks = Shrinks-trans d m n first.shrinks rest.shrinks;
        cleared = (
          false_before (selected rng t n) (selected rng t m) (rest.shrinks.fewer rng t)
              first.cleared,
          rest.cleared,
        );
      })
      (clean-Clears rng t) (for_ranges-Cleaned rngs t)

vacuum_analyze-Idle : (t : DataType) → Ensures Idle (vacuum_analyze t)
unfolding vacuum_analyze
vacuum_analyze-Idle full = vacuum-more (vacuum-more (vacuum-more (vacuum-more vacuum-Idle)))
vacuum_analyze-Idle headers = vacuum-more (vacuum-more (vacuum-more (vacuum-more vacuum-Idle)))
vacuum_analyze-Idle transactions = vacuum-more (vacuum-more (vacuum-more vacuum-Idle))
vacuum_analyze-Idle uncles = fail_with-Ensures Idle _
vacuum_analyze-Idle receipts = fail_with-Ensures Idle _
vacuum_analyze-Idle state = fail_with-Ensures Idle _
vacuum_analyze-Idle storage = fail_with-Ensures Idle _
vacuum_analyze-Idle unknown_data_type = fail_with-Ensures Idle _

-- Clean of the Bitcoin tables, whichever statements the database refuses, either has done all its
-- deletions: no row of the data type is left in any of the ranges, no deletion brought a row into a
-- range, and foreign keys still hold where they held; it then returns no error or that of a later
-- VACUUM. Or it fails, and no table changed.
pub btc_clean_all-outcome :
    (rngs : List (ℕ × ℕ)) (t : DataType) (fault : ℕ → Option String) (s : Session Db)
    → (Cleaned rngs t s.tables (clean_all rngs t fault s).0.tables
        × ((clean_all rngs t fault s).1 ≡ ok tt ⊎ Failed (clean_all rngs t fault s).1))
      ⊎ (((clean_all rngs t fault s).0.tables ≡ s.tables) × Failed (clean_all rngs t fault s).1)
unfolding clean_all
btc_clean_all-outcome rngs t fault s =
    let body = for_ranges (λ rng. clean rng t) rngs in
    let out = transaction body fault s in
    elim (transaction-Atomic (Cleaned rngs t) body fault s (for_ranges-Cleaned rngs t)) [
      | inl (done, cleaned) ↦
          let last = afterwards-Idle (vacuum_analyze t) fault out.0 (vacuum_analyze-Idle t) in
          inl (
            rw (clean_all, done) (subst (Cleaned rngs t s.tables) (sym last.0) cleaned),
            rw (clean_all, done) last.1,
          )
      | inr (failed, same) ↦
          let last = afterwards-Failed (vacuum_analyze t) fault out.0 out.1 failed in
          inr (last.0 ∙ same, last.1)
    ]
