-- ===== src/Eth/Cleaner/Revalidation.antt =====
-- ResetValidation: which headers are to be validated again.
use ipfs_blockchain_watcher.Prelude.{ℕ, ◌≡◌, refl, sym, ap, ◌∙◌, String, List, [], ◌∷◌, Option, map}
use ipfs_blockchain_watcher.Prelude.Results.{ok}
use ipfs_blockchain_watcher.Sql.{Session, exec, for_ranges}
use ipfs_blockchain_watcher.Sql.Atomic.{
  Ensures, exec-Ensures, and_then-Ensures, Atomic, transaction-Atomic,
}
use ipfs_blockchain_watcher.Sql.Revalidate.{
  reset_header, revalidated, map-revalidated, map-revalidated_none,
}
use ipfs_blockchain_watcher.Eth.Tables.{Db}
use ipfs_blockchain_watcher.Eth.Cleaner.{reset_validation}

-- Only the headers' times_validated is different, and only in the ranges.
abbrev pub Reset : List (ℕ × ℕ) → Db → Db → Type 0
Reset rngs d d' = d' ≡ record d { header_cids = map (revalidated rngs) d.header_cids }

abbrev update : ℕ × ℕ → Db → Db
update rng d = record d { header_cids = map (reset_header rng) d.header_cids }

updates-Reset :
    (rngs : List (ℕ × ℕ)) → Ensures (Reset rngs) (for_ranges (λ rng. exec (update rng)) rngs)
unfolding for_ranges
updates-Reset [] = λ fault s t e. same e ∙ sym (whole s.tables)
  where
    same : {s t : Session Db} → ok s ≡ ok t → t.tables ≡ s.tables
    same e = cc

    whole : (d : Db) → record d { header_cids = map (revalidated []) d.header_cids } ≡ d
    whole d = ap {B = Db} (λ hs. record d { header_cids = hs }) (map-revalidated_none d.header_cids)
updates-Reset (rng ∷ rngs) =
    and_then-Ensures
      (λ d m n first rest.
        rest
        ∙ ap {B = Db} (λ (x : Db). record x { header_cids = map (revalidated rngs) x.header_cids })
            first
        ∙ ap {B = Db} (λ hs. record d { header_cids = hs })
            (map-revalidated rng rngs d.header_cids))
      (exec-Ensures (λ d d'. d' ≡ update rng d) (update rng) (λ d. refl)) (updates-Reset rngs)

-- ResetValidation of the Ethereum headers either succeeds, and then exactly the headers in one of the
-- ranges have the validation level 0, their other columns and all other rows are as before; or it
-- fails and changes nothing.
pub reset_validation-Atomic :
    (rngs : List (ℕ × ℕ)) (fault : ℕ → Option String) (s : Session Db)
    → Atomic (Reset rngs) s.tables (reset_validation rngs fault s)
unfolding reset_validation
reset_validation-Atomic rngs fault s =
    transaction-Atomic (Reset rngs) _ fault s (updates-Reset rngs)
