-- ===== src/Eth/Retrieval/Receipts.antt =====
-- What a subscriber gets live, from the filterer, against what it gets of the past, from Postgres.
use ipfs_blockchain_watcher.Prelude.{
  ℕ, ◌≤◌, ◌≡◌, refl, ◌∙◌, sym, ap, ◌==◌, Bool, true, false, ◌&&◌, ◌||◌, not, String, List, [], ◌∷◌,
  some, any, any-&&, any-any, any-ext, is_empty, has_string, str_eq, if◌then◌else◌, arith,
  Bool-cases, inl, inr, length,
}
use ipfs_blockchain_watcher.Prelude.Int.{ℤ, eq_ℤ}
use ipfs_blockchain_watcher.Eth.Settings.{TxFilter, ReceiptFilter}
use ipfs_blockchain_watcher.Eth.Models.{TxModel, ReceiptModel}
use ipfs_blockchain_watcher.Eth.Checks.{check_transaction_addrs, check_receipts, filter_match}
use ipfs_blockchain_watcher.Eth.Checks.Topics.{filter_match-slots}
use ipfs_blockchain_watcher.Eth.Retrieval.{
  overlaps, tx_where, has_topics, topic_column, topic_clause, rct_where,
}

-- A transaction that the historical query returns also passes the live filter, and the two agree
-- where at most one of the sender and recipient lists is given.
pub tx_where-live :
    (filter : TxFilter) (row : TxModel)
    → (tx_where filter row ≡ true
        → check_transaction_addrs filter.src filter.dst row.src row.dst ≡ true)
      × ((is_empty filter.src || is_empty filter.dst) ≡ true
          → check_transaction_addrs filter.src filter.dst row.src row.dst ≡ tx_where filter row)
unfolding tx_where check_transaction_addrs
tx_where-live filter row = by_lists filter.src filter.dst
  where
    live : List String → List String → Bool
    live src dst = check_transaction_addrs src dst row.src row.dst

    past : List String → List String → Bool
    past src dst =
        (is_empty dst || has_string dst row.dst) && (is_empty src || has_string src row.src)

    by_lists :
        (src dst : List String)
        → (past src dst ≡ true → live src dst ≡ true)
          × ((is_empty src || is_empty dst) ≡ true → live src dst ≡ past src dst)
    by_lists [] [] = (λ h. ground arith, λ h. ground arith)
    by_lists [] (d ∷ ds) = (λ h. ground arith, λ h. ground arith)
    by_lists (s ∷ ss) [] = (λ h. ground arith, λ h. ground arith)
    by_lists (s ∷ ss) (d ∷ ds) = (λ h. ground arith, λ h. ground arith)

-- The topics of a receipt's row, as the filterer sees them.
abbrev pub topics_of : ReceiptModel → List (List String)
topics_of row = row.topic0s ∷ row.topic1s ∷ row.topic2s ∷ row.topic3s ∷ []

-- Of at most four slots, some of them given: the query's clause is the live topic filter.
topic_clause-filter_match :
    (row : ReceiptModel) (topics : List (List String))
    → length topics ≤ 4
    → has_topics topics ≡ true
    → topic_clause row 0 topics ≡ some (filter_match topics (topics_of row))
unfolding topic_clause has_topics topic_column
topic_clause-filter_match row [] l h = cc
topic_clause-filter_match row (a ∷ []) l h =
    rw (filter_match-slots (a ∷ []) row.topic0s row.topic1s row.topic2s row.topic3s) (ground arith)
topic_clause-filter_match row (a ∷ b ∷ []) l h =
    rw (filter_match-slots (a ∷ b ∷ []) row.topic0s row.topic1s row.topic2s row.topic3s)
      (ground arith)
topic_clause-filter_match row (a ∷ b ∷ c ∷ []) l h =
    rw (filter_match-slots (a ∷ b ∷ c ∷ []) row.topic0s row.topic1s row.topic2s row.topic3s)
      (ground arith)
topic_clause-filter_match row (a ∷ b ∷ c ∷ d ∷ []) l h =
    rw (filter_match-slots (a ∷ b ∷ c ∷ d ∷ []) row.topic0s row.topic1s row.topic2s row.topic3s)
      (ground arith)
topic_clause-filter_match row (a ∷ b ∷ c ∷ d ∷ e ∷ more) l h = absurd (omega arith)

no_topics-filter_match :
    (topics : List (List String)) (row : ReceiptModel)
    → has_topics topics ≡ false
    → filter_match topics (topics_of row) ≡ true
unfolding has_topics
no_topics-filter_match [] row h = rw filter_match-slots
no_topics-filter_match (a ∷ []) row h = rw filter_match-slots (ground arith)
no_topics-filter_match (a ∷ b ∷ []) row h = rw filter_match-slots (ground arith)
no_topics-filter_match (a ∷ b ∷ c ∷ []) row h = rw filter_match-slots (ground arith)
no_topics-filter_match (a ∷ b ∷ c ∷ d ∷ more) row h = rw filter_match-slots (ground arith)

-- The live test's nested loops over the addresses.
any_address :
    (matched : Bool) (wanted actual : List String)
    → any (λ w. any (λ a. str_eq w a && matched) actual) wanted
      ≡ (any (λ w. any (λ a. str_eq w a) actual) wanted && matched)
any_address matched wanted actual =
    any-ext _ _ wanted (λ w. any-&& (λ a. str_eq w a) matched actual)
    ∙ any-&& (λ w. any (λ a. str_eq w a) actual) matched wanted

address_hits :
    (matched : Bool) (wanted actual : List String)
    → any (λ w. any (λ a. str_eq w a && matched) actual) wanted
      ≡ (overlaps actual wanted && matched)
address_hits matched wanted actual =
    any_address matched wanted actual ∙ ap (λ b. b && matched) (any-any str_eq wanted actual)

any_of_empty {ℓ} : {A : Type ℓ} (p : A → Bool) (xs : List A) → is_empty xs ≡ true → any p xs ≡ false
any_of_empty p [] h = refl
any_of_empty p (x ∷ xs) h = cc

topics_given : (topics : List (List String)) → has_topics topics ≡ true → is_empty topics ≡ false
unfolding has_topics
topics_given [] h = sym h
topics_given (t ∷ ts) h = refl

-- For a filter of at most four topic slots, the query and the live filter select the same receipts
-- if the live filter is given the hashes of the returned transactions and the query their ids: none
-- of the former exactly when there is none of the latter, and a receipt is of one of the former
-- exactly when its row is of one of the latter. One case is excluded: pairing with transactions,
-- when there are some, with no address and no topic given.
pub check_receipts-rct_where :
    (filter : ReceiptFilter) (row : ReceiptModel) (tx_hash : ℕ) (hashes : List ℕ) (ids : List ℤ)
    → length filter.topics ≤ 4
    → is_empty hashes ≡ is_empty ids
    → any (λ h. h == tx_hash) hashes ≡ any (λ id. eq_ℤ id row.tx_id) ids
    → (is_empty filter.log_addresses
        && (not (has_topics filter.topics) && (filter.match_txs && not (is_empty ids))))
      ≡ false
    → rct_where filter ids row
      ≡ some (
          check_receipts tx_hash filter.topics
            (topics_of row)
            filter.log_addresses
            row.log_contracts
            (if filter.match_txs then hashes else []))
unfolding rct_where check_receipts
check_receipts-rct_where filter row tx_hash hashes ids l e m c =
    let topics = filter.topics in
    let matched = filter_match topics (topics_of row) in
    let empty = any_of_empty (λ h. h == tx_hash) hashes in
    let hits = address_hits matched filter.log_addresses row.log_contracts in
    elim (Bool-cases (has_topics topics)) [
      | inl given ↦
          rw (given, topic_clause-filter_match row topics l given, topics_given topics given, hits)
            (ground (arith, empty))
      | inr none_given ↦
          rw (none_given, hits, no_topics-filter_match topics row none_given)
            (ground (arith, empty))
    ]

-- With neither addresses nor topics given and some transactions returned, pairing with transactions
-- has no effect on the live filter, which passes every receipt, while the query returns only the
-- receipts of the returned transactions.
pub match_txs-differs :
    (filter : ReceiptFilter) (row : ReceiptModel) (tx_hash : ℕ) (hashes : List ℕ) (ids : List ℤ)
    → has_topics filter.topics ≡ false
    → is_empty filter.log_addresses ≡ true
    → filter.match_txs ≡ true
    → is_empty ids ≡ false
    → (check_receipts tx_hash filter.topics
          (topics_of row)
          filter.log_addresses
          row.log_contracts
          hashes
        ≡ true)
      × (rct_where filter ids row ≡ some (any (λ id. eq_ℤ id row.tx_id) ids))
unfolding rct_where check_receipts
match_txs-differs filter row tx_hash hashes ids t a m i =
    (rw (a, no_topics-filter_match filter.topics row t) (ground arith), rw (t, a, m, i))
