-- ===== src/Eth/Tables/Ranges.antt =====
-- The rows of a block range, as the joins of pkg/eth/cleaner.go select them.
use ipfs_blockchain_watcher.Prelude.{ℕ, ◌≡◌, refl, Bool, true, false, ◌&&◌, any, arith}
use ipfs_blockchain_watcher.Shared.ChainType.{
  DataType, unknown_data_type, full, headers, uncles, transactions, receipts, state, storage,
}
use ipfs_blockchain_watcher.Sql.Rows.{HeaderRow, CidRow, between, any-remove, any-remove-false}
use ipfs_blockchain_watcher.Eth.Tables.{
  Db, Targets, is_header, is_row, header_dead, uncle_dead, transaction_dead, state_dead,
  receipt_dead, storage_dead, cascade,
}

module _ (rng : ℕ × ℕ) where
  abbrev pub in_range : HeaderRow → Bool
  in_range h = between rng h.block_number

  -- Whether the header, the transaction or the state node with an id is in the range.
  unfoldable pub header_in : Db → ℕ → Bool
  header_in d i = any (λ h. is_header i h && in_range h) d.header_cids

  abbrev pub in_header : Db → CidRow → Bool
  in_header d r = header_in d r.parent

  unfoldable pub transaction_in : Db → ℕ → Bool
  transaction_in d i = any (λ r. is_row i r && in_header d r) d.transaction_cids

  unfoldable pub state_in : Db → ℕ → Bool
  state_in d i = any (λ r. is_row i r && in_header d r) d.state_cids

  -- Whether there is a row of a data type in the range.
  unfoldable pub selected : DataType → Db → Bool
  selected unknown_data_type d = false
  selected full d = any in_range d.header_cids
  selected headers d = any in_range d.header_cids
  selected uncles d = any (in_header d) d.uncle_cids
  selected transactions d = any (in_header d) d.transaction_cids
  selected receipts d = any (λ r. transaction_in d r.parent) d.receipt_cids
  selected state d = any (in_header d) d.state_cids
  selected storage d = any (λ r. state_in d r.parent) d.storage_cids

  both : (a b c : Bool) → (b ≡ true → c ≡ true) → (a && b) ≡ true → (a && c) ≡ true
  both a b c h e = ground (arith, h)

  module _ (t : Targets) (d : Db) where
    header_in-cascade : (i : ℕ) → header_in (cascade t d) i ≡ true → header_in d i ≡ true
    unfolding header_in cascade
    header_in-cascade i e =
        any-remove (header_dead t d) _ (λ h. is_header i h && in_range h) d.header_cids (λ h k. k) e

    row_in :
        (i : ℕ) (r : CidRow)
        → (is_row i r && in_header (cascade t d) r) ≡ true
        → (is_row i r && in_header d r) ≡ true
    row_in i r =
        both (is_row i r) (in_header (cascade t d) r) (in_header d r) (header_in-cascade r.parent)

    transaction_in-cascade :
        (i : ℕ) → transaction_in (cascade t d) i ≡ true → transaction_in d i ≡ true
    unfolding transaction_in cascade
    transaction_in-cascade i e =
        any-remove (transaction_dead t d) _ (λ r. is_row i r && in_header d r) d.transaction_cids
          (row_in i) e

    state_in-cascade : (i : ℕ) → state_in (cascade t d) i ≡ true → state_in d i ≡ true
    unfolding state_in cascade
    state_in-cascade i e =
        any-remove (state_dead t d) _ (λ r. is_row i r && in_header d r) d.state_cids (row_in i) e

    -- A deletion brings no row into a range.
    pub selected-cascade :
        (type : DataType) → selected type (cascade t d) ≡ true → selected type d ≡ true
    unfolding selected cascade
    selected-cascade unknown_data_type e = e
    selected-cascade full e = any-remove (header_dead t d) _ in_range d.header_cids (λ h k. k) e
    selected-cascade headers e = any-remove (header_dead t d) _ in_range d.header_cids (λ h k. k) e
    selected-cascade uncles e =
        any-remove (uncle_dead t d) _ (in_header d) d.uncle_cids (λ r. header_in-cascade r.parent) e
    selected-cascade transactions e =
        any-remove (transaction_dead t d) _ (in_header d) d.transaction_cids
          (λ r. header_in-cascade r.parent) e
    selected-cascade receipts e =
        any-remove (receipt_dead t d) _ (λ r. transaction_in d r.parent) d.receipt_cids
          (λ r. transaction_in-cascade r.parent) e
    selected-cascade state e =
        any-remove (state_dead t d) _ (in_header d) d.state_cids (λ r. header_in-cascade r.parent) e
    selected-cascade storage e =
        any-remove (storage_dead t d) _ (λ r. state_in d r.parent) d.storage_cids
          (λ r. state_in-cascade r.parent) e

    -- Which rows a deletion has to name for a data type.
    abbrev pub Names : DataType → Type 0
    Names unknown_data_type = Unit
    Names full = (h : HeaderRow) → in_range h ≡ true → t.header_cids h ≡ true
    Names headers = (h : HeaderRow) → in_range h ≡ true → t.header_cids h ≡ true
    Names uncles = (r : CidRow) → in_header d r ≡ true → t.uncle_cids r ≡ true
    Names transactions = (r : CidRow) → in_header d r ≡ true → t.transaction_cids r ≡ true
    Names receipts = (r : CidRow) → transaction_in d r.parent ≡ true → t.receipt_cids r ≡ true
    Names state = (r : CidRow) → in_header d r ≡ true → t.state_cids r ≡ true
    Names storage = (r : CidRow) → state_in d r.parent ≡ true → t.storage_cids r ≡ true

    pub Names-selected : (type : DataType) → Names type → selected type (cascade t d) ≡ false
    unfolding selected cascade
    Names-selected unknown_data_type n = refl
    Names-selected full n =
        any-remove-false (header_dead t d) in_range d.header_cids (λ h e. ground (arith, n h))
    Names-selected headers n =
        any-remove-false (header_dead t d) in_range d.header_cids (λ h e. ground (arith, n h))
    Names-selected uncles n =
        any-remove-false (uncle_dead t d) _ d.uncle_cids
          (λ r e. ground (arith, n r (header_in-cascade r.parent e)))
    Names-selected transactions n =
        any-remove-false (transaction_dead t d) _ d.transaction_cids
          (λ r e. ground (arith, n r (header_in-cascade r.parent e)))
    Names-selected receipts n =
        any-remove-false (receipt_dead t d) _ d.receipt_cids
          (λ r e. ground (arith, n r (transaction_in-cascade r.parent e)))
    Names-selected state n =
        any-remove-false (state_dead t d) _ d.state_cids
          (λ r e. ground (arith, n r (header_in-cascade r.parent e)))
    Names-selected storage n =
        any-remove-false (storage_dead t d) _ d.storage_cids
          (λ r e. ground (arith, n r (state_in-cascade r.parent e)))
