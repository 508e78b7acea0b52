-- ===== src/Eth/Indexer/Keeps.antt =====
-- No statement of Index loses a row, or changes an id.
use ipfs_blockchain_watcher.Prelude.{
  str_eq_refl, ℕ, ◌≡◌, refl, Bool, true, String, List, [], ◌∷◌, some, ==_refl,
}
use ipfs_blockchain_watcher.Shared.Names.{same_text}
use ipfs_blockchain_watcher.Sql.Upsert.{Table, find_id}
use ipfs_blockchain_watcher.Eth.Models.{HeaderModel}
use ipfs_blockchain_watcher.Eth.Indexer.{Index, same_header, same_child, same_node, same_id}

pub same_text_refl : (s : List ℕ) → same_text s s ≡ true
same_text_refl [] = refl
same_text_refl (c ∷ s) = rw (==_refl c) (same_text_refl s)

pub same_header_refl : (k : String × String) → same_header k k ≡ true
same_header_refl k = rw (str_eq_refl k.0, str_eq_refl k.1) refl

pub same_child_refl : (k : ℕ × String) → same_child k k ≡ true
same_child_refl k = rw (==_refl k.0, str_eq_refl k.1) refl

pub same_node_refl : (k : ℕ × List ℕ) → same_node k k ≡ true
same_node_refl k = rw (==_refl k.0, same_text_refl k.1) refl

-- Every key keeps its id.
abbrev pub Stable : {K V : Type 0} → (K → K → Bool) → Table K V → Table K V → Type 0
Stable {K} same t t' = (k : K) (i : ℕ) → find_id same k t ≡ some i → find_id same k t' ≡ some i

-- No row of any table is lost.
pub record Keeps (d n : Index) : Type 0 where
  pub headers_kept : Stable same_header d.header_cids n.header_cids
  pub uncles_kept : Stable same_child d.uncle_cids n.uncle_cids
  pub transactions_kept : Stable same_child d.transaction_cids n.transaction_cids
  pub receipts_kept : Stable same_id d.receipt_cids n.receipt_cids
  pub states_kept : Stable same_node d.state_cids n.state_cids
  pub accounts_kept : Stable same_id d.state_accounts n.state_accounts
  pub storage_kept : Stable same_node d.storage_cids n.storage_cids

pub Keeps-refl : (d : Index) → Keeps d d
Keeps-refl d = record {
  headers_kept = λ k i h. h;
  uncles_kept = λ k i h. h;
  transactions_kept = λ k i h. h;
  receipts_kept = λ k i h. h;
  states_kept = λ k i h. h;
  accounts_kept = λ k i h. h;
  storage_kept = λ k i h. h;
}

pub Keeps-trans : (d m n : Index) → Keeps d m → Keeps m n → Keeps d n
Keeps-trans d m n f s = record {
  headers_kept = λ k i h. s.headers_kept k i (f.headers_kept k i h);
  uncles_kept = λ k i h. s.uncles_kept k i (f.uncles_kept k i h);
  transactions_kept = λ k i h. s.transactions_kept k i (f.transactions_kept k i h);
  receipts_kept = λ k i h. s.receipts_kept k i (f.receipts_kept k i h);
  states_kept = λ k i h. s.states_kept k i (f.states_kept k i h);
  accounts_kept = λ k i h. s.accounts_kept k i (f.accounts_kept k i h);
  storage_kept = λ k i h. s.storage_kept k i (f.storage_kept k i h);
}

-- A statement on one table keeps all rows, if it keeps those of the table.
pub headers-Keeps :
    (d : Index) (t : Table (String × String) HeaderModel)
    → Stable same_header d.header_cids t
    → Keeps d (record d { header_cids = t })
headers-Keeps d t kept = record {
  headers_kept = kept;
  uncles_kept = λ k i h. h;
  transactions_kept = λ k i h. h;
  receipts_kept = λ k i h. h;
  states_kept = λ k i h. h;
  accounts_kept = λ k i h. h;
  storage_kept = λ k i h. h;
}
