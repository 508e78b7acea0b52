-- ===== src/Eth/Indexer/Rows.antt =====
-- The columns of the rows that Index of an Ethereum block writes.
use mathlib.Core.Path.{ap₂}
use mathlib.Core.List.{Mem}
use ipfs_blockchain_watcher.Prelude.{
  ℕ, ◌≡◌, refl, ◌∙◌, true, String, List, [], ◌∷◌, Option, none, some, ==_iff, eq_iff, &&_parts,
  str_eq, if◌then◌else◌,
}
use ipfs_blockchain_watcher.Prelude.Int.{ℤ, pos, ◌+ℤ◌}
use ipfs_blockchain_watcher.Shared.Names.{same_text}
use ipfs_blockchain_watcher.Sql.Values.{Valued}
use ipfs_blockchain_watcher.Eth.Models.{
  HeaderModel, UncleModel, TxModel, ReceiptModel, StateNodeModel,
}
use ipfs_blockchain_watcher.Eth.Indexer.{
  StorageNodeModel, StateAccountModel, CidPayload, Index, same_child, same_node, same_id, null_hash,
}
use ipfs_blockchain_watcher.Eth.Indexer.Keeps.{Keeps, Keeps-refl, Keeps-trans}

same_text_eq : (a b : List ℕ) → same_text a b ≡ true → a ≡ b
same_text_eq [] [] e = refl
same_text_eq [] (d ∷ ds) e = absurd cc
same_text_eq (c ∷ cs) [] e = absurd cc
same_text_eq (c ∷ cs) (d ∷ ds) e =
    let (head, tail) = &&_parts _ _ e in
    ap₂ (λ (x : ℕ) (xs : List ℕ). x ∷ xs) ((==_iff c d).0 head) (same_text_eq cs ds tail)

pub same_child_eq : (a b : ℕ × String) → same_child a b ≡ true → a ≡ b
same_child_eq a b e =
    let (id, hash) = &&_parts _ _ e in
    ap₂ (λ (i : ℕ) (h : String). (i, h)) ((==_iff a.0 b.0).0 id) ((eq_iff a.1 b.1).0 hash)

pub same_node_eq : (a b : ℕ × List ℕ) → same_node a b ≡ true → a ≡ b
same_node_eq a b e =
    let (id, path) = &&_parts _ _ e in
    ap₂ (λ (i : ℕ) (p : List ℕ). (i, p)) ((==_iff a.0 b.0).0 id) (same_text_eq a.1 b.1 path)

pub same_id_eq : (a b : ℕ) → same_id a b ≡ true → a ≡ b
same_id_eq a b e = (==_iff a b).0 e

-- How often a header was validated, when its row is written.
abbrev pub times_after : Option HeaderModel → ℤ
times_after none = pos 1
times_after (some old) = old.times_validated +ℤ pos 1

-- A key as its column has it: the null hash is left out.
abbrev pub key_column : String → String
key_column key = if str_eq key null_hash then "" else key

module _ (hex_to_hash : String → ℕ) (bytes_to_hex : List ℕ → String) (payload : CidPayload) where
  -- The columns are those of an uncle of the payload with the row's hash.
  abbrev pub IsUncle : ℕ × String → UncleModel → Type 0
  IsUncle key row = Mem row payload.uncle_cids × (row.block_hash ≡ key.1)

  abbrev pub IsTransaction : ℕ × String → TxModel → Type 0
  IsTransaction key row = Mem row payload.transaction_cids × (row.tx_hash ≡ key.1)

  -- The columns are those of the receipt that the payload has for one of its transactions.
  abbrev pub IsReceipt : ℕ → ReceiptModel → Type 0
  IsReceipt tx_id row =
      (trx : TxModel) × Mem trx payload.transaction_cids
      × (payload.receipt_cids (hex_to_hash trx.tx_hash) ≡ some row)

  -- The columns are those of a state node of the payload with the row's path.
  abbrev pub IsState : ℕ × List ℕ → StateNodeModel → Type 0
  IsState key row =
      (node : StateNodeModel) × Mem node payload.state_node_cids
      × (node.path ≡ key.1)
      × (row ≡ record node { state_key = key_column node.state_key; diff = true })

  -- The columns are those of the account that the payload has for one of its state nodes.
  abbrev pub IsAccount : ℕ → StateAccountModel → Type 0
  IsAccount state_id row =
      (node : StateNodeModel) × Mem node payload.state_node_cids
      × (payload.state_accounts (bytes_to_hex node.path) ≡ some row)

  -- The columns are those of a storage node, with the row's path, of a state node of the payload.
  abbrev pub IsStorage : ℕ × List ℕ → StorageNodeModel → Type 0
  IsStorage key row =
      (node : StateNodeModel) × Mem node payload.state_node_cids
      × (s : StorageNodeModel) × Mem s (payload.storage_node_cids (bytes_to_hex node.path))
      × (s.path ≡ key.1)
      × (row ≡ record s { storage_key = key_column s.storage_key; diff = true })

  -- What a statement after the header's does to the tables.
  pub record Adds (d n : Index) : Type 0 where
    pub keeps : Keeps d n
    pub headers_same : n.header_cids ≡ d.header_cids
    pub uncles_valued : Valued same_child IsUncle d.uncle_cids n.uncle_cids
    pub transactions_valued : Valued same_child IsTransaction d.transaction_cids n.transaction_cids
    pub receipts_valued : Valued same_id IsReceipt d.receipt_cids n.receipt_cids
    pub states_valued : Valued same_node IsState d.state_cids n.state_cids
    pub accounts_valued : Valued same_id IsAccount d.state_accounts n.state_accounts
    pub storage_valued : Valued same_node IsStorage d.storage_cids n.storage_cids

  pub Adds-refl : (d : Index) → Adds d d
  Adds-refl d = record {
    keeps = Keeps-refl d;
    headers_same = refl;
    uncles_valued = λ k r. r;
    transactions_valued = λ k r. r;
    receipts_valued = λ k r. r;
    states_valued = λ k r. r;
    accounts_valued = λ k r. r;
    storage_valued = λ k r. r;
  }

  pub Adds-trans : (d m n : Index) → Adds d m → Adds m n → Adds d n
  Adds-trans d m n f s = record {
    keeps = Keeps-trans d m n f.keeps s.keeps;
    headers_same = s.headers_same ∙ f.headers_same;
    uncles_valued = λ k r. s.uncles_valued k (f.uncles_valued k r);
    transactions_valued = λ k r. s.transactions_valued k (f.transactions_valued k r);
    receipts_valued = λ k r. s.receipts_valued k (f.receipts_valued k r);
    states_valued = λ k r. s.states_valued k (f.states_valued k r);
    accounts_valued = λ k r. s.accounts_valued k (f.accounts_valued k r);
    storage_valued = λ k r. s.storage_valued k (f.storage_valued k r);
  }
