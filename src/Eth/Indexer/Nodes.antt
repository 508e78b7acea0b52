-- ===== src/Eth/Indexer/Nodes.antt =====
-- What the statements of Index for state and storage nodes and accounts ensure.
use mathlib.Core.List.{Mem}
use ipfs_blockchain_watcher.Prelude.{
  All-map, ℕ, ◌≡◌, Bool, true, false, String, List, Option, none, some, All, ==_refl, refl, ap, not,
  str_eq, Bool-cases, inl, inr, if◌then◌else◌,
}
use ipfs_blockchain_watcher.Prelude.Int.{pos, eq_ℤ}
use ipfs_blockchain_watcher.Sql.{exec, and_then}
use ipfs_blockchain_watcher.Sql.Atomic.{Ensures, exec-Ensures, and_then-Ensures}
use ipfs_blockchain_watcher.Sql.Upsert.{
  upsert, upsert-find, upsert-keeps, done, for_each, query-Ensures, done-Ensures,
}
use ipfs_blockchain_watcher.Sql.Values.{upsert-Row, upsert-Valued, for_each-Ensures}
use ipfs_blockchain_watcher.Eth.Models.{StateNodeModel}
use ipfs_blockchain_watcher.Eth.Indexer.{
  StorageNodeModel, StateAccountModel, CidPayload, same_node, same_id, null_hash, index_state_cid,
  index_state_account, index_storage_cid, index_account_of, index_leaf, storage_row, state_row,
  index_state_and_storage,
}
use ipfs_blockchain_watcher.Eth.Indexer.Keeps.{same_node_refl}
use ipfs_blockchain_watcher.Eth.Indexer.Rows.{
  IsState, IsAccount, IsStorage, Adds, Adds-refl, Adds-trans, same_node_eq, same_id_eq, key_column,
}
use ipfs_blockchain_watcher.Eth.Indexer.Changes.{states-Adds, accounts-Adds, storage-Adds}
use ipfs_blockchain_watcher.Eth.Indexer.Links.{
  AccountIn, StorageIn, LeafIn, StateIn, StorageIn-kept,
}

module _ (hex_to_hash : String → ℕ) (bytes_to_hex : List ℕ → String) (payload : CidPayload) where
  key_column-if : (k : String) → (if not (str_eq k null_hash) then k else "") ≡ key_column k
  key_column-if k = elim (Bool-cases (str_eq k null_hash)) [ inl e ↦ rw e refl | inr e ↦ rw e refl ]

  storage_row-columns :
      (s : StorageNodeModel)
      → storage_row s ≡ record s { storage_key = key_column s.storage_key; diff = true }
  unfolding storage_row
  storage_row-columns s =
      ap (λ k. record s { storage_key = k; diff = true }) (key_column-if s.storage_key)

  state_row-columns :
      (node : StateNodeModel)
      → state_row node ≡ record node { state_key = key_column node.state_key; diff = true }
  unfolding state_row
  state_row-columns node =
      ap (λ k. record node { state_key = k; diff = true }) (key_column-if node.state_key)

  index_storage-StorageIn :
      (state : StateNodeModel) (state_id : ℕ) (node : StorageNodeModel)
      → Mem state payload.state_node_cids
      → Mem node (payload.storage_node_cids (bytes_to_hex state.path))
      → Ensures
          (λ d n.
            StorageIn hex_to_hash bytes_to_hex payload state_id node n
            × Adds hex_to_hash bytes_to_hex payload d n)
          (exec (index_storage_cid state_id node))
  unfolding index_storage_cid
  index_storage-StorageIn state state_id node in_payload in_state = exec-Ensures _ _ (λ d.
      let key : ℕ × List ℕ = (state_id, node.path) in
      let row = storage_row node in
      let good : IsStorage hex_to_hash bytes_to_hex payload key row =
        (state, in_payload, node, in_state, refl, storage_row-columns node) in
      (
        (
          (_, upsert-find same_node key row (λ old. row) d.storage_cids (same_node_refl key)),
          upsert-Row same_node (IsStorage hex_to_hash bytes_to_hex payload) key row d.storage_cids
              (same_node_refl key) good,
        ),
        storage-Adds hex_to_hash bytes_to_hex payload d _
            (upsert-keeps same_node key row (λ old. row) d.storage_cids)
            (upsert-Valued same_node same_node_eq (IsStorage hex_to_hash bytes_to_hex payload) key
              row d.storage_cids good),
      ))

  index_account-AccountIn :
      (node : StateNodeModel) (state_id : ℕ)
      → Mem node payload.state_node_cids
      → Ensures
          (λ d n.
            AccountIn hex_to_hash bytes_to_hex payload
              (payload.state_accounts (bytes_to_hex node.path))
              state_id
              n
            × Adds hex_to_hash bytes_to_hex payload d n)
          (index_account_of hex_to_hash bytes_to_hex payload (bytes_to_hex node.path) state_id)
  unfolding index_account_of index_state_account
  index_account-AccountIn node state_id in_payload =
      account_or_none (payload.state_accounts (bytes_to_hex node.path)) refl
    where
      account_or_none :
          (account : Option StateAccountModel)
          → payload.state_accounts (bytes_to_hex node.path) ≡ account
          → Ensures
              (λ d n.
                AccountIn hex_to_hash bytes_to_hex payload account state_id n
                × Adds hex_to_hash bytes_to_hex payload d n)
              (elim account [ none ↦ done | some a ↦ exec (index_state_account state_id a) ])
      account_or_none none e =
          done-Ensures _ (λ d. (tt, Adds-refl hex_to_hash bytes_to_hex payload d))
      account_or_none (some a) e = exec-Ensures _ _ (λ d.
          let good : IsAccount hex_to_hash bytes_to_hex payload state_id a =
            (node, in_payload, e) in
          (
            (
              (_, upsert-find same_id state_id a (λ old. a) d.state_accounts (==_refl state_id)),
              upsert-Row same_id (IsAccount hex_to_hash bytes_to_hex payload) state_id a
                  d.state_accounts (==_refl state_id) good,
            ),
            accounts-Adds hex_to_hash bytes_to_hex payload d _
                (upsert-keeps same_id state_id a (λ old. a) d.state_accounts)
                (upsert-Valued same_id same_id_eq (IsAccount hex_to_hash bytes_to_hex payload)
                  state_id a d.state_accounts good),
          ))

  index_leaf-LeafIn :
      (node : StateNodeModel) (state_id : ℕ)
      → Mem node payload.state_node_cids
      → Ensures
          (λ d n.
            LeafIn hex_to_hash bytes_to_hex payload node state_id n
            × Adds hex_to_hash bytes_to_hex payload d n)
          (index_leaf hex_to_hash bytes_to_hex payload node state_id)
  unfolding index_leaf
  index_leaf-LeafIn node state_id in_payload = leaf_or_not (eq_ℤ node.node_type (pos 2))
    where
      not_leaf : {P : Type 0} → false ≡ true → P
      not_leaf e = cc

      leaf_or_not :
          (b : Bool)
          → Ensures
              (λ d n.
                (b ≡ true
                  → All
                      (λ s. StorageIn hex_to_hash bytes_to_hex payload state_id s n)
                      (payload.storage_node_cids (bytes_to_hex node.path))
                    × AccountIn hex_to_hash bytes_to_hex payload
                        (payload.state_accounts (bytes_to_hex node.path))
                        state_id
                        n)
                × Adds hex_to_hash bytes_to_hex payload d n)
              (if b
                then and_then
                    (for_each
                      (λ s. exec (index_storage_cid state_id s))
                      (payload.storage_node_cids (bytes_to_hex node.path)))
                    (index_account_of hex_to_hash bytes_to_hex payload
                      (bytes_to_hex node.path)
                      state_id)
                else done)
      leaf_or_not false =
          done-Ensures _ (λ d. (not_leaf, Adds-refl hex_to_hash bytes_to_hex payload d))
      leaf_or_not true =
          and_then-Ensures
            (λ d m n first last. (
              (λ e. (
                All-map (payload.storage_node_cids (bytes_to_hex node.path))
                    (λ s. StorageIn-kept hex_to_hash bytes_to_hex payload state_id s m n last.1)
                    first.0,
                last.0,
              )),
              Adds-trans hex_to_hash bytes_to_hex payload d m n first.1 last.1,
            ))
            (for_each-Ensures (StorageIn hex_to_hash bytes_to_hex payload state_id)
              (Adds hex_to_hash bytes_to_hex payload) _ _
              (Adds-refl hex_to_hash bytes_to_hex payload)
              (Adds-trans hex_to_hash bytes_to_hex payload)
              (λ s d n kept. StorageIn-kept hex_to_hash bytes_to_hex payload state_id s d n kept)
              (λ s. index_storage-StorageIn node state_id s in_payload))
            (index_account-AccountIn node state_id in_payload)

  pub index_state-StateIn :
      (header_id : ℕ) (node : StateNodeModel)
      → Mem node payload.state_node_cids
      → Ensures
          (λ d n.
            StateIn hex_to_hash bytes_to_hex payload header_id node n
            × Adds hex_to_hash bytes_to_hex payload d n)
          (index_state_and_storage hex_to_hash bytes_to_hex payload header_id node)
  unfolding index_state_and_storage index_state_cid
  index_state-StateIn header_id node in_payload =
      query-Ensures
        (λ i d n.
          LeafIn hex_to_hash bytes_to_hex payload node i n
          × Adds hex_to_hash bytes_to_hex payload d n)
        _ _ _
        (λ d n (leaf, kept).
          let key : ℕ × List ℕ = (header_id, node.path) in
          let row = state_row node in
          let out = upsert same_node key row (λ old. row) d.state_cids in
          let found =
            upsert-find same_node key row (λ old. row) d.state_cids (same_node_refl key) in
          let good : IsState hex_to_hash bytes_to_hex payload key row =
            (node, in_payload, refl, state_row-columns node) in
          let its_row =
            upsert-Row same_node (IsState hex_to_hash bytes_to_hex payload) key row d.state_cids
              (same_node_refl key) good in
          (
            (out.0, kept.keeps.states_kept key out.0 found, kept.states_valued key its_row, leaf),
            Adds-trans hex_to_hash bytes_to_hex payload d (record d { state_cids = out.1 }) n
                (states-Adds hex_to_hash bytes_to_hex payload d _
                  (upsert-keeps same_node key row (λ old. row) d.state_cids)
                  (upsert-Valued same_node same_node_eq (IsState hex_to_hash bytes_to_hex payload)
                    key row d.state_cids good))
                kept,
          ))
        (λ state_id. index_leaf-LeafIn node state_id in_payload)
