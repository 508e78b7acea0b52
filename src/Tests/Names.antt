-- ===== src/Tests/Names.antt =====
-- Names of chains, of types of data, of modes and of node types.
use ipfs_blockchain_watcher.Prelude.{ℕ, ◌≡◌, false}
use ipfs_blockchain_watcher.Shared.Names.{codes}
use ipfs_blockchain_watcher.Shared.ChainType.{
  bitcoin, chain_name, chain_api, new_chain_type, receipts, data_type_name,
  generate_data_type_from_string, direct_postgres, mode_name, new_ipfs_mode,
}
use ipfs_blockchain_watcher.Shared.ChainType.Laws.{
  generate_data_type_from_string-data_type_name, new_chain_type-names, new_ipfs_mode-mode_name,
}
use ipfs_blockchain_watcher.Eth.Types.{leaf, resolve_from_node_type, resolve_to_node_type}
use ipfs_blockchain_watcher.Eth.Types.NodeTypes.{resolve_to_node_type-resolve_from_node_type}

resolve_to_node_type-resolve_from_node_type_example :
    resolve_to_node_type (resolve_from_node_type leaf) ≡ leaf
resolve_to_node_type-resolve_from_node_type_example =
    resolve_to_node_type-resolve_from_node_type leaf

-- A lower case for letters outside ASCII: none changes.
abbrev same : ℕ → ℕ
same c = c

new_chain_type-names_example :
    (new_chain_type same (codes (chain_name bitcoin)) ≡ record { value = bitcoin; failed = false })
    × (new_chain_type same (codes (chain_api bitcoin)) ≡ record { value = bitcoin; failed = false })
new_chain_type-names_example = new_chain_type-names same bitcoin

generate_data_type_from_string-data_type_name_example :
    generate_data_type_from_string same (codes (data_type_name receipts))
    ≡ record { value = receipts; failed = false }
generate_data_type_from_string-data_type_name_example =
    generate_data_type_from_string-data_type_name same receipts

new_ipfs_mode-mode_name_example :
    new_ipfs_mode same (codes (mode_name direct_postgres))
    ≡ record { value = direct_postgres; failed = false }
new_ipfs_mode-mode_name_example = new_ipfs_mode-mode_name same direct_postgres
