-- ===== src/Eth/Types/NodeTypes.antt =====
-- The numbers of trie node types in the tables.
use ipfs_blockchain_watcher.Prelude.{◌≡◌, refl}
use ipfs_blockchain_watcher.Eth.Types.{
  NodeType, unknown, other, resolve_from_node_type, resolve_to_node_type,
}

-- A type that is one of the five names, or the unknown one otherwise.
abbrev pub known : NodeType → NodeType
known (other name) = unknown
known t = t

-- The number of a node type is read back as that type, and that of a type of another name as the
-- unknown type.
pub resolve_to_node_type-resolve_from_node_type :
    (t : NodeType) → resolve_to_node_type (resolve_from_node_type t) ≡ known t
unfolding resolve_to_node_type resolve_from_node_type
resolve_to_node_type-resolve_from_node_type unknown = refl
resolve_to_node_type-resolve_from_node_type t = refl
