-- ===== src/Ipld.antt =====
-- pkg/ipfs/ipld: trie nodes as IPLD objects.
pub mod Path
pub mod TrieNode
pub mod Resolve
