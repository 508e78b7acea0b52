-- ===== src/Ipld/TrieNode.antt =====
-- pkg/ipfs/ipld/trie_node.go, with shared.go: decoding the nodes of Ethereum's tries. An interface{}
-- that RLP decodes to is a byte slice or a list; what is in a list is not looked at.
pub mod Compact
use Prim.Native.String.{◌++◌ as str_append}
use ipfs_blockchain_watcher.Prelude.{
  ℕ, ◌+◌, ◌/◌, ◌==◌, Bool, String, List, [], ◌∷◌, ◌++◌, Option, none, some, not, length, is_empty,
  if◌then◌else◌,
}
use ipfs_blockchain_watcher.Prelude.Int.{ℤ, pos, eq_ℤ}
use ipfs_blockchain_watcher.Prelude.Results.{Result, ok, err, panic, ◌>>=◌}
use ipfs_blockchain_watcher.Ipld.Path.{nibble_to_byte}

pub data Item : Type 0 where
  bytes : List ℕ → Item
  nested : Item

-- What the decoder uses of go-ethereum's rlp, go-multihash, go-cid and fmt.
-- What a path resolves to: a link, or a value inside of the node.
pub data Found (Cid Value : Type 0) : Type 0 where
  to : Cid → Found Cid Value
  inside : Value → Found Cid Value

pub record IpldLib : Type 1 where
  pub Cid : Type 0
  -- A node.Node that a leaf holds: an account, a transaction or a receipt.
  pub Object : Type 0
  pub Value : Type 0
  -- Resolve of such a node.
  pub resolve_object : Object → List (List ℕ) → Result (Found Cid Value × List (List ℕ))
  pub decode_bytes : List ℕ → Result (List Item)
  pub cid_type : Cid → ℕ
  -- mh.Encode with KECCAK_256
  pub encode_keccak256 : List ℕ → Result (List ℕ)
  pub new_cid_v1 : ℕ → List ℕ → Cid
  -- %+v of an item, %v of a byte slice and %d.
  pub show_item : Item → String
  pub show_bytes : List ℕ → String
  pub show_int : ℕ → String

pub data NodeKind : Type 0 where
  leaf extension branch : NodeKind

module _ (lib : IpldLib) where
  open lib use {Cid, Object}

  -- An interface{} of `elements`; `absent` is nil.
  pub data Element : Type 0 where
    nibbles : List ℕ → Element
    link : Cid → Element
    object : Object → Element
    absent : Element

  -- A node made by the tries of transactions and receipts has neither kind nor elements; those that
  -- the decoder makes have both.
  pub record TrieNode : Type 0 where
    pub node_kind : NodeKind
    pub elements : List Element
    pub cid : Cid
    pub rawdata : List ℕ

  unfoldable pub keccak256_to_cid : ℕ → List ℕ → Result Cid
  keccak256_to_cid codec h = elim (lib.encode_keccak256 h) [
    | ok buf ↦ ok (lib.new_cid_v1 codec buf)
    | err e ↦ panic
    | panic ↦ panic
  ]

  -- slice[n:], which panics past the end.
  abbrev pub slice_from : ℕ → List ℕ → Result (List ℕ)
  slice_from ℕ.zero s = ok s
  slice_from (ℕ.suc n) [] = panic
  slice_from (ℕ.suc n) (b ∷ s) = slice_from n s

  -- An index out of range and a failed type assertion panic.
  unfoldable pub decode_compact_key : List Item → Result (NodeKind × List ℕ × List ℕ)
  unfolding nibble_to_byte
  decode_compact_key (bytes first ∷ bytes last ∷ rest) = elim first [
    | [] ↦ panic
    | b ∷ more ↦
        let even = slice_from 2 (nibble_to_byte (b ∷ more)) in
        let odd = slice_from 1 (nibble_to_byte (b ∷ more)) in
        if (b / 16) == 0
        then even >>= (λ key. ok (extension, key, last))
        else if (b / 16) == 1
        then odd >>= (λ key. ok (extension, key, last))
        else if (b / 16) == 2
        then even >>= (λ key. ok (leaf, key, last))
        else if (b / 16) == 3
        then odd >>= (λ key. ok (leaf, key, last))
        else err "unknown hex prefix"
  ]
  decode_compact_key i = panic

  unfoldable pub parse_trie_node_extension : ℕ → List ℕ → List ℕ → Result (List Element)
  unfolding keccak256_to_cid
  parse_trie_node_extension codec key value =
      keccak256_to_cid codec value >>= λ c. ok (nibbles key ∷ link c ∷ [])

  -- One entry of a branch, at a position.
  unfoldable pub parse_branch_entry : ℕ → ℕ → Item → Result Element
  unfolding keccak256_to_cid
  parse_branch_entry codec i nested = err (
      str_append "unable to decode branch node entry into []byte at position: "
        (str_append (lib.show_int i) (str_append " value: " (lib.show_item nested))))
  parse_branch_entry codec i (bytes v) =
      if length v == 0
      then ok absent
      else if length v == 32
      then keccak256_to_cid codec v >>= (λ c. ok (link c))
      else err (str_append "unrecognized object: " (lib.show_bytes v))

  unfoldable pub parse_branch_from : ℕ → ℕ → List Item → Result (List Element)
  unfolding parse_branch_entry
  parse_branch_from codec i [] = ok []
  parse_branch_from codec i (v ∷ vs) = do
    e ← parse_branch_entry codec i v
    es ← parse_branch_from codec (i + 1) vs
    ok (e ∷ es)

  unfoldable pub parse_trie_node_branch : List Item → ℕ → Result (List Element)
  unfolding parse_branch_from
  parse_trie_node_branch i codec = parse_branch_from codec 0 i

  -- The error of a leaf decoder is dropped, and the elements are those that it returned with it:
  -- none.
  unfoldable pub decode_leaf :
      (List ℕ → List ℕ → Result (List Element)) → List ℕ → List ℕ → Result (List Element)
  decode_leaf leaf_decoder key value = elim (leaf_decoder key value) [
    | ok elements ↦ ok elements
    | err e ↦ ok []
    | panic ↦ panic
  ]

  unfoldable pub decode_pair :
      ℕ → (List ℕ → List ℕ → Result (List Element)) → List Item → Result (NodeKind × List Element)
  unfolding decode_compact_key parse_trie_node_extension decode_leaf
  decode_pair codec leaf_decoder i = do
    (kind, key, value) ← decode_compact_key i
    elements ← elim kind [
      | extension ↦ parse_trie_node_extension codec key value
      | leaf ↦ decode_leaf leaf_decoder key value
      | branch ↦ err "unexpected nodeKind returned from decoder"
    ]
    ok (kind, elements)

  unfoldable pub decode_trie_node :
      Cid → List ℕ → (List ℕ → List ℕ → Result (List Element)) → Result TrieNode
  unfolding decode_pair parse_trie_node_branch
  decode_trie_node c b leaf_decoder = do
    i ← lib.decode_bytes b
    let codec = lib.cid_type c
    (kind, elements) ←
        (if length i == 2
          then decode_pair codec leaf_decoder i
          else if length i == 17
          then parse_trie_node_branch i codec >>= (λ es. ok (branch, es))
          else err "unknown trie node type")
    ok (record { node_kind = kind; elements = elements; cid = c; rawdata = b })

  -- decodeEthStorageTrieLeaf
  unfoldable pub decode_eth_storage_trie_leaf : List ℕ → List ℕ → Result (List Element)
  decode_eth_storage_trie_leaf key value = ok (nibbles key ∷ nibbles value ∷ [])

  abbrev pub links_of : List Element → List Cid
  links_of [] = []
  links_of (link c ∷ es) = c ∷ links_of es
  links_of (nibbles s ∷ es) = links_of es
  links_of (object o ∷ es) = links_of es
  links_of (absent ∷ es) = links_of es

  unfoldable pub links : TrieNode → List Cid
  links t = links_of t.elements
