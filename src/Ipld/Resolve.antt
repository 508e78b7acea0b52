-- ===== src/Ipld/Resolve.antt =====
-- pkg/ipfs/ipld/trie_node.go: following a path through a trie node, and listing its paths.
pub mod Follow
pub mod Nodes
use ipfs_blockchain_watcher.Prelude.{
  ℕ, ◌+◌, ◌-◌, ◌/◌, ◌%◌, ◌==◌, Bool, true, false, ◌&&◌, ◌||◌, not, String, List, [], ◌∷◌, ◌++◌,
  Option, none, some, length, get_elem?, ltb, any, is_empty, flat_map, if◌then◌else◌,
}
use ipfs_blockchain_watcher.Prelude.Int.{ℤ, pos, eq_ℤ}
use ipfs_blockchain_watcher.Prelude.Results.{Result, ok, err, panic, ◌>>=◌, or_panic}
use ipfs_blockchain_watcher.Ipld.Path.{text_len, shift_from_path, get_hex_index}
use ipfs_blockchain_watcher.Ipld.TrieNode.{
  IpldLib, Found, to, leaf, extension, branch, Element, nibbles, link, object, absent, TrieNode,
}

unfoldable pub hex_digit : ℕ → ℕ
hex_digit n = if ltb n 10 then b'0' + n else b'a' + (n - 10)

-- %x of a byte.
unfoldable pub show_hex : ℕ → List ℕ
unfolding hex_digit
show_hex n = if ltb n 16 then hex_digit n ∷ [] else hex_digit (n / 16) ∷ hex_digit (n % 16) ∷ []

unfoldable pub is_hex : ℕ → Bool
unfolding get_hex_index
is_hex c = elim (get_hex_index (c ∷ [])) [ none ↦ false | some n ↦ true ]

-- string(idx[i]) != fmt.Sprintf("%x", n) for some nibble: idx is ASCII text here. Where it has no
-- rune at a nibble's place the index panics.
unfoldable pub compare_nibbles : List ℕ → List ℕ → Result Bool
unfolding show_hex
compare_nibbles idx [] = ok true
compare_nibbles [] (n ∷ ns) = panic
compare_nibbles (c ∷ idx) (n ∷ ns) =
    let rest = compare_nibbles idx ns in
    if (length (show_hex n) == 1) && any (λ d. d == c) (show_hex n) then rest else ok false

-- What a key and a path leave of the path; the text is that of the error.
unfoldable pub take_key : String → List ℕ → List (List ℕ) → Result (List (List ℕ))
unfolding text_len shift_from_path is_hex compare_nibbles
take_key short key p =
    let (idx, rest) = shift_from_path p (length key) in
    if ltb (text_len idx) (length key)
    then err short
    else if any (λ c. not (is_hex c)) idx
    then err "invalid path element"
    else compare_nibbles idx key
      >>= (λ same. if same then ok rest else err "no such link in this extension")

module _ (lib : IpldLib) where
  open lib use {Cid, Object, Value}

  unfoldable pub resolve_trie_node_extension :
      List (Element lib) → List (List ℕ) → Result (Found Cid Value × List (List ℕ))
  unfolding take_key
  resolve_trie_node_extension (nibbles key ∷ value ∷ es) p =
      take_key "not enough nibbles to traverse this extension" key p >>= (λ rest. elim value [
        | link c ↦ ok (to c, rest)
        | nibbles v ↦ panic
        | object o ↦ panic
        | absent ↦ panic
      ])
  resolve_trie_node_extension es p = panic

  unfoldable pub resolve_trie_node_leaf :
      List (Element lib) → List (List ℕ) → Result (Found Cid Value × List (List ℕ))
  unfolding take_key
  resolve_trie_node_leaf (nibbles key ∷ value ∷ es) p = do
    rest ←
        (if length key == 0
          then ok p
          else take_key "not enough nibbles to traverse this leaf" key p)
    elim value [
      | object o ↦ lib.resolve_object o rest
      | link c ↦ err "leaf children is not an IPLD node"
      | nibbles v ↦ err "leaf children is not an IPLD node"
      | absent ↦ err "leaf children is not an IPLD node"
    ]
  resolve_trie_node_leaf es p = panic

  unfoldable pub resolve_trie_node_branch :
      List (Element lib) → List (List ℕ) → Result (Found Cid Value × List (List ℕ))
  unfolding shift_from_path get_hex_index
  resolve_trie_node_branch es p =
      let (idx, rest) = shift_from_path p 1 in
      elim (get_hex_index idx) [
        | none ↦ err "incorrect path"
        | some hidx ↦ or_panic (get_elem? es hidx) >>= (λ child. elim child [
          | absent ↦ err "no such link in this branch"
          | link c ↦ ok (to c, rest)
          | nibbles v ↦ panic
          | object o ↦ panic
        ])
      ]

  unfoldable pub resolve : TrieNode lib → List (List ℕ) → Result (Found Cid Value × List (List ℕ))
  unfolding resolve_trie_node_extension resolve_trie_node_leaf resolve_trie_node_branch
  resolve t p = elim t.node_kind [
    | extension ↦ resolve_trie_node_extension t.elements p
    | leaf ↦ resolve_trie_node_leaf t.elements p
    | branch ↦ resolve_trie_node_branch t.elements p
  ]

  unfoldable pub resolve_link : TrieNode lib → List (List ℕ) → Result (Cid × List (List ℕ))
  unfolding resolve
  resolve_link t p = resolve t p >>= (λ found. elim found.0 [
    | Found.to c ↦ ok (c, found.1)
    | Found.inside v ↦ err "was not a link"
  ])

  -- `elem.(*cid.Cid)`: the elements of a branch are of the type cid.Cid, or nil.
  abbrev pub is_cid_pointer : Element lib → Bool
  is_cid_pointer e = false

  abbrev pub pointer_indexes : ℕ → List (Element lib) → List (List ℕ)
  pointer_indexes i [] = []
  pointer_indexes i (e ∷ es) =
      let rest = pointer_indexes (i + 1) es in if is_cid_pointer e then show_hex i ∷ rest else rest

  -- nil and an empty slice are the same list.
  unfoldable pub tree : TrieNode lib → List ℕ → ℤ → Result (List (List ℕ))
  unfolding show_hex
  tree t p depth = if not (is_empty p) || eq_ℤ depth (pos 0) then ok [] else elim t.node_kind [
    | extension ↦ elim t.elements [
      | nibbles key ∷ es ↦ ok (flat_map show_hex key ∷ [])
      | es ↦ panic
    ]
    | branch ↦ ok (pointer_indexes 0 t.elements)
    | leaf ↦ ok []
  ]
