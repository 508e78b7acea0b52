-- ===== src/Ipld/Resolve/Nodes.antt =====
-- A decoded node leads where the encoded one says.
use ipfs_blockchain_watcher.Prelude.{
  ℕ, zero, suc, ◌+◌, ◌<◌, ◌≡◌, refl, ap, ◌∙◌, ◌==◌, Bool, true, false, ◌||◌, List, [], ◌∷◌, ◌++◌,
  map, some, All, arith, length, get_elem?, if◌then◌else◌, Bool-cases, inl, inr,
}
use ipfs_blockchain_watcher.Prelude.Int.{ℤ, pos, eq_ℤ}
use ipfs_blockchain_watcher.Prelude.Results.{Result, ok}
use ipfs_blockchain_watcher.Ipld.Path.{shift_from_path}
use ipfs_blockchain_watcher.Ipld.Path.Shift.{
  text_of, IsAscii, take, drop, shift_from_path-splits, drop_zero,
}
use ipfs_blockchain_watcher.Ipld.TrieNode.{
  Item, bytes, nested, IpldLib, extension, branch, Element, nibbles, link, absent, TrieNode,
  keccak256_to_cid, parse_trie_node_extension, parse_branch_entry, parse_branch_from,
  parse_trie_node_branch, decode_pair, decode_trie_node,
}
use ipfs_blockchain_watcher.Ipld.TrieNode.Compact.{
  IsNibbles, hex_prefix, decode_compact_key-hex_prefix,
}
use ipfs_blockchain_watcher.Ipld.Resolve.{
  hex_digit, resolve_trie_node_extension, resolve_trie_node_branch, resolve, resolve_link, tree,
  pointer_indexes,
}
use ipfs_blockchain_watcher.Ipld.Resolve.Follow.{get_hex_index-hex_digit, take_key-follows}

-- An entry of a branch: no child, or a hash.
abbrev pub is_entry : Item → Bool
is_entry (bytes v) = (length v == 0) || (length v == 32)
is_entry nested = false

-- Multihashes are encoded without fail: with `mh` what is returned.
module _ (lib : IpldLib) (mh : List ℕ → List ℕ)
    (encodes : (h : List ℕ) → lib.encode_keccak256 h ≡ ok (mh h)) where
  cid_of-ok :
      (codec : ℕ) (h : List ℕ) → keccak256_to_cid lib codec h ≡ ok (lib.new_cid_v1 codec (mh h))
  unfolding keccak256_to_cid
  cid_of-ok codec h = rw (keccak256_to_cid, encodes h) refl

  -- An encoded extension is decoded, and a path of ASCII text that begins with its key's digits
  -- resolves to the link to its child; what is left of the path has the remaining text.
  pub extension-resolves :
      (c : lib.Cid) (b key h : List ℕ)
      (leaf_decoder : List ℕ → List ℕ → Result (List (Element lib))) (p : List (List ℕ))
      (tail : List ℕ)
      → lib.decode_bytes b ≡ ok (bytes (hex_prefix false key) ∷ bytes h ∷ [])
      → IsNibbles key
      → All IsAscii p
      → text_of p ≡ map hex_digit key ++ tail
      → (t : TrieNode lib) × (rest : List (List ℕ)) × (decode_trie_node lib c b leaf_decoder ≡ ok t)
        × (resolve_link lib t p ≡ ok (lib.new_cid_v1 (lib.cid_type c) (mh h), rest))
        × (text_of rest ≡ tail)
  unfolding decode_trie_node decode_pair parse_trie_node_extension resolve_link resolve
      resolve_trie_node_extension
  extension-resolves c b key h leaf_decoder p tail d n a e =
      let (rest, taken, left) =
        (take_key-follows "not enough nibbles to traverse this extension" key p n a).0 tail e in
      (
        record {
          node_kind = extension;
          elements = nibbles key ∷ link (lib.new_cid_v1 (lib.cid_type c) (mh h)) ∷ [];
          cid = c;
          rawdata = b;
        },
        rest,
        rw (d, decode_compact_key-hex_prefix lib false key h n, cid_of-ok (lib.cid_type c) h) refl,
        rw taken refl,
        left,
      )

  -- The children that a branch's entries stand for.
  abbrev element_of : ℕ → Item → Element lib
  element_of codec nested = absent
  element_of codec (bytes v) = if length v == 0 then absent else link (lib.new_cid_v1 codec (mh v))

  parse_branch_from-ok :
      (codec i : ℕ) (items : List Item)
      → All (λ v. is_entry v ≡ true) items
      → parse_branch_from lib codec i items ≡ ok (map (element_of codec) items)
  unfolding parse_branch_from parse_branch_entry
  parse_branch_from-ok codec i [] h = refl
  parse_branch_from-ok codec i (nested ∷ items) h = absurd (false-ne-true h.0)
    where
      false-ne-true : false ≡ true → ⊥
      false-ne-true e = cc
  parse_branch_from-ok codec i (bytes v ∷ items) h =
      let rest = parse_branch_from-ok codec (i + 1) items h.1 in
      elim (Bool-cases (length v == 0)) [
        | inl none_there ↦ rw (none_there, rest) refl
        | inr some_there ↦
            let long : (length v == 32) ≡ true = ground (arith, h.0) in
            rw (some_there, long, cid_of-ok codec v, rest) refl
      ]

  get_elem-map :
      (codec n : ℕ) (items : List Item) (v : Item)
      → get_elem? items n ≡ some v
      → get_elem? (map (element_of codec) items) n ≡ some (element_of codec v)
  get_elem-map codec n [] v e = cc
  get_elem-map codec zero (w ∷ items) v e = cc
  get_elem-map codec (suc n) (w ∷ items) v e = get_elem-map codec n items v e

  no_pointers : (i : ℕ) (es : List (Element lib)) → pointer_indexes lib i es ≡ []
  no_pointers i [] = refl
  no_pointers i (e ∷ es) = no_pointers (i + 1) es

  -- An encoded branch, whose 17 entries are empty or hashes, is decoded. A path of ASCII text that
  -- begins with the digit of a child that is there resolves to the link to it, and leaves the
  -- remaining text; but the listing of the node's paths is empty, at every depth.
  pub branch-resolves :
      (c : lib.Cid) (b h : List ℕ) (items : List Item)
      (leaf_decoder : List ℕ → List ℕ → Result (List (Element lib))) (n : ℕ) (p : List (List ℕ))
      (tail : List ℕ) (depth : ℤ)
      → lib.decode_bytes b ≡ ok items
      → length items ≡ 17
      → All (λ v. is_entry v ≡ true) items
      → get_elem? items n ≡ some (bytes h)
      → length h ≡ 32
      → n < 16
      → All IsAscii p
      → text_of p ≡ hex_digit n ∷ tail
      → (t : TrieNode lib) × (rest : List (List ℕ)) × (decode_trie_node lib c b leaf_decoder ≡ ok t)
        × (resolve_link lib t p ≡ ok (lib.new_cid_v1 (lib.cid_type c) (mh h), rest))
        × (text_of rest ≡ tail)
        × (tree lib t [] depth ≡ ok [])
  unfolding decode_trie_node parse_trie_node_branch resolve_link resolve resolve_trie_node_branch
      tree
  branch-resolves c b h items leaf_decoder n p tail depth d l entries at long small a e =
      let codec = lib.cid_type c in
      let (taken, left, _) = shift_from_path-splits p 1 a in
      let idx : (shift_from_path p 1).0 ≡ hex_digit n ∷ [] =
        taken ∙ ap (take 1) e ∙ ap (◌∷◌ (hex_digit n)) (take_none tail) in
      let not_two : (length items == 2) ≡ false = ground arith in
      let is_17 : (length items == 17) ≡ true = ground arith in
      let there : (length h == 0) ≡ false = ground arith in
      let child = get_elem-map codec n items (bytes h) at in
      (
        record {
          node_kind = branch;
          elements = map (element_of codec) items;
          cid = c;
          rawdata = b;
        },
        (shift_from_path p 1).1,
        rw (d, not_two, is_17, parse_branch_from-ok codec 0 items entries) refl,
        rw
            (
              resolve_link,
              resolve,
              resolve_trie_node_branch,
              idx,
              get_hex_index-hex_digit n small,
              child,
              there,
            )
            refl,
        left ∙ ap (drop 1) e ∙ drop_zero tail,
        listing depth (map (element_of codec) items),
      )
    where
      take_none : (s : List ℕ) → take 0 s ≡ []
      take_none [] = refl
      take_none (c ∷ s) = refl

      listing :
          (depth : ℤ) (es : List (Element lib))
          → (if eq_ℤ depth (pos 0) then ok [] else ok (pointer_indexes lib 0 es)) ≡ ok []
      listing depth es = rw (no_pointers 0 es) (ground arith)
