-- ===== src/Tests/Tries.antt =====
-- Trie nodes at concrete inputs, with a toy codec.
use ipfs_blockchain_watcher.Prelude.{ℕ, ◌≡◌, refl, arith, true, false, List, [], ◌∷◌}
use ipfs_blockchain_watcher.Prelude.Int.{pos}
use ipfs_blockchain_watcher.Prelude.Results.{ok}
use ipfs_blockchain_watcher.Ipld.Path.Shift.{text_of}
use ipfs_blockchain_watcher.Ipld.TrieNode.{
  Item, bytes, IpldLib, inside, leaf, TrieNode, decode_compact_key, decode_trie_node,
  decode_eth_storage_trie_leaf,
}
use ipfs_blockchain_watcher.Ipld.TrieNode.Compact.{hex_prefix, decode_compact_key-hex_prefix}
use ipfs_blockchain_watcher.Ipld.Resolve.{hex_digit, resolve_link, tree}
use ipfs_blockchain_watcher.Ipld.Resolve.Nodes.{extension-resolves, branch-resolves}

-- 32 bytes
abbrev hash_32 : List ℕ
hash_32 =
    1 ∷ 2 ∷ 3 ∷ 4 ∷ 5 ∷ 6 ∷ 7 ∷ 8 ∷ 9 ∷ 10 ∷ 11 ∷ 12 ∷ 13 ∷ 14 ∷ 15 ∷ 16 ∷ 1 ∷ 2 ∷ 3 ∷ 4 ∷ 5 ∷ 6 ∷ 7
    ∷ 8 ∷ 9 ∷ 10 ∷ 11 ∷ 12 ∷ 13 ∷ 14 ∷ 15 ∷ 16 ∷ []

abbrev no_child : Item
no_child = bytes []

abbrev branch_items : List Item
branch_items =
    no_child
    ∷ bytes hash_32
    ∷ no_child
    ∷ no_child
    ∷ no_child
    ∷ no_child
    ∷ no_child
    ∷ no_child
    ∷ no_child
    ∷ no_child
    ∷ no_child
    ∷ no_child
    ∷ no_child
    ∷ no_child
    ∷ no_child
    ∷ no_child
    ∷ no_child
    ∷ []

-- An empty text is the encoding of an extension, another one that of a branch.
abbrev toy_decode : List ℕ → List Item
toy_decode [] = bytes (hex_prefix false (7 ∷ 11 ∷ 3 ∷ [])) ∷ bytes hash_32 ∷ []
toy_decode (b ∷ bs) = branch_items

-- A CID is its codec and its multihash, which is the hash itself.
abbrev toy_lib : IpldLib
toy_lib = record {
  Cid = ℕ × List ℕ;
  Object = ℕ;
  Value = ℕ;
  resolve_object = λ o p. ok (inside o, p);
  decode_bytes = λ b. ok (toy_decode b);
  cid_type = λ c. c.0;
  encode_keccak256 = λ h. ok h;
  new_cid_v1 = λ codec h. (codec, h);
  show_item = λ v. "";
  show_bytes = λ v. "";
  show_int = λ n. "";
}

decode_compact_key-hex_prefix_example :
    decode_compact_key toy_lib (bytes (hex_prefix true (7 ∷ 11 ∷ 3 ∷ [])) ∷ bytes (9 ∷ []) ∷ [])
    ≡ ok (leaf, 7 ∷ 11 ∷ 3 ∷ [], 9 ∷ [])
decode_compact_key-hex_prefix_example =
    decode_compact_key-hex_prefix toy_lib true (7 ∷ 11 ∷ 3 ∷ []) (9 ∷ [])
      (omega arith, (omega arith, (omega arith, tt)))

-- 7b3 and f
extension-resolves_example :
    (t : TrieNode toy_lib) × (rest : List (List ℕ)) × (decode_trie_node toy_lib
        (152, [])
        []
        (decode_eth_storage_trie_leaf toy_lib)
      ≡ ok t)
    × (resolve_link toy_lib t ((55 ∷ []) ∷ (98 ∷ 51 ∷ 102 ∷ []) ∷ []) ≡ ok ((152, hash_32), rest))
    × (text_of rest ≡ 102 ∷ [])
unfolding hex_digit
extension-resolves_example =
    extension-resolves toy_lib (λ h. h) (λ h. refl) (152, []) [] (7 ∷ 11 ∷ 3 ∷ []) hash_32
      (decode_eth_storage_trie_leaf toy_lib) ((55 ∷ []) ∷ (98 ∷ 51 ∷ 102 ∷ []) ∷ []) (102 ∷ []) refl
      (omega arith, (omega arith, (omega arith, tt)))
      ((omega arith, tt), ((omega arith, (omega arith, (omega arith, tt))), tt)) refl

-- 1 and f
branch-resolves_example :
    (t : TrieNode toy_lib) × (rest : List (List ℕ)) × (decode_trie_node toy_lib
        (152, [])
        (0 ∷ [])
        (decode_eth_storage_trie_leaf toy_lib)
      ≡ ok t)
    × (resolve_link toy_lib t ((49 ∷ 102 ∷ []) ∷ []) ≡ ok ((152, hash_32), rest))
    × (text_of rest ≡ 102 ∷ [])
    × (tree toy_lib t [] (pos 2) ≡ ok [])
unfolding hex_digit
branch-resolves_example =
    branch-resolves toy_lib (λ h. h) (λ h. refl) (152, []) (0 ∷ []) hash_32 branch_items
      (decode_eth_storage_trie_leaf toy_lib) 1 ((49 ∷ 102 ∷ []) ∷ []) (102 ∷ []) (pos 2) refl refl
      (
        refl,
        (
          refl,
          (
            refl,
            (
              refl,
              (
                refl,
                (
                  refl,
                  (
                    refl,
                    (
                      refl,
                      (refl, (refl, (refl, (refl, (refl, (refl, (refl, (refl, (refl, tt))))))))),
                    ),
                  ),
                ),
              ),
            ),
          ),
        ),
      )
      refl refl (omega arith) ((omega arith, (omega arith, tt)), tt) refl
