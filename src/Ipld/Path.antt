-- ===== src/Ipld/Path.antt =====
-- pkg/ipfs/ipld/trie_node.go: taking nibbles off a path. A Go string is the list of its runes; its
-- length counts the bytes of their UTF-8 encoding.
pub mod Shift
use ipfs_blockchain_watcher.Prelude.{
  ℕ, ◌+◌, ◌-◌, ◌*◌, ◌/◌, ◌%◌, ◌==◌, Bool, ◌&&◌, List, [], ◌∷◌, ◌++◌, Option, none, some, not, ltb,
  leb, is_empty, if◌then◌else◌,
}

unfoldable pub rune_len : ℕ → ℕ
rune_len c = if ltb c 128 then 1 else if ltb c 2048 then 2 else if ltb c 65536 then 3 else 4

-- len(s)
unfoldable pub text_len : List ℕ → ℕ
unfolding rune_len
text_len [] = 0
text_len (c ∷ cs) = rune_len c + text_len cs

-- The loop over the runes of a path element: what `out` and `re` are after it.
unfoldable pub shift_runes : ℕ → List ℕ → List ℕ → List ℕ → List ℕ × List ℕ
unfolding text_len
shift_runes i out re [] = (out, re)
shift_runes i out re (c ∷ pe) =
    if ltb (text_len out) i
    then shift_runes i (out ++ c ∷ []) re pe
    else shift_runes i out (re ++ c ∷ []) pe

unfoldable pub shift_elements : ℕ → List ℕ → List (List ℕ) → List (List ℕ) → List ℕ × List (List ℕ)
unfolding shift_runes
shift_elements i out rest [] = (out, rest)
shift_elements i out rest (pe ∷ p) =
    let (out', re) = shift_runes i out [] pe in
    shift_elements i out'
      (if (text_len out' == i) && not (is_empty re) then rest ++ re ∷ [] else rest) p

unfoldable pub shift_from_path : List (List ℕ) → ℕ → List ℕ × List (List ℕ)
unfolding shift_elements
shift_from_path p i = shift_elements i [] [] p

-- `none` is -1.
unfoldable pub get_hex_index : List ℕ → Option ℕ
unfolding rune_len
get_hex_index [] = none
get_hex_index (c ∷ d ∷ s) = none
get_hex_index (c ∷ []) =
    if not (rune_len c == 1)
    then none
    else if leb b'0' c && leb c b'9'
    then some (c - b'0')
    else if leb b'a' c && leb c b'f'
    then some (c - b'a' + 10)
    else none

unfoldable pub nibble_to_byte : List ℕ → List ℕ
nibble_to_byte [] = []
nibble_to_byte (b ∷ k) = b / 16 ∷ b % 16 ∷ nibble_to_byte k
