-- ===== src/Ipld/TrieNode/Compact.antt =====
-- The compact keys of Ethereum's tries: decodeCompactKey reads back the hex prefix encoding.
use ipfs_blockchain_watcher.Prelude.{
  ℕ, ◌+◌, ◌*◌, ◌/◌, ◌%◌, ◌<◌, ◌≡◌, refl, ap, Bool, true, false, List, [], ◌∷◌, All, arith,
  if◌then◌else◌, Bool-cases, inl, inr,
}
use ipfs_blockchain_watcher.Prelude.Results.{ok}
use ipfs_blockchain_watcher.Ipld.Path.{nibble_to_byte}
use ipfs_blockchain_watcher.Ipld.TrieNode.{bytes, IpldLib, leaf, extension, decode_compact_key}

-- A nibble is below 16.
abbrev pub IsNibbles : List ℕ → Type 0
IsNibbles ns = All (λ n. n < 16) ns

abbrev pub is_even : List ℕ → Bool
is_even [] = true
is_even (a ∷ []) = false
is_even (a ∷ b ∷ ns) = is_even ns

-- Two nibbles to a byte.
abbrev pub pack : List ℕ → List ℕ
pack [] = []
pack (a ∷ []) = []
pack (a ∷ b ∷ ns) = (a * 16 + b) ∷ pack ns

-- The hex prefix encoding of the yellow paper: the first nibble is 2 for a leaf, and 1 more for an
-- odd number of nibbles, of which the first then shares the byte.
abbrev pub hex_prefix : Bool → List ℕ → List ℕ
hex_prefix is_leaf [] = (if is_leaf then 32 else 0) ∷ []
hex_prefix is_leaf (n ∷ ns) =
    if is_even (n ∷ ns)
    then (if is_leaf then 32 else 0) ∷ pack (n ∷ ns)
    else ((if is_leaf then 48 else 16) + n) ∷ pack ns

nibble_to_byte-pack :
    (ns : List ℕ) → is_even ns ≡ true → IsNibbles ns → nibble_to_byte (pack ns) ≡ ns
unfolding nibble_to_byte
nibble_to_byte-pack [] e h = refl
nibble_to_byte-pack (a ∷ []) e h = cc
nibble_to_byte-pack (a ∷ b ∷ ns) e h =
    let high : (a * 16 + b) / 16 ≡ a = omega arith in
    let low : (a * 16 + b) % 16 ≡ b = omega arith in
    rw (high, low, nibble_to_byte-pack ns e h.1.1) refl

is_even-cons : (n : ℕ) (ns : List ℕ) → is_even (n ∷ ns) ≡ false → is_even ns ≡ true
is_even-cons n [] e = refl
is_even-cons n (a ∷ []) e = cc
is_even-cons n (a ∷ b ∷ ns) e = is_even-cons n ns e

module _ (lib : IpldLib) where
  even_key :
      (is_leaf : Bool) (ns v : List ℕ)
      → is_even ns ≡ true
      → IsNibbles ns
      → decode_compact_key lib (bytes ((if is_leaf then 32 else 0) ∷ pack ns) ∷ bytes v ∷ [])
        ≡ ok (if is_leaf then leaf else extension, ns, v)
  unfolding decode_compact_key nibble_to_byte
  even_key true ns v e h = ap (λ k. ok (leaf, k, v)) (nibble_to_byte-pack ns e h)
  even_key false ns v e h = ap (λ k. ok (extension, k, v)) (nibble_to_byte-pack ns e h)

  odd_key :
      (is_leaf : Bool) (n : ℕ) (ns v : List ℕ)
      → is_even (n ∷ ns) ≡ false
      → IsNibbles (n ∷ ns)
      → decode_compact_key lib (bytes (((if is_leaf then 48 else 16) + n) ∷ pack ns) ∷ bytes v ∷ [])
        ≡ ok (if is_leaf then leaf else extension, n ∷ ns, v)
  unfolding decode_compact_key nibble_to_byte
  odd_key true n ns v e h =
      let high : (48 + n) / 16 ≡ 3 = omega arith in
      let low : (48 + n) % 16 ≡ n = omega arith in
      rw (high, low)
        (ap (λ k. ok (leaf, n ∷ k, v)) (nibble_to_byte-pack ns (is_even-cons n ns e) h.1))
  odd_key false n ns v e h =
      let high : (16 + n) / 16 ≡ 1 = omega arith in
      let low : (16 + n) % 16 ≡ n = omega arith in
      rw (high, low)
        (ap (λ k. ok (extension, n ∷ k, v)) (nibble_to_byte-pack ns (is_even-cons n ns e) h.1))

  -- The hex prefix encoding of the nibbles of a leaf's or an extension's key is decoded to that kind
  -- and those nibbles, with the value as it is.
  pub decode_compact_key-hex_prefix :
      (is_leaf : Bool) (ns v : List ℕ)
      → IsNibbles ns
      → decode_compact_key lib (bytes (hex_prefix is_leaf ns) ∷ bytes v ∷ [])
        ≡ ok (if is_leaf then leaf else extension, ns, v)
  unfolding decode_compact_key
  decode_compact_key-hex_prefix true [] v h = refl
  decode_compact_key-hex_prefix false [] v h = refl
  decode_compact_key-hex_prefix is_leaf (n ∷ ns) v h = elim (Bool-cases (is_even (n ∷ ns))) [
    | inl even ↦ rw (decode_compact_key, hex_prefix, even) (even_key is_leaf (n ∷ ns) v even h)
    | inr odd ↦ rw (decode_compact_key, hex_prefix, odd) (odd_key is_leaf n ns v odd h)
  ]
