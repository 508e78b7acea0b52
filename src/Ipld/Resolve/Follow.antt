-- ===== src/Ipld/Resolve/Follow.antt =====
-- Following the nibbles of a key along a path.
use ipfs_blockchain_watcher.Prelude.{
  ℕ, ◌<◌, ◌≡◌, refl, ap, sym, ◌∙◌, ◌==◌, Bool, true, false, not, String, List, [], ◌∷◌, ◌++◌, map,
  All, any, arith, ltb, length, length-map, if◌then◌else◌, Bool-cases, inl, inr, ==_iff, subst,
  All-append, ◌≢◌, some,
}
use ipfs_blockchain_watcher.Prelude.Results.{Result, ok, err, >>=-eq-ok}
use ipfs_blockchain_watcher.Ipld.Path.{text_len, get_hex_index, rune_len, shift_from_path}
use ipfs_blockchain_watcher.Ipld.Path.Shift.{
  text_of, IsAscii, take, drop, text_len-ascii, length-take, take-IsAscii, take-++-drop,
  shift_from_path-splits, take_of_length, drop_of_length,
}
use ipfs_blockchain_watcher.Ipld.TrieNode.Compact.{IsNibbles}
use ipfs_blockchain_watcher.Ipld.Resolve.{hex_digit, show_hex, is_hex, compare_nibbles, take_key}

-- A nibble's digit is hexadecimal, and read back.
pub get_hex_index-hex_digit : (n : ℕ) → n < 16 → get_hex_index (hex_digit n ∷ []) ≡ some n
unfolding get_hex_index hex_digit rune_len
get_hex_index-hex_digit n h = ground arith

hex_digits-IsAscii : (key : List ℕ) → IsNibbles key → IsAscii (map hex_digit key)
unfolding hex_digit
hex_digits-IsAscii [] h = tt
hex_digits-IsAscii (n ∷ key) h = (ground arith, hex_digits-IsAscii key h.1)

is_hex-hex_digit : (n : ℕ) → n < 16 → is_hex (hex_digit n) ≡ true
unfolding is_hex
is_hex-hex_digit n h = rw (is_hex, get_hex_index-hex_digit n h) refl

no_odd_digit :
    (key : List ℕ) → IsNibbles key → any (λ c. not (is_hex c)) (map hex_digit key) ≡ false
no_odd_digit [] h = refl
no_odd_digit (n ∷ key) h = rw (is_hex-hex_digit n h.0) (no_odd_digit key h.1)

compare_nibbles_self :
    (key : List ℕ) → IsNibbles key → compare_nibbles (map hex_digit key) key ≡ ok true
unfolding compare_nibbles show_hex
compare_nibbles_self [] h = refl
compare_nibbles_self (n ∷ key) h = ground (arith, compare_nibbles_self key h.1)

compare_nibbles-ok :
    (idx key : List ℕ)
    → IsNibbles key
    → length idx ≡ length key
    → compare_nibbles idx key ≡ ok true
    → idx ≡ map hex_digit key
unfolding compare_nibbles show_hex
compare_nibbles-ok [] [] h l e = refl
compare_nibbles-ok [] (n ∷ key) h l e = absurd (omega arith)
compare_nibbles-ok (c ∷ idx) [] h l e = absurd (omega arith)
compare_nibbles-ok (c ∷ idx) (n ∷ key) h l e =
    let one : ltb n 16 ≡ true = ground (arith, h.0) in
    elim (Bool-cases (hex_digit n == c)) [
      | inl same ↦ cc (
        (==_iff (hex_digit n) c).0 same,
        compare_nibbles-ok idx key h.1 (omega arith)
            (rw (compare_nibbles, show_hex, one, same) at e),
      )
      | inr other ↦ absurd (false-ne-true (rw (compare_nibbles, show_hex, one, other) at e))
    ]
  where
    false-ne-true : Result.ok false ≢ Result.ok true
    false-ne-true e = cc

err-ne-ok : {s : String} (rest : List (List ℕ)) → Result.err s ≢ ok rest
err-ne-ok rest e = cc

text-IsAscii : (p : List (List ℕ)) → All IsAscii p → IsAscii (text_of p)
text-IsAscii [] h = tt
text-IsAscii (pe ∷ p) h = All-append (λ c. c < 128) pe (text_of p) h.0 (text-IsAscii p h.1)

-- A comparison that passes leaves the rest.
passed :
    (idx key : List ℕ) (left rest : List (List ℕ)) (same : Bool)
    → IsNibbles key
    → length idx ≡ length key
    → compare_nibbles idx key ≡ ok same
    → (if same then ok left else err "no such link in this extension") ≡ ok rest
    → (idx ≡ map hex_digit key) × (left ≡ rest)
passed idx key left rest true h l e f = (compare_nibbles-ok idx key h l e, cc)
passed idx key left rest false h l e f = absurd (err-ne-ok rest f)

-- On a path of ASCII text, a key is taken exactly when the path's text goes on with its digits, and
-- leaves the rest of the text.
pub take_key-follows :
    (short : String) (key : List ℕ) (p : List (List ℕ))
    → IsNibbles key
    → All IsAscii p
    → ((tail : List ℕ)
        → text_of p ≡ map hex_digit key ++ tail
        → (rest : List (List ℕ)) × (take_key short key p ≡ ok rest) × (text_of rest ≡ tail))
      × ((rest : List (List ℕ))
          → take_key short key p ≡ ok rest
          → text_of p ≡ map hex_digit key ++ text_of rest)
unfolding take_key
take_key-follows short key p h a = (follow, back)
  where
    digits : List ℕ
    digits = map hex_digit key

    same_length : length digits ≡ length key
    same_length = length-map hex_digit key

    follow :
        (tail : List ℕ)
        → text_of p ≡ digits ++ tail
        → (rest : List (List ℕ)) × (take_key short key p ≡ ok rest) × (text_of rest ≡ tail)
    follow tail e =
        let (taken, left, _) = shift_from_path-splits p (length key) a in
        let idx : (shift_from_path p (length key)).0 ≡ digits =
          taken
          ∙ ap (take (length key)) e
          ∙ ap (λ n. take n (digits ++ tail)) (sym same_length)
          ∙ take_of_length digits tail in
        let rest : text_of (shift_from_path p (length key)).1 ≡ tail =
          left
          ∙ ap (drop (length key)) e
          ∙ ap (λ n. drop n (digits ++ tail)) (sym same_length)
          ∙ drop_of_length digits tail in
        let enough : ltb (text_len digits) (length key) ≡ false =
          ground (arith, text_len-ascii digits (hex_digits-IsAscii key h), same_length) in
        (
          (shift_from_path p (length key)).1,
          rw (take_key, idx, enough, no_odd_digit key h, compare_nibbles_self key h) refl,
          rest,
        )

    back :
        (rest : List (List ℕ)) → take_key short key p ≡ ok rest → text_of p ≡ digits ++ text_of rest
    back rest e =
        let (taken, left, _) = shift_from_path-splits p (length key) a in
        let idx = (shift_from_path p (length key)).0 in
        let ascii : IsAscii idx =
          subst IsAscii (sym taken) (take-IsAscii (length key) (text_of p) (text-IsAscii p a)) in
        elim (Bool-cases (ltb (text_len idx) (length key))) [
          | inl few ↦ absurd (err-ne-ok rest (rw (take_key, few) at e))
          | inr enough ↦ elim (Bool-cases (any (λ c. not (is_hex c)) idx)) [
            | inl odd ↦ absurd (err-ne-ok rest (rw (take_key, enough, odd) at e))
            | inr digits_only ↦
                let all : length idx ≡ length key = ground (
                  arith,
                  text_len-ascii idx ascii,
                  ap length taken,
                  length-take (length key) (text_of p),
                ) in
                let (same, compared, last) =
                  >>=-eq-ok (compare_nibbles idx key) _ (rw (take_key, enough, digits_only) at e) in
                let (followed, remains) =
                  passed idx key (shift_from_path p (length key)).1 rest same h all compared last in
                sym (take-++-drop (length key) (text_of p))
                ∙ rw (sym taken ∙ followed, sym left ∙ ap text_of remains) refl
          ]
        ]
