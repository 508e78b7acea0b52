-- ===== src/Eth/Checks.antt =====
-- pkg/eth/filterer.go: the tests that decide what a subscriber gets.
pub mod Topics
use ipfs_blockchain_watcher.Prelude.{
  ℕ, ◌+◌, ◌==◌, Bool, true, false, ◌&&◌, ◌||◌, String, List, [], ◌∷◌, Option, none, some, any,
  is_empty, has_string, str_eq, get_elem?, if◌then◌else◌,
}
use ipfs_blockchain_watcher.Prelude.Int.{ℤ, pos, leb_ℤ}

unfoldable pub check_range : ℤ → ℤ → ℤ → Bool
check_range start end actual = (leb_ℤ end (pos 0) || leb_ℤ actual end) && leb_ℤ start actual

unfoldable pub check_transaction_addrs : List String → List String → String → String → Bool
check_transaction_addrs wanted_src wanted_dst actual_src actual_dst =
    if is_empty wanted_dst && is_empty wanted_src
    then true
    else (if has_string wanted_src actual_src then true else has_string wanted_dst actual_dst)

-- Hashes are compared as bytes.
unfoldable pub check_node_keys : List ℕ → ℕ → Bool
check_node_keys wanted_keys actual_key =
    if is_empty wanted_keys then true else any (λ key. key == actual_key) wanted_keys

unfoldable pub slices_share_string : List String → List String → ℕ
slices_share_string slice1 slice2 =
    if any (λ str1. any (λ str2. str_eq str1 str2) slice2) slice1 then 1 else 0

-- What one slot of the receipt's topics adds to the matches.
unfoldable pub slot_matches : Option (List String) → List String → ℕ
unfolding slices_share_string
slot_matches none actual = 1
slot_matches (some wanted) actual = if is_empty wanted then 1 else slices_share_string actual wanted

unfoldable pub count_matches : List (List String) → ℕ → ℕ → List (List String) → ℕ
count_matches wanted matches i [] = matches
count_matches wanted matches i (actual ∷ rest) =
    count_matches wanted (matches + slot_matches (get_elem? wanted i) actual) (i + 1) rest

unfoldable pub filter_match : List (List String) → List (List String) → Bool
unfolding count_matches
filter_match wanted_topics actual_topics = count_matches wanted_topics 0 0 actual_topics == 4

-- rct_tx_hash is the receipt's TxHash.
unfoldable pub check_receipts :
    ℕ → List (List String) → List (List String) → List String → List String → List ℕ → Bool
check_receipts rct_tx_hash wanted_topics actual_topics wanted_addresses actual_addresses
      wanted_trx_hashes =
    if is_empty wanted_topics && (is_empty wanted_addresses && is_empty wanted_trx_hashes)
    then true
    else (if any (λ wanted. wanted == rct_tx_hash) wanted_trx_hashes
        then true
        else (if is_empty wanted_addresses && filter_match wanted_topics actual_topics
            then true
            else any
                (λ wanted.
                  any (λ actual. str_eq wanted actual && filter_match wanted_topics actual_topics)
                    actual_addresses)
                wanted_addresses))
