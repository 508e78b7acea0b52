-- ===== src/Eth/Checks/Topics.antt =====
-- The topic filter: four matches are a match in every slot.
use ipfs_blockchain_watcher.Prelude.{
  ℕ, ◌+◌, ◌≡◌, refl, ◌==◌, Bool, true, false, ◌&&◌, ◌||◌, String, List, [], ◌∷◌, Option, none, some,
  any, is_empty, has_string, str_eq, get_elem?, if◌then◌else◌, arith, eq_iff,
}
use ipfs_blockchain_watcher.Eth.Checks.{slot_matches, filter_match}

-- A slot of the filter passes a receipt's topics when it wants none, or one of them.
abbrev pub slot_passes : List (List String) → ℕ → List String → Bool
slot_passes wanted i actual = elim (get_elem? wanted i) [
  | none ↦ true
  | some w ↦ is_empty w || any (λ topic. has_string w topic) actual
]

-- The library compares texts one way round; equality is symmetric.
pub share_sym : (a b : String) → str_eq a b ≡ str_eq b a
share_sym a b = ground (arith, eq_iff a b, eq_iff b a)

pub any-str_eq : (s : String) (xs : List String) → any (λ x. str_eq s x) xs ≡ has_string xs s
any-str_eq s [] = refl
any-str_eq s (x ∷ xs) = ground (arith, share_sym s x, any-str_eq s xs)

pub any_shared :
    (xs ys : List String) → any (λ x. any (λ y. str_eq x y) ys) xs ≡ any (λ x. has_string ys x) xs
any_shared [] ys = refl
any_shared (x ∷ xs) ys = ground (arith, any-str_eq x ys, any_shared xs ys)

slot_matches-eq :
    (wanted : List (List String)) (i : ℕ) (actual : List String)
    → slot_matches (get_elem? wanted i) actual ≡ (if slot_passes wanted i actual then 1 else 0)
unfolding slot_matches
slot_matches-eq wanted i actual = by_slot (get_elem? wanted i)
  where
    by_slot :
        (slot : Option (List String))
        → slot_matches slot actual ≡ (
            if elim slot [
              | none ↦ true
              | some w ↦ is_empty w || any (λ topic. has_string w topic) actual
            ]
            then 1
            else 0)
    by_slot none = refl
    by_slot (some []) = refl
    by_slot (some (w ∷ ws)) = rw (any_shared actual (w ∷ ws))

four_matches :
    (a b c d : Bool)
    → ((0
          + (if a then 1 else 0)
          + (if b then 1 else 0)
          + (if c then 1 else 0)
          + (if d then 1 else 0))
        == 4)
      ≡ (a && (b && (c && d)))
four_matches true true true true = refl
four_matches true true true false = refl
four_matches true true false true = refl
four_matches true true false false = refl
four_matches true false true true = refl
four_matches true false true false = refl
four_matches true false false true = refl
four_matches true false false false = refl
four_matches false b c d = ground arith

-- For the four topic slots of a receipt, the filter matches exactly when each slot passes: the slot
-- is missing or empty in the filter, or shares a topic with the receipt. Further slots do not count.
pub filter_match-slots :
    (wanted : List (List String)) (a b c d : List String)
    → filter_match wanted (a ∷ b ∷ c ∷ d ∷ []) ≡ (
        slot_passes wanted 0 a
        && (slot_passes wanted 1 b && (slot_passes wanted 2 c && slot_passes wanted 3 d)))
unfolding filter_match
filter_match-slots wanted a b c d =
    simp
      (
        slot_matches-eq wanted 0 a,
        slot_matches-eq wanted 1 b,
        slot_matches-eq wanted 2 c,
        slot_matches-eq wanted 3 d,
      )
      (four_matches (slot_passes wanted 0 a) (slot_passes wanted 1 b) (slot_passes wanted 2 c)
        (slot_passes wanted 3 d))
