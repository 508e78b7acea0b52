-- ===== src/Shared/Names.antt =====
-- strings.ToLower, as the constructors from names use it. A text is the list of its code points;
-- what Unicode makes of those from 128 on is the parameter `wide`.
use Prim.Native.Char.{code}
use Prim.Native.String.{String}
use ipfs_blockchain_watcher.Prelude.{
  ℕ, ◌+◌, Bool, true, false, ◌&&◌, List, [], ◌∷◌, map, ltb, leb, ◌==◌, any, if◌then◌else◌,
}

abbrev pub codes : String → List ℕ
codes String.[] = []
codes (String.◌∷◌ c s) = code c ∷ codes s

unfoldable pub to_lower_rune : (ℕ → ℕ) → ℕ → ℕ
to_lower_rune wide c =
    if ltb c 128 then (if leb b'A' c && leb c b'Z' then c + 32 else c) else wide c

unfoldable pub to_lower : (ℕ → ℕ) → List ℕ → List ℕ
unfolding to_lower_rune
to_lower wide s = map (to_lower_rune wide) s

abbrev pub same_text : List ℕ → List ℕ → Bool
same_text [] [] = true
same_text [] (d ∷ ds) = false
same_text (c ∷ cs) [] = false
same_text (c ∷ cs) (d ∷ ds) = c == d && same_text cs ds

-- `case "a", "b":` of a switch on a text.
abbrev pub one_of : List ℕ → List String → Bool
one_of s names = any (λ name. same_text s (codes name)) names
