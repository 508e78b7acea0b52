-- ===== src/Prelude/Occurrences.antt =====
-- How often a number occurs in lists.
use ipfs_blockchain_watcher.Prelude.Lists.{flat_map, count_up}
use ipfs_blockchain_watcher.Prelude.Tests.{◌==◌, leb, ltb, if◌then◌else◌}
use Prim.Native.Nat.{ℕ, zero, suc, ◌+◌, ◌-◌}
use mathlib.Core.Path.{◌≡◌, refl}
use mathlib.Core.Bool.{◌&&◌}
use mathlib.Core.List.{List, [], ◌∷◌, ◌++◌}
use native.Mathlib.Omega.{arith}

-- The sum of a weight over a list.
abbrev pub total {ℓ} : {A : Type ℓ} → (A → ℕ) → List A → ℕ
total w [] = 0
total w (b ∷ bs) = w b + total w bs

pub total-append {ℓ} :
    {A : Type ℓ} (w : A → ℕ) (xs ys : List A) → total w (xs ++ ys) ≡ total w xs + total w ys
total-append w [] ys = omega arith
total-append w (x ∷ xs) ys = omega (arith, total-append w xs ys)

abbrev pub occurrences : ℕ → List ℕ → ℕ
occurrences h = total (λ x. if x == h then 1 else 0)

pub occurrences-flat_map {ℓ} :
    {A : Type ℓ} (h : ℕ) (f : A → List ℕ) (xs : List A)
    → occurrences h (flat_map f xs) ≡ total (λ x. occurrences h (f x)) xs
occurrences-flat_map h f [] = refl
occurrences-flat_map h f (x ∷ xs) = omega (
  arith,
  total-append (λ x. if x == h then 1 else 0) (f x) (flat_map f xs),
  occurrences-flat_map h f xs,
)

occurrences-count_up :
    (h k n : ℕ) → occurrences h (count_up k n) ≡ (if leb k h && ltb h (k + n) then 1 else 0)
occurrences-count_up h k zero = ground arith
occurrences-count_up h k (suc n) = ground (arith, occurrences-count_up h (k + 1) n)

-- A range from a first number to a last one has a number once, or not at all.
pub occurrences-range :
    (h first last : ℕ)
    → occurrences h (count_up first (last + 1 - first))
      ≡ (if leb first h && leb h last then 1 else 0)
occurrences-range h first last = ground (arith, occurrences-count_up h first (last + 1 - first))
