-- ===== src/Prelude/Lists.antt =====
-- Lists measured by native numbers, Boolean searches in lists, and predicates by recursion.
use Prim.Native.Nat.{ℕ, zero, suc, ◌+◌}
use Prim.Native.String.{String}
use mathlib.Core.Path.{◌≡◌, refl, ap, sym, ◌∙◌}
use mathlib.Core.Bool.{Bool, true, false, ◌||◌, ◌&&◌}
use mathlib.Core.List.{List, [], ◌∷◌, ◌++◌, map}
use mathlib.Core.Option.{Option, none, some}
use native.Mathlib.Omega.{arith}
use ipfs_blockchain_watcher.Prelude.Tests.{◌==◌, str_eq, if◌then◌else◌}

module _ {ℓ} {A : Type ℓ} where
  abbrev pub length : List A → ℕ
  length [] = 0
  length (x ∷ xs) = suc (length xs)

  abbrev pub get_elem? : List A → ℕ → Option A
  get_elem? [] i = none
  get_elem? (x ∷ xs) zero = some x
  get_elem? (x ∷ xs) (suc i) = get_elem? xs i

  -- Go's `len(xs) == 0`.
  abbrev pub is_empty : List A → Bool
  is_empty [] = true
  is_empty (x ∷ xs) = false

  pub length-append : (xs ys : List A) → length (xs ++ ys) ≡ length xs + length ys
  length-append [] ys = omega arith
  length-append (x ∷ xs) ys = omega (arith, length-append xs ys)

  -- A loop that keeps the elements with a property.
  abbrev pub keep : (A → Bool) → List A → List A
  keep p [] = []
  keep p (x ∷ xs) = let rest = keep p xs in if p x then x ∷ rest else rest

  -- A loop that returns true at the first element with a property.
  abbrev pub any : (A → Bool) → List A → Bool
  any p [] = false
  any p (x ∷ xs) = p x || any p xs

  abbrev pub All {κ} : (A → Type κ) → List A → Type κ
  All P [] = Unit
  All P (x ∷ xs) = P x × All P xs

  pub any-append : (p : A → Bool) (xs ys : List A) → any p (xs ++ ys) ≡ (any p xs || any p ys)
  any-append p [] ys = refl
  any-append p (x ∷ xs) ys = ground (arith, any-append p xs ys)

  pub All-append {κ} : (P : A → Type κ) (xs ys : List A) → All P xs → All P ys → All P (xs ++ ys)
  All-append P [] ys hx hy = hy
  All-append P (x ∷ xs) ys hx hy = (hx.0, All-append P xs ys hx.1 hy)

pub All-map {ℓ κ ι} :
    {A : Type ℓ} {P : A → Type κ} {Q : A → Type ι} (xs : List A)
    → ((x : A) → P x → Q x)
    → All P xs
    → All Q xs
All-map [] h a = tt
All-map (x ∷ xs) h a = (h x a.0, All-map xs h a.1)

-- The numbers k, k + 1, ..., k + n - 1.
abbrev pub count_up : ℕ → ℕ → List ℕ
count_up k zero = []
count_up k (suc n) = k ∷ count_up (k + 1) n

pub count_up-add : (k a b : ℕ) → count_up k (a + b) ≡ count_up k a ++ count_up (k + a) b
count_up-add k zero b = ground arith
count_up-add k (suc a) b =
    let step : suc a + b ≡ suc (a + b) = omega arith in
    let shift : k + suc a ≡ k + 1 + a = omega arith in
    rw (step, shift) (ap (◌∷◌ k) (count_up-add (k + 1) a b))

pub count_up-length : (k n : ℕ) → length (count_up k n) ≡ n
count_up-length k zero = refl
count_up-length k (suc n) = ap suc (count_up-length (k + 1) n)

-- Whether a number occurs in a list.
abbrev pub contains : ℕ → List ℕ → Bool
contains n = any (λ m. m == n)

module _ {ℓ κ} {A : Type ℓ} {B : Type κ} where
  abbrev pub flat_map : (A → List B) → List A → List B
  flat_map f [] = []
  flat_map f (x ∷ xs) = f x ++ flat_map f xs

  pub length-map : (f : A → B) (xs : List A) → length (map f xs) ≡ length xs
  length-map f [] = refl
  length-map f (x ∷ xs) = ap suc (length-map f xs)

pub any-&& {ℓ} :
    {A : Type ℓ} (p : A → Bool) (b : Bool) (xs : List A) → any (λ x. p x && b) xs ≡ (any p xs && b)
any-&& p true [] = refl
any-&& p false [] = refl
any-&& p b (x ∷ xs) = ground (arith, any-&& p b xs)

any-none {ℓ} : {A : Type ℓ} (xs : List A) → any (λ x. false) xs ≡ false
any-none [] = refl
any-none (x ∷ xs) = any-none xs

any-|| {ℓ} :
    {A : Type ℓ} (p q : A → Bool) (xs : List A) → any (λ x. p x || q x) xs ≡ (any p xs || any q xs)
any-|| p q [] = refl
any-|| p q (x ∷ xs) = ground (arith, any-|| p q xs)

-- Two nested loops that search can be exchanged.
pub any-any {ℓ κ} :
    {A : Type ℓ} {B : Type κ} (p : A → B → Bool) (xs : List A) (ys : List B)
    → any (λ x. any (p x) ys) xs ≡ any (λ y. any (λ x. p x y) xs) ys
any-any p [] ys = sym (any-none ys)
any-any p (x ∷ xs) ys =
    ap (◌||◌ (any (p x) ys)) (any-any p xs ys) ∙ sym (any-|| (p x) (λ y. any (λ z. p z y) xs) ys)

pub any-ext {ℓ} :
    {A : Type ℓ} (p q : A → Bool) (xs : List A) → ((x : A) → p x ≡ q x) → any p xs ≡ any q xs
any-ext p q [] h = refl
any-ext p q (x ∷ xs) h = ground (arith, h x, any-ext p q xs h)

-- `for _, s := range list { if s == x { return true } }` on strings.
abbrev pub has_string : List String → String → Bool
has_string list x = any (λ s. str_eq s x) list
