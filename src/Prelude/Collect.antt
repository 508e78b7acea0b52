-- ===== src/Prelude/Collect.antt =====
-- What a collecting loop over a list with metadata at the same indices returns.
use Prim.Native.Nat.{ℕ, zero, suc, ◌≤◌}
use mathlib.Core.Path.{◌≡◌, refl, ap, sym, ◌∙◌}
use mathlib.Core.Bool.{Bool, true}
use mathlib.Core.Option.{some}
use mathlib.Core.List.{List, [], ◌∷◌, ◌++◌, map, append_assoc, Mem, mem-cons_self, mem-cons_of_mem}
use mathlib.Core.Logic.{inl, inr}
use native.Mathlib.Omega.{arith}
use ipfs_blockchain_watcher.Prelude.Tests.{if◌then◌else◌, Bool-cases}
use ipfs_blockchain_watcher.Prelude.Lists.{length, get_elem?, length-append}
use ipfs_blockchain_watcher.Prelude.Results.{Result, ok, collect}

module _ {ℓ κ} {A : Type ℓ} {M : Type κ} where
  -- The elements that pass a test together with the metadata at their index.
  abbrev pub chosen : (M → A → Bool) → List M → List A → List A
  chosen keep ms [] = []
  chosen keep [] (x ∷ xs) = []
  chosen keep (m ∷ ms) (x ∷ xs) =
      let rest = chosen keep ms xs in if keep m x then x ∷ rest else rest

module _ {ℓ κ μ} {A : Type ℓ} {M : Type κ} {B : Type μ} where
  -- The outputs of the elements that pass a test together with the metadata at their index.
  abbrev pub picked : (M → A → Bool) → (M → A → B) → List M → List A → List B
  picked keep out ms [] = []
  picked keep out [] (x ∷ xs) = []
  picked keep out (m ∷ ms) (x ∷ xs) =
      let rest = picked keep out ms xs in if keep m x then out m x ∷ rest else rest

  picked-chosen :
      (keep : M → A → Bool) (out : A → B) (ms : List M) (xs : List A)
      → picked keep (λ m x. out x) ms xs ≡ map out (chosen keep ms xs)
  picked-chosen keep out ms [] = refl
  picked-chosen keep out [] (x ∷ xs) = refl
  picked-chosen keep out (m ∷ ms) (x ∷ xs) = elim (Bool-cases (keep m x)) [
    | inl kept ↦ rw kept (ap (◌∷◌ (out x)) (picked-chosen keep out ms xs))
    | inr left_out ↦ rw left_out (picked-chosen keep out ms xs)
  ]

pub get_elem?-append {κ} :
    {M : Type κ} (pre : List M) (m : M) (ms : List M)
    → get_elem? (pre ++ m ∷ ms) (length pre) ≡ some m
get_elem?-append [] m ms = refl
get_elem?-append (p ∷ pre) m ms = get_elem?-append pre m ms

module _ {ℓ κ μ} {A : Type ℓ} {M : Type κ} {B : Type μ} (metas : List M) (keep : M → A → Bool)
    (out : M → A → B) (step : ℕ → A → Result (List B))
    (steps : (i : ℕ) (m : M) (x : A)
      → get_elem? metas i ≡ some m
      → step i x ≡ ok (if keep m x then out m x ∷ [] else [])) where
  collect-from :
      (pre ms : List M) (xs : List A)
      → metas ≡ pre ++ ms
      → length xs ≤ length ms
      → collect step (length pre) xs ≡ ok (picked keep out ms xs)
  unfolding collect
  collect-from pre ms [] e l = refl
  collect-from pre [] (x ∷ xs) e l = elim l [ ]
  collect-from pre (m ∷ ms) (x ∷ xs) e l =
      let here =
        steps (length pre) m x (ap (λ l. get_elem? l (length pre)) e ∙ get_elem?-append pre m ms) in
      let there =
        collect-from (pre ++ m ∷ []) ms xs (e ∙ sym (append_assoc pre (m ∷ []) ms)) (omega arith) in
      let len : length (pre ++ m ∷ []) ≡ suc (length pre) =
        omega (arith, length-append pre (m ∷ [])) in
      let rest : collect step (suc (length pre)) xs ≡ ok (picked keep out ms xs) =
        rw len at there in
      elim (Bool-cases (keep m x)) [
        | inl kept ↦ rw (here, kept, rest)
        | inr left_out ↦ rw (here, left_out, rest)
      ]

  -- If each round appends its output exactly when the test passes, the loop returns the outputs of
  -- the elements that pass, in order.
  pub collect-picked :
      (xs : List A) → length xs ≤ length metas → collect step 0 xs ≡ ok (picked keep out metas xs)
  collect-picked xs l = collect-from [] metas xs refl l

pub collect-chosen {ℓ κ μ} :
    {A : Type ℓ} {M : Type κ} {B : Type μ} (metas : List M) (keep : M → A → Bool) (out : A → B)
    (step : ℕ → A → Result (List B))
    → ((i : ℕ) (m : M) (x : A)
        → get_elem? metas i ≡ some m
        → step i x ≡ ok (if keep m x then out x ∷ [] else []))
    → (xs : List A) → length xs ≤ length metas
    → collect step 0 xs ≡ ok (map out (chosen keep metas xs))
collect-chosen metas keep out step steps xs l =
    collect-picked metas keep (λ m x. out x) step steps xs l
    ∙ ap (λ r. ok r) (picked-chosen keep out metas xs)

pub map-fst {ℓ κ μ} :
    {A : Type ℓ} {B : Type κ} {C : Type μ} (f : A → B) (g : A → C) (xs : List A)
    → map (λ p. p.0) (map {B = B × C} (λ x. (f x, g x)) xs) ≡ map f xs
map-fst f g [] = refl
map-fst f g (x ∷ xs) = ap (◌∷◌ (f x)) (map-fst f g xs)

pub map-snd {ℓ κ μ} :
    {A : Type ℓ} {B : Type κ} {C : Type μ} (f : A → B) (g : A → C) (xs : List A)
    → map (λ p. p.1) (map {B = B × C} (λ x. (f x, g x)) xs) ≡ map g xs
map-snd f g [] = refl
map-snd f g (x ∷ xs) = ap (◌∷◌ (g x)) (map-snd f g xs)

-- An element that passes with every metadata is chosen.
pub chosen-always {ℓ κ} :
    {A : Type ℓ} {M : Type κ} (keep : M → A → Bool) (ms : List M) (xs : List A) (i : ℕ) (x : A)
    → get_elem? xs i ≡ some x
    → length xs ≤ length ms
    → ((m : M) → keep m x ≡ true)
    → Mem x (chosen keep ms xs)
chosen-always keep ms [] i x e l k = cc
chosen-always keep [] (y ∷ xs) i x e l k = elim l [ ]
chosen-always keep (m ∷ ms) (y ∷ xs) zero x e l k =
    let same : y ≡ x = cc in rw (same, k m) mem-cons_self
chosen-always keep (m ∷ ms) (y ∷ xs) (suc i) x e l k =
    let rest = chosen-always keep ms xs i x e (omega arith) k in
    elim (Bool-cases (keep m y)) [
      | inl kept ↦ rw kept (mem-cons_of_mem y rest)
      | inr left_out ↦ rw left_out rest
    ]
