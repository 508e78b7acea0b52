-- ===== src/Prelude/Results.antt =====
-- Go's (value, error) pairs, and panics: a value, an error with its message, or a panic.
use Prim.Native.String.{String}
use mathlib.Core.Path.{◌≡◌, refl}
use mathlib.Core.Logic.{◌⊎◌, inl, inr}
use mathlib.Core.Option.{Option, none, some}
use mathlib.Core.List.{List, [], ◌∷◌, ◌++◌}
use Prim.Native.Nat.{ℕ, suc}

pub data Result {ℓ} (V : Type ℓ) : Type ℓ where
  panic : Result V
  err : String → Result V
  ok : V → Result V

-- `if err != nil { return err }`.
infixl 5 ◌>>=◌
abbrev pub ◌>>=◌ {ℓ κ} : {V : Type ℓ} {W : Type κ} → Result V → (V → Result W) → Result W
panic >>= next = panic
err message >>= next = err message
ok v >>= next = next v

-- A chain that succeeds had a first part that did.
pub >>=-eq-ok {ℓ κ} :
    {V : Type ℓ} {W : Type κ} (r : Result V) (next : V → Result W) {w : W}
    → (r >>= next) ≡ ok w
    → (v : V) × (r ≡ ok v) × (next v ≡ ok w)
>>=-eq-ok panic next e = cc
>>=-eq-ok (err message) next e = cc
>>=-eq-ok (ok v) next e = (v, refl, e)

pub Result-cases {ℓ} :
    {A : Type ℓ} (r : Result A)
    → ((a : A) × (r ≡ ok a)) ⊎ (((e : String) × (r ≡ err e)) ⊎ (r ≡ panic))
Result-cases (ok a) = inl (a, refl)
Result-cases (err e) = inr (inl (e, refl))
Result-cases panic = inr (inr refl)

-- xs[i] of what `get_elem?` found: out of range it panics.
abbrev pub or_panic {ℓ} : {A : Type ℓ} → Option A → Result A
or_panic none = panic
or_panic (some a) = ok a

-- `for i, x := range xs { if ... { out = append(out, ...) } }`, where a step may fail.
module _ {ℓ κ} {A : Type ℓ} {B : Type κ} where
  unfoldable pub collect : (ℕ → A → Result (List B)) → ℕ → List A → Result (List B)
  collect step i [] = ok []
  collect step i (x ∷ xs) = do out ← step i x; rest ← collect step (suc i) xs; ok (out ++ rest)
