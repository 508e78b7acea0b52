-- ===== src/Prelude/Int.antt =====
-- Integers over the native numbers, and Go's int64 and uint64.
use Prim.Native.Nat.{ℕ, suc, ◌+◌, ◌-◌, ◌*◌, ◌%◌, ◌≤◌, ◌<◌}
use mathlib.Core.Path.{◌≡◌, ap}
use mathlib.Core.Bool.{Bool, true}
use native.Mathlib.Omega.{arith}
use ipfs_blockchain_watcher.Prelude.Tests.{leb, ltb, ◌==◌, if◌then◌else◌}

-- `negsuc n` is -(n + 1).
pub data ℤ : Type 0 where
  pos : ℕ → ℤ
  negsuc : ℕ → ℤ

abbrev pub pos_part : ℤ → ℕ
pos_part (pos n) = n
pos_part (negsuc n) = 0

abbrev pub neg_part : ℤ → ℕ
neg_part (pos n) = 0
neg_part (negsuc n) = suc n

infix 50 ◌≤ℤ◌ ◌<ℤ◌
abbrev pub ◌≤ℤ◌ : ℤ → ℤ → Type 0
a ≤ℤ b = pos_part a + neg_part b ≤ pos_part b + neg_part a

abbrev pub ◌<ℤ◌ : ℤ → ℤ → Type 0
a <ℤ b = pos_part a + neg_part b < pos_part b + neg_part a

abbrev pub leb_ℤ : ℤ → ℤ → Bool
leb_ℤ a b = leb (pos_part a + neg_part b) (pos_part b + neg_part a)

abbrev pub ltb_ℤ : ℤ → ℤ → Bool
ltb_ℤ a b = ltb (pos_part a + neg_part b) (pos_part b + neg_part a)

abbrev pub eq_ℤ : ℤ → ℤ → Bool
eq_ℤ a b = (pos_part a + neg_part b) == (pos_part b + neg_part a)

pub eq_ℤ-eq : (a b : ℤ) → eq_ℤ a b ≡ true → a ≡ b
eq_ℤ-eq (pos m) (pos n) h = ap pos (ground arith)
eq_ℤ-eq (pos m) (negsuc n) h = absurd (ground arith)
eq_ℤ-eq (negsuc m) (pos n) h = absurd (ground arith)
eq_ℤ-eq (negsuc m) (negsuc n) h = ap negsuc (ground arith)

-- a - b, as an integer.
abbrev pub sub_ℕ : ℕ → ℕ → ℤ
sub_ℕ a b = if leb b a then pos (a - b) else negsuc (b - a - 1)

infixl 65 ◌+ℤ◌ ◌-ℤ◌
infixl 70 ◌*ℤ◌
unfoldable pub ◌+ℤ◌ : ℤ → ℤ → ℤ
a +ℤ b = sub_ℕ (pos_part a + pos_part b) (neg_part a + neg_part b)

unfoldable pub ◌-ℤ◌ : ℤ → ℤ → ℤ
a -ℤ b = sub_ℕ (pos_part a + neg_part b) (neg_part a + pos_part b)

unfoldable pub ◌*ℤ◌ : ℤ → ℤ → ℤ
a *ℤ b =
    sub_ℕ (pos_part a * pos_part b + neg_part a * neg_part b)
      (pos_part a * neg_part b + neg_part a * pos_part b)

pub +ℤ_parts :
    (a b : ℤ)
    → pos_part (a +ℤ b) + neg_part a + neg_part b ≡ neg_part (a +ℤ b) + pos_part a + pos_part b
unfolding ◌+ℤ◌
+ℤ_parts a b = ground arith

-- 2^64, the number of values of a uint64.
abbrev pub u64_mod : ℕ
u64_mod = 18446744073709551616

abbrev pub i64_mod : ℕ
i64_mod = 9223372036854775808

-- The two's complement reading of 64 bits.
abbrev pub of_bits : ℕ → ℤ
of_bits m = if ltb m i64_mod then pos m else negsuc (u64_mod - 1 - m)

-- The low 64 bits of an integer.
abbrev pub to_bits : ℤ → ℕ
to_bits (pos n) = n % u64_mod
to_bits (negsuc n) = u64_mod - 1 - n % u64_mod

-- Conversion to int64, as by `big.Int.Int64` and by a wrapping machine operation.
unfoldable pub int64 : ℤ → ℤ
int64 z = of_bits (to_bits z)

abbrev pub IsInt64 : ℤ → Type 0
IsInt64 z = (pos_part z < i64_mod) × (neg_part z ≤ i64_mod)

pub int64-eq_self : (z : ℤ) → IsInt64 z → int64 z ≡ z
unfolding int64
int64-eq_self (pos n) h = ground arith
int64-eq_self (negsuc n) h = ground arith

pub int64-IsInt64 : (z : ℤ) → IsInt64 (int64 z)
unfolding int64
int64-IsInt64 (pos n) = (ground arith, ground arith)
int64-IsInt64 (negsuc n) = (ground arith, ground arith)

-- uint64 operations.
abbrev pub add_u64 : ℕ → ℕ → ℕ
add_u64 a b = (a + b) % u64_mod

abbrev pub sub_u64 : ℕ → ℕ → ℕ
sub_u64 a b = (a + u64_mod - b) % u64_mod
