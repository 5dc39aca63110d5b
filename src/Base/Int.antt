-- ===== src/Base/Int.antt =====
-- Signed integers over the native numbers, for the `int` and `int32_t` values that may be negative.
use Prim.Native.Nat.{ℕ, zero, suc, ◌+◌, ◌-◌, ◌<◌, ◌^◌, ◌%◌, ◌/◌}
use mathlib.Core.Bool.{Bool, true, false}
use mathlib.Core.Path.{◌≡◌, refl}
use mathlib.Core.Logic.{◌⊎◌, inl, inr}
use socket_template.Base.Tests.{◌==◌, ltb, leb, if◌then◌else◌}

-- `negsuc n` is -(n + 1).
pub data ℤ : Type 0 where
  pos : ℕ → ℤ
  negsuc : ℕ → ℤ

-- The bit pattern of an int32_t.
abbrev pub to_u32 : ℤ → ℕ
to_u32 (pos n) = n % 2 ^ 32
to_u32 (negsuc n) = 2 ^ 32 - 1 - n % 2 ^ 32

-- The values that an int32_t holds.
abbrev pub IsInt32 : ℤ → Type 0
IsInt32 (pos n) = n < 2 ^ 31
IsInt32 (negsuc n) = n < 2 ^ 31

abbrev pub eq_ℤ : ℤ → ℤ → Bool
eq_ℤ (pos a) (pos b) = a == b
eq_ℤ (negsuc a) (negsuc b) = a == b
eq_ℤ (pos a) (negsuc b) = false
eq_ℤ (negsuc a) (pos b) = false

-- The value of a bit pattern as an int32_t: what a conversion from a wider unsigned type keeps.
abbrev pub to_i32 : ℕ → ℤ
to_i32 x = if ltb (x % 2 ^ 32) (2 ^ 31) then pos (x % 2 ^ 32) else negsuc (2 ^ 32 - x % 2 ^ 32 - 1)

abbrev pub neg_ℕ : ℕ → ℤ
neg_ℕ zero = pos 0
neg_ℕ (suc n) = negsuc n

-- a - b of two numbers, as an integer.
abbrev pub sub_ℕ : ℕ → ℕ → ℤ
sub_ℕ a b = if leb b a then pos (a - b) else negsuc (b - a - 1)

abbrev pub add_ℤ : ℤ → ℤ → ℤ
add_ℤ (pos a) (pos b) = pos (a + b)
add_ℤ (pos a) (negsuc b) = sub_ℕ a (b + 1)
add_ℤ (negsuc a) (pos b) = sub_ℕ b (a + 1)
add_ℤ (negsuc a) (negsuc b) = negsuc (a + b + 1)

abbrev pub lt_ℤ : ℤ → ℤ → Bool
lt_ℤ (pos a) (pos b) = ltb a b
lt_ℤ (pos a) (negsuc b) = false
lt_ℤ (negsuc a) (pos b) = true
lt_ℤ (negsuc a) (negsuc b) = ltb b a

-- C++ division and remainder round towards zero.
abbrev pub quot_ℤ : ℤ → ℕ → ℤ
quot_ℤ (pos a) m = pos (a / m)
quot_ℤ (negsuc a) m = neg_ℕ ((a + 1) / m)

abbrev pub rem_ℤ : ℤ → ℕ → ℤ
rem_ℤ (pos a) m = pos (a % m)
rem_ℤ (negsuc a) m = neg_ℕ ((a + 1) % m)

pub ℤ-cases : (i : ℤ) → ((n : ℕ) × (i ≡ pos n)) ⊎ ((n : ℕ) × (i ≡ negsuc n))
ℤ-cases (pos n) = inl (n, refl)
ℤ-cases (negsuc n) = inr (n, refl)
