-- ===== src/Base/Bits.antt =====
-- Single bits of a byte: the masks `0x80 >> i`, and what a test says after a mask was set.
use Prim.Native.Nat.{ℕ, zero, suc, ◌<◌, bit_and, bit_or, bit_and-bitwise}
use mathlib.Core.Path.{◌≡◌, refl}
use mathlib.Core.Logic.{inl, inr}
use mathlib.Core.Bool.{Bool, true, false, ◌&&◌, ◌||◌}
use mathlib.Core.List.{List, [], ◌∷◌}
use native.Mathlib.Omega.{arith}
use socket_template.Base.Tests.{Bool-cases, ◌==◌, not, ltb}
use socket_template.Base.Lists.{get_or}

-- const uint8_t bit_hex[8]
abbrev pub bit_hex : List ℕ
bit_hex = 0x80 ∷ 0x40 ∷ 0x20 ∷ 0x10 ∷ 0x08 ∷ 0x04 ∷ 0x02 ∷ 0x01 ∷ []

-- val & bit_hex[i]
unfoldable pub test_bit : ℕ → ℕ → Bool
test_bit v i = not (bit_and v (get_or bit_hex i 0) == 0)

-- val | bit_hex[i]
unfoldable pub set_bit : ℕ → ℕ → ℕ
set_bit v i = bit_or v (get_or bit_hex i 0)

pub test_bit_zero : (i : ℕ) → test_bit 0 i ≡ false
unfolding test_bit
test_bit_zero i =
    let none_set : bit_and 0 (get_or bit_hex i 0) ≡ 0 = bit_and-bitwise 0 (get_or bit_hex i 0) in
    rw none_set

abbrev eqb : Bool → Bool → Bool
eqb true b = b
eqb false b = not b

eqb→eq : (a b : Bool) → eqb a b ≡ true → a ≡ b
eqb→eq a b h = ground arith

-- Does a test hold of each number below the bound?
holds : (ℕ → Bool) → ℕ → Bool
holds test zero = true
holds test (suc bound) = holds test bound && test bound

holds_at :
    (test : ℕ → Bool) (bound : ℕ) → holds test bound ≡ true → (k : ℕ) → k < bound → test k ≡ true
unfolding holds
holds_at test zero all k below = absurd (omega arith)
holds_at test (suc bound) all k below = elim (Bool-cases (k == bound)) [
  | inl last ↦ let e : k ≡ bound = ground arith in rw e (ground arith)
  | inr before ↦ holds_at test bound (ground arith) k (ground arith)
]

abbrev set_bit_row : ℕ → ℕ → ℕ → Bool
set_bit_row i j v = eqb (test_bit (set_bit v i) j) ((i == j) || test_bit v j)

abbrev set_bit_rows : ℕ → Bool
set_bit_rows v = holds (λ i. holds (λ j. set_bit_row i j v) 8) 8

set_bit_table : holds set_bit_rows 256 ≡ true
unfolding holds test_bit set_bit
set_bit_table = refl

-- Setting a bit of a byte sets that bit and leaves the seven others.
pub test_bit-set_bit :
    (v i j : ℕ) → v < 256 → i < 8 → j < 8 → test_bit (set_bit v i) j ≡ ((i == j) || test_bit v j)
test_bit-set_bit v i j hv hi hj =
    let rows = holds_at set_bit_rows 256 set_bit_table v hv in
    let row = holds_at (λ i. holds (λ j. set_bit_row i j v) 8) 8 rows i hi in
    eqb→eq _ _ (holds_at (λ j. set_bit_row i j v) 8 row j hj)

abbrev stays_byte : ℕ → Bool
stays_byte v = holds (λ i. ltb (set_bit v i) 256) 8

stays_byte_table : holds stays_byte 256 ≡ true
unfolding holds set_bit
stays_byte_table = refl

pub set_bit-lt : (v i : ℕ) → v < 256 → i < 8 → set_bit v i < 256
set_bit-lt v i hv hi =
    let row = holds_at stays_byte 256 stays_byte_table v hv in
    ltb_lt (holds_at (λ i. ltb (set_bit v i) 256) 8 row i hi)
  where
    ltb_lt : ltb (set_bit v i) 256 ≡ true → set_bit v i < 256
    ltb_lt h = ground arith
