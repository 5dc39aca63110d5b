-- ===== src/BitField/Examples.antt =====
-- Runs of the bit field on a torrent of ten pieces.
use socket_template.Base.{
  ℕ, ◌≡◌, refl, true, false, ◌||◌, ◌&&◌, some, [], ◌∷◌, ◌==◌, not, filter, pos, unlocked, arith,
}
use socket_template.BitField.{
  BitField, new, set_parameter, fill_bit_field, check_bit_field, lack_need_piece,
}
use socket_template.BitField.Fill.{has_piece, IsValid, fill_bit_field-IsValid}
use socket_template.BitField.Lack.{bit_of, range, lack_need_piece-filter}
use socket_template.BitField.Progress.{set_parameter-IsValid}

-- Ten pieces in two bytes.
abbrev ten : BitField
ten = set_parameter new (0 ∷ 0 ∷ []) 10

ten-IsValid : IsValid ten
ten-IsValid = (set_parameter-IsValid 1 10 (omega arith)).0

filled :
    fill_bit_field ten (pos 9)
    ≡ some (record {
      prefix_and_bit_field = 0 ∷ 0 ∷ 0 ∷ 3 ∷ 5 ∷ 0 ∷ 0x40 ∷ [];
      total = 10;
      cur_sum = 1;
      lock = unlocked;
    })
unfolding fill_bit_field set_parameter new
filled = refl

-- The same field with its last piece.
abbrev nine : BitField
nine = record {
  prefix_and_bit_field = 0 ∷ 0 ∷ 0 ∷ 3 ∷ 5 ∷ 0 ∷ 0x40 ∷ [];
  total = 10;
  cur_sum = 1;
  lock = unlocked;
}

ten_pieces :
    (check_bit_field nine (pos 9) ≡ some true) × (check_bit_field nine (pos 8) ≡ some false)
unfolding check_bit_field
ten_pieces = (refl, refl)

lacking : lack_need_piece nine (some (0x81 ∷ 0x7f ∷ [])) ≡ 0 ∷ 7 ∷ []
unfolding lack_need_piece
lacking = refl

fill_bit_field-IsValid_example :
    (f' : BitField) × (fill_bit_field ten (pos 9) ≡ some f')
    × IsValid f'
    × (f'.total ≡ 10)
    × ((m : ℕ)
        → has_piece f'.prefix_and_bit_field m ≡ ((9 == m) || has_piece ten.prefix_and_bit_field m))
unfolding set_parameter new
fill_bit_field-IsValid_example = fill_bit_field-IsValid ten 9 ten-IsValid (omega arith)

lack_need_piece-filter_example :
    lack_need_piece ten (some (0x81 ∷ 0x7f ∷ []))
    ≡ filter
        (λ n. bit_of (0x81 ∷ 0x7f ∷ []) n && not (has_piece ten.prefix_and_bit_field n))
        (range 0 10)
unfolding set_parameter new
lack_need_piece-filter_example = lack_need_piece-filter ten (0x81 ∷ 0x7f ∷ []) ten-IsValid refl
