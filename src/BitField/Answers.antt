-- ===== src/BitField/Answers.antt =====
-- What CheckPiece, CheckBitField and LackNeedPiece say of any index, also one behind the last piece (BitTorrent/CszBitField.cpp).
use socket_template.Base.{
  ℕ, ◌+◌, ◌/◌, ◌≡◌, ap, ◌∙◌, Bool, false, ◌&&◌, some, none, Option-cases, Bool-cases, inl, inr,
  List, [], ◌∷◌, All, length, get_or, filter, ◌==◌, not, ℤ, pos, arith,
}
use socket_template.BitField.{BitField, check_piece, check_bit_field, char_at, lack_need_piece}
use socket_template.BitField.Fill.{has_piece, IsValid, char_at-answers}
use socket_template.BitField.Lack.{bit_of, range, lack_need_piece-filter}

pub check_piece-answers :
    (f : BitField) (n : ℕ) (r : Bool × ℤ)
    → IsValid f
    → check_piece f (pos n) ≡ some r
    → r ≡ (has_piece f.prefix_and_bit_field n, pos n)
unfolding check_piece
check_piece-answers f n r v e = elim (Option-cases (char_at f.prefix_and_bit_field (n / 8 + 5))) [
  | inl out ↦ ground (arith, v.free, v.long, out)
  | inr (b, there) ↦
      let value : b ≡ get_or f.prefix_and_bit_field (n / 8 + 5) 0 =
        char_at-answers f.prefix_and_bit_field (n / 8 + 5) b there in
      ground (arith, v.free, v.long, there, value)
]

pub check_bit_field-answers :
    (f : BitField) (n : ℕ) (b : Bool)
    → IsValid f
    → check_bit_field f (pos n) ≡ some b
    → b ≡ has_piece f.prefix_and_bit_field n
unfolding check_bit_field
check_bit_field-answers f n b v e = elim (Option-cases (check_piece f (pos n))) [
  | inl out ↦ let no : none ≡ some b = rw (check_bit_field, out) at e in ground arith
  | inr (r, at) ↦
      let answer = at ∙ ap some (check_piece-answers f n r v at) in
      let same : some (has_piece f.prefix_and_bit_field n) ≡ some b =
        rw (check_bit_field, answer) at e in
      ground arith
]

filter-All :
    (p : ℕ → Bool) (q : ℕ → Bool) (xs : List ℕ)
    → All (λ n. q n ≡ false) (filter (λ n. p n && not (q n)) xs)
filter-All p q [] = tt
filter-All p q (x ∷ xs) = elim (Bool-cases (p x && not (q x))) [
  | inl e ↦ rw e (ground arith, filter-All p q xs)
  | inr e ↦ rw e (filter-All p q xs)
]

-- Each index that LackNeedPiece gives is one of a piece that is missing here.
pub lack_need_piece-missing :
    (f : BitField) (theirs : List ℕ)
    → IsValid f
    → All (λ n. has_piece f.prefix_and_bit_field n ≡ false) (lack_need_piece f (some theirs))
unfolding lack_need_piece
lack_need_piece-missing f theirs v =
    elim (Bool-cases (length theirs + 5 == length f.prefix_and_bit_field)) [
      | inl e ↦
          rw (lack_need_piece-filter f theirs v (ground arith))
            (filter-All (bit_of theirs) (has_piece f.prefix_and_bit_field) (range 0 f.total))
      | inr e ↦ rw (mismatch e) tt
    ]
  where
    mismatch :
        (length theirs + 5 == length f.prefix_and_bit_field) ≡ false
        → lack_need_piece f (some theirs) ≡ []
    mismatch e = ground (arith, v.free, v.long, e)
