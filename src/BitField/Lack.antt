-- ===== src/BitField/Lack.antt =====
-- LackNeedPiece: the two nested loops against one pass over the piece numbers.
use socket_template.Base.{
  ℕ, zero, suc, ◌+◌, ◌-◌, ◌*◌, ◌/◌, ◌%◌, ◌≤◌, ◌<◌, ◌≡◌, refl, ap, inl, inr, Bool, false, ◌&&◌, some,
  List, [], ◌∷◌, ◌++◌, length, get_or, drop, filter, ◌==◌, ltb, not, min, test_bit, append-nil,
  length-drop, Bool-cases, arith,
}
use socket_template.BitField.{BitField, lack_byte, lack_bytes, lack_need_piece}
use socket_template.BitField.Fill.{has_piece, IsValid}

-- from, from + 1, …: `count` numbers
abbrev pub range : ℕ → ℕ → List ℕ
range from zero = []
range from (suc count) = from ∷ range (from + 1) count

-- The bit of piece `n` in a field without its prefix.
abbrev pub bit_of : List ℕ → ℕ → Bool
bit_of bs n = test_bit (get_or bs (n / 8) 0) (n % 8)

abbrev lacks : ℕ → ℕ → ℕ → Bool
lacks t o i = test_bit t i && not (test_bit o i)

-- The inner loop from its bit `i`, for the byte that holds the pieces from `base`.
abbrev lacks_from : ℕ → ℕ → ℕ → ℕ → Bool
lacks_from t o base n = lacks t o (n - base)

-- What the inner loop leaves: the pieces lacking, and where the index and the total stand.
record Scanned (t o base index left rounds : ℕ) (r : List ℕ × ℕ × ℕ) : Type 0 where
  found : r.0 ≡ filter (lacks_from t o base) (range index (min rounds left))
  index_after : r.1 ≡ index + min rounds left
  left_after : r.2 ≡ left - rounds

lack_byte-Scanned :
    (rounds i t o base index left : ℕ)
    → index ≡ base + i
    → Scanned t o base index left rounds (lack_byte rounds i t o index left)
unfolding lack_byte
lack_byte-Scanned zero i t o base index left e =
    let stop : min 0 left ≡ 0 = omega arith in
    record { found = rw stop; index_after = omega arith; left_after = omega arith }
lack_byte-Scanned (suc r) i t o base index zero e =
    let stop : min (suc r) 0 ≡ 0 = omega arith in
    record { found = rw stop; index_after = omega arith; left_after = omega arith }
lack_byte-Scanned (suc r) i t o base index (suc left) e =
    let ih = lack_byte-Scanned r (i + 1) t o base (index + 1) (suc left - 1) (omega arith) in
    let going : (suc left == 0) ≡ false = ground arith in
    let at : index - base ≡ i = omega arith in
    let more : min (suc r) (suc left) ≡ suc (min r left) = omega arith in
    let one_less : suc left - 1 ≡ left = omega arith in
    record {
      found = rw (going, lack_byte, ih.found, one_less, more, at);
      index_after = rw (going, lack_byte, ih.index_after) (omega arith);
      left_after = rw (going, lack_byte, ih.left_after) (omega arith);
    }

range-append : (from m n : ℕ) → range from (m + n) ≡ range from m ++ range (from + m) n
range-append from zero n =
    let e : from + 0 ≡ from = omega arith in let e' : 0 + n ≡ n = omega arith in rw (e, e')
range-append from (suc m) n =
    let e : suc m + n ≡ suc (m + n) = omega arith in
    let e' : from + suc m ≡ from + 1 + m = omega arith in
    rw (e, e') (ap (λ (xs : List ℕ). from ∷ xs) (range-append (from + 1) m n))

filter-append : (p : ℕ → Bool) (xs ys : List ℕ) → filter p (xs ++ ys) ≡ filter p xs ++ filter p ys
filter-append p [] ys = refl
filter-append p (x ∷ xs) ys = ground (arith, filter-append p xs ys)

filter-range :
    (p q : ℕ → Bool) (from count : ℕ)
    → ((n : ℕ) → from ≤ n → n < from + count → p n ≡ q n)
    → filter p (range from count) ≡ filter q (range from count)
filter-range p q from zero h = refl
filter-range p q from (suc count) h =
    let rest = filter-range p q (from + 1) count (λ n lo hi. h n (omega arith) (omega arith)) in
    rw (h from (omega arith) (omega arith), rest)

-- Piece `n` is there and not here, in fields whose first byte holds the pieces from `base`.
abbrev wanted : List ℕ → List ℕ → ℕ → ℕ → Bool
wanted theirs ours base n = bit_of theirs (n - base) && not (bit_of ours (n - base))

lack_bytes_done : (theirs ours : List ℕ) (index : ℕ) → lack_bytes theirs ours index 0 ≡ []
unfolding lack_bytes
lack_bytes_done [] ours index = refl
lack_bytes_done (t ∷ theirs) [] index = refl
lack_bytes_done (t ∷ theirs) (o ∷ ours) index = lack_bytes_done theirs ours index

wanted_first :
    (t o : ℕ) (theirs ours : List ℕ) (base n : ℕ)
    → base ≤ n
    → n < base + 8
    → lacks_from t o base n ≡ wanted (t ∷ theirs) (o ∷ ours) base n
wanted_first t o theirs ours base n lo hi =
    let byte : (n - base) / 8 ≡ 0 = omega arith in
    let bit : (n - base) % 8 ≡ n - base = omega arith in rw (byte, bit)

wanted_rest :
    (t o : ℕ) (theirs ours : List ℕ) (base n : ℕ)
    → base + 8 ≤ n
    → wanted theirs ours (base + 8) n ≡ wanted (t ∷ theirs) (o ∷ ours) base n
wanted_rest t o theirs ours base n lo =
    let byte : (n - base) / 8 ≡ suc ((n - (base + 8)) / 8) = omega arith in
    let bit : (n - base) % 8 ≡ (n - (base + 8)) % 8 = omega arith in rw (byte, bit)

lack_bytes-filter :
    (theirs ours : List ℕ) (base left : ℕ)
    → length theirs ≡ length ours
    → lack_bytes theirs ours base left
      ≡ filter (wanted theirs ours base) (range base (min (8 * length theirs) left))
unfolding lack_bytes
lack_bytes-filter [] ours base left e = let stop : min (8 * 0) left ≡ 0 = omega arith in rw stop
lack_bytes-filter (t ∷ theirs) [] base left e = absurd (omega arith)
lack_bytes-filter (t ∷ theirs) (o ∷ ours) base left e = elim (Bool-cases (ltb left 8)) [
  | inl short ↦
      let few : min 8 left ≡ left = ground arith in
      let all : min (8 * suc (length theirs)) left ≡ left = ground arith in
      let gone : left - 8 ≡ 0 = ground arith in
      let h =
        filter-range (lacks_from t o base) (wanted (t ∷ theirs) (o ∷ ours) base) base left
          (λ n lo hi. wanted_first t o theirs ours base n lo (ground arith)) in
      rw (one.found, one.index_after, one.left_after, few, all, gone, lack_bytes_done, append-nil) h
  | inr long ↦
      let full : min 8 left ≡ 8 = ground arith in
      let all : min (8 * suc (length theirs)) left ≡ 8 + min (8 * length theirs) (left - 8) =
        ground arith in
      let h =
        filter-range (lacks_from t o base) (wanted (t ∷ theirs) (o ∷ ours) base) base 8
          (λ n lo hi. wanted_first t o theirs ours base n lo hi) in
      let ih = lack_bytes-filter theirs ours (base + 8) (left - 8) (omega arith) in
      let h' =
        filter-range (wanted theirs ours (base + 8)) (wanted (t ∷ theirs) (o ∷ ours) base)
          (base + 8) (min (8 * length theirs) (left - 8))
          (λ n lo hi. wanted_rest t o theirs ours base n lo) in
      rw (
        one.found, one.index_after, one.left_after, full, all, ih, range-append, filter-append, h,
        h',
      )
]
  where
    one : Scanned t o base base left 8 (lack_byte 8 0 t o base left)
    one = lack_byte-Scanned 8 0 t o base base left (omega arith)

bit_of-drop : (p : List ℕ) (n : ℕ) → 5 < length p → bit_of (drop 5 p) n ≡ has_piece p n
bit_of-drop p n h = rw (get_or-drop 5 p (n / 8))
  where
    get_or-drop : (k : ℕ) (xs : List ℕ) (i : ℕ) → get_or (drop k xs) i 0 ≡ get_or xs (i + k) 0
    get_or-drop zero xs i = let e : i + 0 ≡ i = omega arith in rw e
    get_or-drop (suc k) [] i = refl
    get_or-drop (suc k) (x ∷ xs) i =
        let e : i + suc k ≡ suc (i + k) = omega arith in rw (e, get_or-drop k xs i)

-- On a valid field LackNeedPiece gives, for a peer's field of the same size, the pieces of the torrent
-- that the peer has and that are not marked here, each once and in ascending order.
pub lack_need_piece-filter :
    (f : BitField) (theirs : List ℕ)
    → IsValid f
    → length theirs + 5 ≡ length f.prefix_and_bit_field
    → lack_need_piece f (some theirs)
      ≡ filter (λ n. bit_of theirs n && not (has_piece f.prefix_and_bit_field n)) (range 0 f.total)
unfolding lack_need_piece
lack_need_piece-filter f theirs v e =
    let ours = drop 5 f.prefix_and_bit_field in
    let same : length theirs ≡ length ours = omega (arith, length-drop 5 f.prefix_and_bit_field) in
    let whole : min (8 * length theirs) f.total ≡ f.total = omega (arith, v.room) in
    let loop = lack_bytes-filter theirs ours 0 f.total same in
    let pointwise =
      filter-range (wanted theirs ours 0)
        (λ n. bit_of theirs n && not (has_piece f.prefix_and_bit_field n)) 0 f.total
        (λ n lo hi.
          let z : n - 0 ≡ n = omega arith in rw (z, bit_of-drop f.prefix_and_bit_field n v.long)) in
    ground (arith, v.free, v.long, loop, whole, pointwise)
