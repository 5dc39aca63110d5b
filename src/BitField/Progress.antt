-- ===== src/BitField/Progress.antt =====
-- The end of the download, the sizes reported to a tracker, and a field that was never set.
use socket_template.Base.{
  ℕ, zero, suc, ◌+◌, ◌-◌, ◌*◌, ◌/◌, ◌%◌, ◌^◌, ◌≤◌, ◌<◌, ◌≡◌, refl, ◌↔◌, inl, inr, true, false,
  Option, some, List, [], ◌∷◌, ◌++◌, All, All-append, length, get_or, replicate, leb, ◌==◌, ℤ, pos,
  negsuc, unlocked, writing, test_bit_zero, sym, length-replicate, Bool-cases, arith,
}
use socket_template.Wire.Bytes.{htonl, bytes-htonl}
use socket_template.BitField.{
  BitField, new, set_parameter, append_bits, set_prefix_length, fill_bit_field, lack_need_piece,
  game_over, down_load, left_size,
}
use socket_template.BitField.Fill.{has_piece, IsValid, count_pieces}

count_pieces-le : (p : List ℕ) (n : ℕ) → count_pieces p n ≤ n
unfolding count_pieces
count_pieces-le p zero = omega arith
count_pieces-le p (suc n) = ground (arith, count_pieces-le p n)

count_pieces_all :
    (p : List ℕ) (n : ℕ) → count_pieces p n ≡ n → (m : ℕ) → m < n → has_piece p m ≡ true
unfolding count_pieces
count_pieces_all p zero e m h = elim h [ ]
count_pieces_all p (suc n) e m h = elim (Bool-cases (m == n)) [
  | inl last ↦ let same : m ≡ n = ground arith in rw same (ground (arith, count_pieces-le p n))
  | inr less ↦ count_pieces_all p n (ground (arith, count_pieces-le p n)) m (ground arith)
]

count_pieces_full :
    (p : List ℕ) (n : ℕ) → ((m : ℕ) → m < n → has_piece p m ≡ true) → count_pieces p n ≡ n
unfolding count_pieces
count_pieces_full p zero h = refl
count_pieces_full p (suc n) h =
    ground (arith, h n, count_pieces_full p n (λ m lt. h m (omega arith)))

-- On a valid field GameOver answers yes exactly when every piece of the torrent is marked.
pub game_over_iff :
    (f : BitField)
    → IsValid f
    → (game_over f ≡ true) ↔ ((m : ℕ) → m < f.total → has_piece f.prefix_and_bit_field m ≡ true)
unfolding game_over
game_over_iff f v = (
  λ e. count_pieces_all f.prefix_and_bit_field f.total (ground (arith, v.free, v.counted)),
  λ h. ground (arith, v.free, v.counted, count_pieces_full f.prefix_and_bit_field f.total h),
)

-- A field without bits: FillBitField returns with the write lock held, and no later call gets the lock.
-- So nothing is ever marked, no piece is asked for and the download is never over.
pub fill_bit_field_short :
    (f : BitField) (n : ℕ)
    → f.lock ≡ unlocked
    → length f.prefix_and_bit_field ≤ 5
    → (f' : BitField) × (fill_bit_field f (pos n) ≡ some f')
      × ((i : ℤ) → fill_bit_field f' i ≡ some f')
      × ((bits : List ℕ) (total : ℕ) → set_parameter f' bits total ≡ f')
      × ((bits : Option (List ℕ)) → lack_need_piece f' bits ≡ [])
      × (game_over f' ≡ false)
unfolding fill_bit_field set_parameter lack_need_piece game_over
fill_bit_field_short f n e h =
    (record f { lock = writing }, ground arith, refused, λ bits total. refl, λ bits. refl, refl)
  where
    refused :
        (i : ℤ)
        → fill_bit_field (record f { lock = writing }) i ≡ some (record f { lock = writing })
    refused (pos n) = refl
    refused (negsuc n) = refl

-- While the torrent fits 32 bits and some piece is missing, the sizes sent to a tracker add up to it.
pub left_size-down_load :
    (f : BitField) (length_normal file_total : ℕ)
    → f.cur_sum * length_normal ≤ file_total
    → file_total < 2 ^ 32
    → left_size f length_normal file_total + down_load f length_normal file_total ≡ file_total
unfolding left_size down_load
left_size-down_load f length_normal file_total le lt = ground arith

get_or-replicate : (k i : ℕ) → get_or (replicate {A = ℕ} k 0) i 0 ≡ 0
get_or-replicate zero i = refl
get_or-replicate (suc k) zero = refl
get_or-replicate (suc k) (suc i) = get_or-replicate k i

HasPiece_zeros : (a b c d e k n : ℕ) → has_piece (a ∷ b ∷ c ∷ d ∷ e ∷ replicate k 0) n ≡ false
HasPiece_zeros a b c d e k n =
    let at : n / 8 + 5 ≡ suc (suc (suc (suc (suc (n / 8))))) = omega arith in
    rw (at, get_or-replicate) (test_bit_zero (n % 8))

count_pieces_none : (p : List ℕ) (n : ℕ) → ((m : ℕ) → has_piece p m ≡ false) → count_pieces p n ≡ 0
unfolding count_pieces
count_pieces_none p zero h = refl
count_pieces_none p (suc n) h = rw (h n, count_pieces_none p n h) (omega arith)

All-replicate : (k : ℕ) → All (λ b. b < 256) (replicate k 0)
All-replicate zero = tt
All-replicate (suc k) = (omega arith, All-replicate k)

abbrev zeros : ℕ → List ℕ
zeros k = htonl (k + 2) ++ (5 ∷ replicate (suc k) 0)

abbrev fresh : ℕ → ℕ → BitField
fresh k total = record {
  prefix_and_bit_field = zeros k;
  total = total;
  cur_sum = 0;
  lock = unlocked;
}

set_parameter-new : (k total : ℕ) → set_parameter new (replicate (suc k) 0) total ≡ fresh k total
unfolding set_parameter set_prefix_length append_bits new
set_parameter-new k total =
    let size : length (replicate {A = ℕ} k 0) ≡ k = length-replicate k 0 in
    let long : leb (suc (suc (suc (suc (suc (suc k)))))) 5 ≡ false = ground arith in
    let after : suc (suc (suc (suc (suc (suc k))))) - 4 ≡ k + 2 = omega arith in
    rw (size, long, after)

-- SetParameter of a new field with a byte of zeros for every eight pieces makes it valid, whatever the
-- number of bytes is, from one on; no piece is marked then.
pub set_parameter-IsValid :
    (k total : ℕ)
    → total ≤ 8 * suc k
    → IsValid (set_parameter new (replicate (suc k) 0) total)
      × ((n : ℕ)
          → has_piece (set_parameter new (replicate (suc k) 0) total).prefix_and_bit_field n
            ≡ false)
unfolding htonl
set_parameter-IsValid k total h = rw (set_parameter-new k total) (
  record {
    free = refl;
    bytes =
        All-append (λ b. b < 256) (htonl (k + 2)) (5 ∷ replicate (suc k) 0) (bytes-htonl (k + 2))
          (omega arith, All-replicate (suc k));
    long = omega arith;
    room = omega (arith, length-replicate {A = ℕ} k 0);
    counted = sym (count_pieces_none _ total (λ m. HasPiece_zeros _ _ _ _ _ (suc k) m));
    spare = λ m lo. HasPiece_zeros _ _ _ _ _ (suc k) m;
  },
  λ m. HasPiece_zeros _ _ _ _ _ (suc k) m,
)
