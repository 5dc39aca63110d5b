-- ===== src/BitField/Fill.antt =====
-- FillBitField and CheckPiece: what is marked is found, and the count of marks is kept.
use socket_template.Base.{
  ℕ, zero, suc, ◌+◌, ◌*◌, ◌/◌, ◌%◌, ◌≤◌, ◌<◌, ◌≡◌, refl, inl, inr, Bool, true, false, ◌||◌, some,
  none, List, [], ◌∷◌, All, length, get_or, set, ◌==◌, ltb, if◌then◌else◌, unlocked, pos, negsuc,
  test_bit, set_bit, test_bit-set_bit, set_bit-lt, get_or-set, get_elem?-get_or, length-set,
  Bool-cases, arith,
}
use socket_template.BitField.{BitField, fill_bit_field, char_at, check_bit_field, check_piece}

-- Piece `n` is marked in the field.
abbrev pub has_piece : List ℕ → ℕ → Bool
has_piece p n = test_bit (get_or p (n / 8 + 5) 0) (n % 8)

-- How many of the pieces below `n` are marked.
unfoldable pub count_pieces : List ℕ → ℕ → ℕ
count_pieces p zero = 0
count_pieces p (suc n) = (if has_piece p n then 1 else 0) + count_pieces p n

-- The field of a torrent between two calls.
pub record IsValid (f : BitField) : Type 0 where
  pub free : f.lock ≡ unlocked
  pub bytes : All (λ b. b < 256) f.prefix_and_bit_field
  pub long : 5 < length f.prefix_and_bit_field
  pub room : f.total + 40 ≤ 8 * length f.prefix_and_bit_field
  pub counted : f.cur_sum ≡ count_pieces f.prefix_and_bit_field f.total
  pub spare : (n : ℕ) → f.total ≤ n → has_piece f.prefix_and_bit_field n ≡ false

-- What FillBitField writes.
abbrev mark : List ℕ → ℕ → List ℕ
mark p n = set p (n / 8 + 5) (set_bit (get_or p (n / 8 + 5) 0) (n % 8))

get_or-lt : (p : List ℕ) (i : ℕ) → All (λ b. b < 256) p → get_or p i 0 < 256
get_or-lt [] i h = omega arith
get_or-lt (x ∷ xs) zero h = h.0
get_or-lt (x ∷ xs) (suc i) h = get_or-lt xs i h.1

set-bytes : (p : List ℕ) (i v : ℕ) → v < 256 → All (λ b. b < 256) p → All (λ b. b < 256) (set p i v)
set-bytes [] i v hv h = tt
set-bytes (x ∷ xs) zero v hv h = (hv, h.1)
set-bytes (x ∷ xs) (suc i) v hv h = (h.0, set-bytes xs i v hv h.1)

has_piece-mark :
    (p : List ℕ) (n m : ℕ)
    → All (λ b. b < 256) p
    → n / 8 + 5 < length p
    → has_piece (mark p n) m ≡ ((n == m) || has_piece p m)
has_piece-mark p n m h lt = ground (
  arith,
  get_or-set p (n / 8 + 5) (m / 8 + 5) (set_bit (get_or p (n / 8 + 5) 0) (n % 8)) 0,
  test_bit-set_bit (get_or p (n / 8 + 5) 0) (n % 8) (m % 8),
  get_or-lt p (n / 8 + 5) h,
)

count_pieces-mark :
    (p : List ℕ) (n k : ℕ)
    → All (λ b. b < 256) p
    → n / 8 + 5 < length p
    → has_piece p n ≡ false
    → count_pieces (mark p n) k ≡ count_pieces p k + (if ltb n k then 1 else 0)
unfolding count_pieces
count_pieces-mark p n zero h lt e = ground arith
count_pieces-mark p n (suc k) h lt e =
    ground (arith, count_pieces-mark p n k h lt e, has_piece-mark p n k h lt)

-- A piece below the total is in the part of the string behind the prefix.
in_field :
    (f : BitField) (n : ℕ) → IsValid f → n < f.total → n / 8 + 5 < length f.prefix_and_bit_field
in_field f n v h = omega (arith, v.room)

filled_field : BitField → ℕ → BitField
filled_field f n =
    if has_piece f.prefix_and_bit_field n then record f { lock = unlocked } else record f {
      prefix_and_bit_field = mark f.prefix_and_bit_field n;
      cur_sum = f.cur_sum + 1;
      lock = unlocked;
    }

fill_bit_field-filled :
    (f : BitField) (n : ℕ)
    → IsValid f
    → n < f.total
    → fill_bit_field f (pos n) ≡ some (filled_field f n)
unfolding fill_bit_field filled_field
fill_bit_field-filled f n v h =
    ground (
      arith,
      v.free,
      v.long,
      get_elem?-get_or f.prefix_and_bit_field (n / 8 + 5) 0,
      in_field f n v h,
    )

filled_field-IsValid : (f : BitField) (n : ℕ) → IsValid f → n < f.total → IsValid (filled_field f n)
unfolding filled_field
filled_field-IsValid f n v h = elim (Bool-cases (has_piece p n)) [
  | inl e ↦ rw e (record {
    free = refl;
    bytes = v.bytes;
    long = v.long;
    room = v.room;
    counted = v.counted;
    spare = v.spare;
  })
  | inr e ↦ rw e (record {
    free = refl;
    bytes =
        set-bytes p (n / 8 + 5) _
          (set_bit-lt _ (n % 8) (get_or-lt p (n / 8 + 5) v.bytes) (omega arith)) v.bytes;
    long =
        omega (arith, v.long, length-set p (n / 8 + 5) (set_bit (get_or p (n / 8 + 5) 0) (n % 8)));
    room =
        omega (arith, v.room, length-set p (n / 8 + 5) (set_bit (get_or p (n / 8 + 5) 0) (n % 8)));
    counted = ground (arith, v.counted, count_pieces-mark p n f.total v.bytes (in_field f n v h) e);
    spare = λ m hm. ground (arith, v.spare m hm, has_piece-mark p n m v.bytes (in_field f n v h));
  })
]
  where
    p : List ℕ
    p = f.prefix_and_bit_field

has_piece-filled_field :
    (f : BitField) (n m : ℕ)
    → IsValid f
    → n < f.total
    → has_piece (filled_field f n).prefix_and_bit_field m
      ≡ ((n == m) || has_piece f.prefix_and_bit_field m)
unfolding filled_field
has_piece-filled_field f n m v h =
    ground (arith, has_piece-mark f.prefix_and_bit_field n m v.bytes (in_field f n v h))

total-filled_field : (f : BitField) (n : ℕ) → (filled_field f n).total ≡ f.total
unfolding filled_field
total-filled_field f n = ground arith

char_at-get_or : (p : List ℕ) (i : ℕ) → i ≤ length p → char_at p i ≡ some (get_or p i 0)
unfolding char_at
char_at-get_or [] zero h = refl
char_at-get_or [] (suc i) h = absurd (omega arith)
char_at-get_or (x ∷ xs) zero h = refl
char_at-get_or (x ∷ xs) (suc i) h = char_at-get_or xs i (omega arith)

pub char_at-answers : (p : List ℕ) (i b : ℕ) → char_at p i ≡ some b → b ≡ get_or p i 0
unfolding char_at
char_at-answers [] zero b e = ground arith
char_at-answers [] (suc i) b e = ground arith
char_at-answers (x ∷ xs) zero b e = ground arith
char_at-answers (x ∷ xs) (suc i) b e = char_at-answers xs i b e

-- On a valid field CheckBitField reads the mark of every piece of the torrent, and answers no to a
-- negative index.
pub check_bit_field-has_piece :
    (f : BitField)
    → IsValid f
    → ((n : ℕ)
        → n < f.total
        → check_bit_field f (pos n) ≡ some (has_piece f.prefix_and_bit_field n))
      × ((n : ℕ) → check_bit_field f (negsuc n) ≡ some false)
unfolding check_bit_field
check_bit_field-has_piece f v = (
  λ n h.
      ground (
        arith,
        v.free,
        v.long,
        char_at-get_or f.prefix_and_bit_field (n / 8 + 5),
        in_field f n v h,
      ),
  λ n. refl,
)

-- The same of CheckPiece, which puts -1 in the place of a negative index.
pub check_piece-has_piece :
    (f : BitField)
    → IsValid f
    → ((n : ℕ)
        → n < f.total
        → check_piece f (pos n) ≡ some (has_piece f.prefix_and_bit_field n, pos n))
      × ((n : ℕ) → check_piece f (negsuc n) ≡ some (true, negsuc 0))
unfolding check_piece
check_piece-has_piece f v = (
  λ n h.
      ground (
        arith,
        v.free,
        v.long,
        char_at-get_or f.prefix_and_bit_field (n / 8 + 5),
        in_field f n v h,
      ),
  λ n. refl,
)

-- FillBitField of a piece of the torrent succeeds and keeps the field valid, with its lock free and
-- `cur_sum` the number of marks; afterwards that piece and the ones that were marked before are
-- marked, and no others.
pub fill_bit_field-IsValid :
    (f : BitField) (n : ℕ)
    → IsValid f
    → n < f.total
    → (f' : BitField) × (fill_bit_field f (pos n) ≡ some f')
      × IsValid f'
      × (f'.total ≡ f.total)
      × ((m : ℕ)
          → has_piece f'.prefix_and_bit_field m ≡ ((n == m) || has_piece f.prefix_and_bit_field m))
fill_bit_field-IsValid f n v h = (
  filled_field f n,
  fill_bit_field-filled f n v h,
  filled_field-IsValid f n v h,
  total-filled_field f n,
  λ m. has_piece-filled_field f n m v h,
)

-- After FillBitField of a piece of a valid field, CheckBitField finds that piece, and answers for
-- every other piece of the torrent as it did before.
pub check_bit_field-fill_bit_field :
    (f : BitField) (n m : ℕ)
    → IsValid f
    → n < f.total
    → m < f.total
    → (f' : BitField) × (fill_bit_field f (pos n) ≡ some f')
      × (check_bit_field f' (pos m) ≡ (if n == m then some true else check_bit_field f (pos m)))
check_bit_field-fill_bit_field f n m v hn hm =
    let same : (filled_field f n).total ≡ f.total = total-filled_field f n in
    (
      filled_field f n,
      fill_bit_field-filled f n v hn,
      rw
          (
            (check_bit_field-has_piece f v).0 m hm,
            (check_bit_field-has_piece (filled_field f n) (filled_field-IsValid f n v hn)).0 m
                (omega arith),
            has_piece-filled_field f n m v hn,
          )
          (ground arith),
    )

char_at-beyond : (p : List ℕ) (i : ℕ) → length p < i → char_at p i ≡ none
unfolding char_at
char_at-beyond [] zero h = absurd (omega arith)
char_at-beyond [] (suc i) h = refl
char_at-beyond (x ∷ xs) zero h = absurd (omega arith)
char_at-beyond (x ∷ xs) (suc i) h = char_at-beyond xs i (omega arith)

pub check_piece_beyond :
    (f : BitField) (n : ℕ)
    → IsValid f
    → length f.prefix_and_bit_field < n / 8 + 5
    → check_piece f (pos n) ≡ none
unfolding check_piece
check_piece_beyond f n v h =
    ground (arith, v.free, v.long, char_at-beyond f.prefix_and_bit_field (n / 8 + 5) h)
