-- ===== src/Torrent/Pieces.antt =====
-- The pieces of a torrent whose hashes fit its length: one for every `piece_length` bytes begun.
use socket_template.Base.{
  ℕ, zero, suc, ◌+◌, ◌-◌, ◌*◌, ◌/◌, ◌%◌, ◌^◌, ◌≤◌, ◌<◌, ◌≡◌, refl, ap, ◌∙◌, true, false, some, List,
  [], ◌∷◌, length, ◌==◌, if◌then◌else◌, ℤ, pos, negsuc, to_i32, Bool-cases, inl, inr, arith,
}
use socket_template.Torrent.{
  Info, get_file_total, rest_after, get_index_total, get_index_bit_total, get_index_end,
  get_index_end_length, get_index_normal_length, get_piece_length,
}

-- `n` pieces, the last of `last` bytes.
pub record HasPieces (t : Info) (n last : ℕ) : Type 0 where
  pub hashes : length t.pieces / 20 ≡ n
  pub some_piece : 0 < n
  pub some_byte : 0 < last
  pub last_fits : last ≤ t.piece_length
  pub all : get_file_total t ≡ (n - 1) * t.piece_length + last
  pub count_fits : n < 2 ^ 31
  pub piece_fits : t.piece_length < 2 ^ 31

to_i32_small : (x : ℕ) → x < 2 ^ 31 → to_i32 x ≡ pos x
to_i32_small x h = ground arith

to_i32_wrapped : (x : ℕ) → 0 < x → x < 2 ^ 31 → to_i32 (x + 2 ^ 64 - 1) ≡ pos (x - 1)
to_i32_wrapped x p h = ground arith

module _ (t : Info) (n last : ℕ) (v : HasPieces t n last) where
  pub get_index_end_lem : get_index_end t ≡ pos (n - 1)
  unfolding get_index_end
  get_index_end_lem = rw v.hashes (to_i32_wrapped n v.some_piece v.count_fits)

  below : (n - 1) * t.piece_length < 2 ^ 62
  below = grind (arith, v.count_fits, v.piece_fits)

  rest_after_last : rest_after (get_file_total t) (pos (n - 1)) t.piece_length ≡ last
  unfolding rest_after
  rest_after_last =
      let small : (n - 1) % 2 ^ 64 ≡ n - 1 = omega (arith, v.count_fits) in
      rw (small, v.all) (omega (arith, below, v.last_fits, v.piece_fits))

  pub get_piece_length_lem :
      (i : ℕ)
      → i < n
      → get_piece_length t (pos i) ≡ pos (if i + 1 == n then last else t.piece_length)
  unfolding get_piece_length
  get_piece_length_lem i h = elim (Bool-cases (i + 1 == n)) [
    | inl final ↦
        let same : (n - 1 == i) ≡ true = ground arith in
        elim (Bool-cases (0 == n - 1)) [
          | inl one ↦
              let whole : get_file_total t ≡ last = rw v.all (grind arith) in
              rw
                (
                  v.hashes,
                  to_i32_wrapped n v.some_piece v.count_fits,
                  rest_after_last,
                  same,
                  one,
                  whole,
                  final,
                )
                (to_i32_small last (omega (arith, v.last_fits, v.piece_fits)))
          | inr more ↦
              rw
                (
                  v.hashes,
                  to_i32_wrapped n v.some_piece v.count_fits,
                  rest_after_last,
                  same,
                  more,
                  final,
                )
                (to_i32_small last (omega (arith, v.last_fits, v.piece_fits)))
        ]
    | inr before ↦
        let other : (n - 1 == i) ≡ false = ground arith in
        rw (v.hashes, to_i32_wrapped n v.some_piece v.count_fits, rest_after_last, other, before)
          (to_i32_small t.piece_length v.piece_fits)
  ]

  get_index_end_length_lem : get_index_end_length t ≡ pos last
  unfolding get_index_end_length
  get_index_end_length_lem =
      rw (get_index_end_lem, rest_after_last)
        (to_i32_small last (omega (arith, v.last_fits, v.piece_fits)))

  get_index_normal_length_lem : get_index_normal_length t ≡ pos t.piece_length
  unfolding get_index_normal_length
  get_index_normal_length_lem = to_i32_small t.piece_length v.piece_fits

  get_index_total_lem : get_index_total t ≡ some n
  unfolding get_index_total
  get_index_total_lem = some_pieces t.pieces refl
    where
      some_pieces : (ps : List ℕ) → t.pieces ≡ ps → get_index_total t ≡ some n
      some_pieces [] e = absurd (nothing_there (ap length e))
        where
          nothing_there : length t.pieces ≡ 0 → ⊥
          nothing_there z = omega (arith, v.hashes, v.some_piece)
      some_pieces (p ∷ ps) e =
          let kept : length t.pieces / 20 % 2 ^ 32 ≡ n = omega (arith, v.hashes, v.count_fits) in
          ground (arith, e, kept)

  -- One byte for every eight pieces begun.
  pub get_index_bit_total_lem :
      (k : ℕ) × (get_index_bit_total t ≡ some (suc k)) × (n ≤ 8 * suc k) × (8 * k < n)
  unfolding get_index_bit_total
  get_index_bit_total_lem = (
    (n - 1) / 8,
    rw (get_index_total_lem, get_index_bit_total) bytes,
    omega (arith, v.some_piece),
    omega (arith, v.some_piece),
  )
    where
      bytes : some (if n % 8 == 0 then n / 8 else n / 8 + 1) ≡ some (suc ((n - 1) / 8))
      bytes = elim (Bool-cases (n % 8 == 0)) [
        | inl e ↦ rw e (ap some (ground (arith, v.some_piece)))
        | inr e ↦ rw e (ap some (ground (arith, v.some_piece)))
      ]

-- An int32_t length as a number.
abbrev pub size_of : ℤ → ℕ
size_of (pos n) = n
size_of (negsuc n) = 0

pub sum_pieces : Info → ℕ → ℕ
sum_pieces t zero = 0
sum_pieces t (suc k) = sum_pieces t k + size_of (get_piece_length t (pos k))

sum_pieces_normal :
    (t : Info) (n last : ℕ)
    → HasPieces t n last
    → (k : ℕ) → k + 1 ≤ n
    → sum_pieces t k ≡ k * t.piece_length
unfolding sum_pieces
sum_pieces_normal t n last v zero h = omega arith
sum_pieces_normal t n last v (suc k) h =
    let before : (k + 1 == n) ≡ false = ground arith in
    let size = get_piece_length_lem t n last v k (omega arith) in
    let size' = rw before at size in
    rw (size', sum_pieces_normal t n last v k (omega arith)) (omega arith)

-- The pieces of a torrent fill it: every piece but the last has the piece length, the last has what
-- is left, from one byte up to a whole piece, their sum is the total length of the files, and
-- GetIndexEnd and GetIndexEndLength name the last one and its length.
pub sum_pieces-get_file_total :
    (t : Info) (n last : ℕ)
    → HasPieces t n last
    → (sum_pieces t n ≡ get_file_total t)
      × ((i : ℕ)
          → i < n
          → get_piece_length t (pos i) ≡ pos (if i + 1 == n then last else t.piece_length))
      × (get_index_end t ≡ pos (n - 1))
      × (get_index_end_length t ≡ get_piece_length t (get_index_end t))
unfolding sum_pieces
sum_pieces-get_file_total t n last v =
    (total, get_piece_length_lem t n last v, get_index_end_lem t n last v, ends)
  where
    final : (n - 1 + 1 == n) ≡ true
    final = ground (arith, v.some_piece)

    last_one : get_piece_length t (pos (n - 1)) ≡ pos last
    last_one = rw final at (get_piece_length_lem t n last v (n - 1) (omega (arith, v.some_piece)))

    total : sum_pieces t n ≡ get_file_total t
    total =
        let e : n ≡ suc (n - 1) = omega (arith, v.some_piece) in
        let up_to = sum_pieces_normal t n last v (n - 1) (omega (arith, v.some_piece)) in
        ap (sum_pieces t) e ∙ (unfold sum_pieces in rw (up_to, last_one, v.all))

    ends : get_index_end_length t ≡ get_piece_length t (get_index_end t)
    ends = rw (get_index_end_lem t n last v, last_one) (get_index_end_length_lem t n last v)
