-- ===== src/Torrent/Slices.antt =====
-- The slices that are asked for against the slices that are taken, where the piece length is a multiple of
-- the slice size and the last piece has at least one slice.
use socket_template.Base.{
  ℕ, suc, ◌+◌, ◌-◌, ◌*◌, ◌/◌, ◌%◌, ◌≤◌, ◌<◌, ◌≡◌, refl, Bool, true, false, All, length, ◌==◌,
  if◌then◌else◌, ℤ, pos, eq_ℤ, Bool-cases, inl, inr, ◌⊎◌, arith,
}
use socket_template.Torrent.{
  Info, slice_size, get_piece_length, get_index_end, get_piece_bit, check_end_slice, accepts_slice,
  piece_requests,
}
use socket_template.Torrent.Pieces.{HasPieces, get_piece_length_lem, get_index_end_lem, size_of}
use socket_template.Torrent.Cut.{Cut, Covers, piece_requests-both}

-- Slices of `size` bytes, where there is at least one.
bits_of :
    (t : Info) (i size : ℕ)
    → get_piece_length t (pos i) ≡ pos size
    → slice_size ≤ size
    → get_piece_bit t (pos i) ≡ pos ((size - 1) / slice_size + 1)
unfolding get_piece_bit
bits_of t i size e h = rw e (elim (Bool-cases (size % slice_size == 0)) [
  | inl exact ↦ rw exact (ground arith)
  | inr part ↦ rw part (ground arith)
])

module _ (t : Info) (n last : ℕ) (v : HasPieces t n last) (m : ℕ)
    (multiple : t.piece_length ≡ suc m * slice_size) (enough : slice_size ≤ last) where
  flag : (i : ℕ) → i < n → eq_ℤ (pos i) (get_index_end t) ≡ (i + 1 == n)
  flag i h = rw (get_index_end_lem t n last v) (ground (arith, v.some_piece))

  normal-Cut : (i : ℕ) → i < n → (i + 1 == n) ≡ false → Cut t i t.piece_length (suc m) slice_size
  normal-Cut i h before =
      let size = rw before at (get_piece_length_lem t n last v i h) in
      let count : (t.piece_length - 1) / slice_size + 1 ≡ suc m = omega (arith, multiple) in
      record {
        length_is = size;
        bits = rw (bits_of t i t.piece_length size (omega (arith, multiple)), count);
        some_slice = omega arith;
        some_left = omega arith;
        left_fits = omega arith;
        sum = omega (arith, multiple);
        whole = omega (arith, multiple);
        fits = omega (arith, multiple, v.piece_fits);
        end = inr (unfold check_end_slice in rw (flag i h, before), refl);
      }

  last-Cut :
      (i : ℕ)
      → i < n
      → (i + 1 == n) ≡ true
      → Cut t i last ((last - 1) / slice_size + 1) ((last - 1) % slice_size + 1)
  last-Cut i h final =
      let size = rw final at (get_piece_length_lem t n last v i h) in
      record {
        length_is = size;
        bits = bits_of t i last size enough;
        some_slice = omega arith;
        some_left = omega arith;
        left_fits = omega arith;
        sum = omega (arith, enough);
        whole = enough;
        fits = omega (arith, multiple, v.piece_fits, v.last_fits);
        end = inl (
            unfold check_end_slice in
            rw (flag i h, final, size) (left_over (Bool-cases (0 == last % slice_size))));
      }
    where
      left_over :
          (((0 == last % slice_size) ≡ true) ⊎ ((0 == last % slice_size) ≡ false))
          → ◌≡◌ {A = Bool × ℤ}
              (true, (if 0 == last % slice_size then pos slice_size else pos (last % slice_size)))
              (true, pos ((last - 1) % slice_size + 1))
      left_over (inl e) = rw e (ground arith)
      left_over (inr e) = rw e (ground arith)

-- Where the piece length is a whole number of slices and the last piece has a slice at least, the
-- requests sent for a piece ask for each of its bytes once, in order and in lengths of at most a
-- slice, and DPiece's tests let every slice that answers one of them pass.
pub piece_requests-Covers :
    (t : Info) (n last m i : ℕ)
    → HasPieces t n last
    → t.piece_length ≡ suc m * slice_size
    → slice_size ≤ last
    → i < n
    → Covers 0 (piece_requests t (pos i)) (size_of (get_piece_length t (pos i)))
      × All
          (λ (begin, length). accepts_slice t (pos i) (pos begin) (size_of length) ≡ true)
          (piece_requests t (pos i))
piece_requests-Covers t n last m i v multiple enough h = elim (Bool-cases (i + 1 == n)) [
  | inl final ↦
      let c = last-Cut t n last v m multiple enough i h final in
      rw c.length_is (piece_requests-both t i _ _ _ c)
  | inr before ↦
      let c = normal-Cut t n last v m multiple enough i h before in
      rw c.length_is (piece_requests-both t i _ _ _ c)
]
