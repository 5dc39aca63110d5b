-- ===== src/Torrent/Bounds.antt =====
-- Slices that the tests of DPiece let pass or turn away against what the piece has room for.
use socket_template.Base.{
  ℕ, ◌+◌, ◌-◌, ◌*◌, ◌^◌, ◌/◌, ◌%◌, ◌≤◌, ◌<◌, ◌≡◌, ◌≢◌, ◌∙◌, true, false, [], ◌∷◌, ltb, ◌==◌, ℤ, pos,
  eq_ℤ, Bool-cases, inl, inr, arith,
}
use socket_template.Torrent.{
  Info, slice_size, get_piece_length, get_index_end, check_end_slice_at, accepts_slice,
  piece_requests,
}
use socket_template.Torrent.Cut.{to_i32_behind}
use socket_template.Torrent.Pieces.{HasPieces, get_piece_length_lem, get_index_end_lem}

eq_ℤ→eq : (a b : ℤ) → eq_ℤ a b ≡ true → a ≡ b
eq_ℤ→eq a b h = ground arith

last_length :
    (t : Info) (n last : ℕ) → HasPieces t n last → get_piece_length t (pos (n - 1)) ≡ pos last
last_length t n last v =
    let final : (n - 1 + 1 == n) ≡ true = ground (arith, v.some_piece) in
    rw final at (get_piece_length_lem t n last v (n - 1) (omega (arith, v.some_piece)))

-- The tests of DPiece do not keep a slice inside its piece. For every index but the last, any begin
-- passes with a whole slice, also a negative one and one behind the end; for a last piece of a slice
-- or more, every later multiple of the slice size passes whose slice ends below 2 ^ 31.
pub accepts_slice_beyond :
    (t : Info) (n last : ℕ)
    → HasPieces t n last
    → ((i begin : ℤ) → i ≢ pos (n - 1) → accepts_slice t i begin slice_size ≡ true)
      × ((k : ℕ)
          → slice_size ≤ last
          → last < k * slice_size + slice_size
          → k * slice_size + slice_size < 2 ^ 31
          → accepts_slice t (pos (n - 1)) (pos (k * slice_size)) (last % slice_size) ≡ true)
unfolding accepts_slice check_end_slice_at
accepts_slice_beyond t n last v = (
  λ i begin other. elim (Bool-cases (eq_ℤ i (get_index_end t))) [
    | inl e ↦ absurd (other (eq_ℤ→eq i (get_index_end t) e ∙ get_index_end_lem t n last v))
    | inr e ↦ rw e
  ],
  λ k whole beyond int.
      let multiple : k * slice_size % slice_size ≡ 0 = omega arith in
      let long : ltb last slice_size ≡ false = ground arith in
      let out : ltb last (k * slice_size + slice_size) ≡ true = ground arith in
      let behind = to_i32_behind (k * slice_size) int in
      rw (last_length t n last v, get_index_end_lem t n last v, long, multiple, behind, out)
        (ground arith),
)

-- A last piece shorter than a slice cannot be had: the one request that is sent for it asks for a
-- whole slice, and an answer of that length is turned away, as is one at any begin but 0.
pub piece_requests_short :
    (t : Info) (n last : ℕ)
    → HasPieces t n last
    → last < slice_size
    → (piece_requests t (pos (n - 1)) ≡ (0, pos slice_size) ∷ [])
      × ((begin : ℤ) → accepts_slice t (pos (n - 1)) begin slice_size ≡ false)
      × (accepts_slice t (pos (n - 1)) (pos 0) last ≡ true)
unfolding accepts_slice check_end_slice_at piece_requests
piece_requests_short t n last v short =
    let less : ltb last slice_size ≡ true = ground arith in
    let part : last % slice_size ≡ last = omega arith in
    let none_whole : last / slice_size ≡ 0 = omega arith in
    let some : (last == 0) ≡ false = ground (arith, v.some_byte) in
    (
      rw (last_length t n last v, part, none_whole, some),
      λ begin.
          rw (last_length t n last v, get_index_end_lem t n last v, less)
            (elim (Bool-cases (eq_ℤ (pos 0) begin)) [
              | inl e ↦ rw e (ground arith)
              | inr e ↦ rw e (ground arith)
            ]),
      rw (last_length t n last v, get_index_end_lem t n last v, less) (ground arith),
    )
