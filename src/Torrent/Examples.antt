-- ===== src/Torrent/Examples.antt =====
-- A torrent of three pieces of two slices each, the last of 20000 bytes, and one with a short last piece.
use socket_template.Base.{
  ℕ, ◌+◌, ◌*◌, ◌%◌, ◌≡◌, ◌≢◌, ◌^◌, ◌<◌, ◌≤◌, refl, true, false, [], ◌∷◌, All, replicate, ◌==◌,
  if◌then◌else◌, ℤ, pos, arith,
}
use socket_template.Torrent.{
  Info, slice_size, get_file_total, get_index_end, get_index_end_length, get_piece_length,
  accepts_slice, piece_requests,
}
use socket_template.Torrent.Pieces.{HasPieces, size_of, sum_pieces, sum_pieces-get_file_total}
use socket_template.Torrent.Cut.{Covers}
use socket_template.Torrent.Slices.{piece_requests-Covers}
use socket_template.Torrent.Bounds.{accepts_slice_beyond, piece_requests_short}

abbrev torrent : ℕ → Info
torrent last = record {
  files =
      (record { length = 32768; file_path = [] })
      ∷ (record { length = 32768 + last; file_path = [] })
      ∷ [];
  pieces = replicate 60 0;
  name = [];
  length = 0;
  piece_length = 32768;
  single = false;
}

torrent-HasPieces : (last : ℕ) → 0 < last → last ≤ 32768 → HasPieces (torrent last) 3 last
unfolding get_file_total
torrent-HasPieces last lo hi = record {
  hashes = refl;
  some_piece = omega arith;
  some_byte = lo;
  last_fits = hi;
  all = omega arith;
  count_fits = omega arith;
  piece_fits = omega arith;
}

requests_run : piece_requests (torrent 20000) (pos 2) ≡ (0, pos 16384) ∷ (16384, pos 3616) ∷ []
unfolding piece_requests
requests_run = refl

sum_pieces-get_file_total_example :
    (sum_pieces (torrent 20000) 3 ≡ get_file_total (torrent 20000))
    × ((i : ℕ)
        → i < 3
        → get_piece_length (torrent 20000) (pos i) ≡ pos (if i + 1 == 3 then 20000 else 32768))
    × (get_index_end (torrent 20000) ≡ pos 2)
    × (get_index_end_length (torrent 20000)
        ≡ get_piece_length (torrent 20000) (get_index_end (torrent 20000)))
sum_pieces-get_file_total_example =
    sum_pieces-get_file_total (torrent 20000) 3 20000
      (torrent-HasPieces 20000 (omega arith) (omega arith))

piece_requests-Covers_example :
    Covers 0
      (piece_requests (torrent 20000) (pos 2))
      (size_of (get_piece_length (torrent 20000) (pos 2)))
    × All
        (λ (begin, length).
          accepts_slice (torrent 20000) (pos 2) (pos begin) (size_of length) ≡ true)
        (piece_requests (torrent 20000) (pos 2))
piece_requests-Covers_example =
    piece_requests-Covers (torrent 20000) 3 20000 1 2
      (torrent-HasPieces 20000 (omega arith) (omega arith)) refl (omega arith) (omega arith)

accepts_slice_beyond_example :
    ((i begin : ℤ) → i ≢ pos 2 → accepts_slice (torrent 20000) i begin slice_size ≡ true)
    × ((k : ℕ)
        → slice_size ≤ 20000
        → 20000 < k * slice_size + slice_size
        → k * slice_size + slice_size < 2 ^ 31
        → accepts_slice (torrent 20000) (pos 2) (pos (k * slice_size)) (20000 % slice_size) ≡ true)
accepts_slice_beyond_example =
    accepts_slice_beyond (torrent 20000) 3 20000
      (torrent-HasPieces 20000 (omega arith) (omega arith))

piece_requests_short_example :
    (piece_requests (torrent 100) (pos 2) ≡ (0, pos slice_size) ∷ [])
    × ((begin : ℤ) → accepts_slice (torrent 100) (pos 2) begin slice_size ≡ false)
    × (accepts_slice (torrent 100) (pos 2) (pos 0) 100 ≡ true)
piece_requests_short_example =
    piece_requests_short (torrent 100) 3 100 (torrent-HasPieces 100 (omega arith) (omega arith))
      (omega arith)
