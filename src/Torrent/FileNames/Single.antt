-- ===== src/Torrent/FileNames/Single.antt =====
-- GetFileName of BitTorrent/CszTorrentFile.cpp for a torrent of one file.
use socket_template.Base.{
  ℕ, ◌+◌, ◌-◌, ◌*◌, ◌%◌, ◌^◌, ◌≡◌, ◌≤◌, ◌<◌, ap, true, false, Bool-cases, inl, inr, [], ◌∷◌, ◌==◌,
  if◌then◌else◌, pos, to_i32, arith,
}
use socket_template.Torrent.{Info, get_file_total}
use socket_template.Torrent.Pieces.{HasPieces, get_index_end_lem}
use socket_template.Torrent.FileNames.{get_file_name, get_file_names}

to_i32_small : (n : ℕ) → n < 2 ^ 31 → to_i32 n ≡ pos n
to_i32_small n lt = ground arith

-- The piece of an index of a torrent of one file of less than 2 ^ 31 bytes has one entry: the file, the
-- index times the length of a piece as its place, and the length of a piece, or of the last piece. So the pieces
-- lie one after another, and the last ends with the file.
pub get_file_names-single :
    (t : Info) (n last i : ℕ)
    → HasPieces t n last
    → t.single ≡ true
    → get_file_total t < 2 ^ 31
    → i < n
    → get_file_names t (pos i)
      ≡ (t.name, pos (i * t.piece_length), pos (if i + 1 == n then last else t.piece_length)) ∷ []
unfolding get_file_names get_file_name
get_file_names-single t n last i v single small lt =
    let end = get_index_end_lem t n last v in
    let steps : i * t.piece_length ≤ (n - 1) * t.piece_length = grind arith in
    let place : i * t.piece_length < 2 ^ 31 = omega (arith, v.all) in
    let index : i % 2 ^ 64 ≡ i = omega (arith, v.count_fits) in
    let product : i * t.piece_length % 2 ^ 64 ≡ i * t.piece_length = omega arith in
    let begin = to_i32_small (i * t.piece_length) place in
    elim (Bool-cases (i + 1 == n)) [
      | inl final ↦
          let same : (i == n - 1) ≡ true = ground arith in
          let whole : i * t.piece_length ≡ (n - 1) * t.piece_length =
            ap (λ (k : ℕ). k * t.piece_length) (ground arith) in
          let left : ((n - 1) * t.piece_length + last + 2 ^ 64 - i * t.piece_length % 2 ^ 64)
                % 2 ^ 64
              ≡ last =
            omega (arith, v.all, v.last_fits, v.piece_fits) in
          let last_small : to_i32 last ≡ pos last =
            to_i32_small last (omega (arith, v.last_fits, v.piece_fits)) in
          rw (v.all, single, end, same, index, product, begin, left, last_small, final)
      | inr before ↦
          let other : (i == n - 1) ≡ false = ground arith in
          let no_offset : i * t.piece_length + 0 ≡ i * t.piece_length = omega arith in
          let length_small = to_i32_small t.piece_length v.piece_fits in
          rw (single, end, other, index, product, no_offset, begin, length_small, before)
    ]

-- A slice of a piece before the last
pub get_file_name-before :
    (t : Info) (n last i begin len : ℕ)
    → HasPieces t n last
    → t.single ≡ true
    → i + 1 < n
    → i * t.piece_length + begin < 2 ^ 31
    → get_file_name t (pos i) (pos begin) (pos len)
      ≡ (t.name, pos (i * t.piece_length + begin), pos len) ∷ []
unfolding get_file_name
get_file_name-before t n last i begin len v single lt small =
    let end = get_index_end_lem t n last v in
    let other : (i == n - 1) ≡ false = ground arith in
    let index : i % 2 ^ 64 ≡ i = omega (arith, v.count_fits) in
    let product : i * t.piece_length % 2 ^ 64 ≡ i * t.piece_length = omega arith in
    let begin_small : begin % 2 ^ 64 ≡ begin = omega arith in
    rw (
      single,
      end,
      other,
      index,
      product,
      begin_small,
      to_i32_small (i * t.piece_length + begin) small,
    )

-- A slice of the last piece, whatever its begin and length are
pub get_file_name-last :
    (t : Info) (n last begin len : ℕ)
    → HasPieces t n last
    → t.single ≡ true
    → get_file_total t < 2 ^ 31
    → get_file_name t (pos (n - 1)) (pos begin) (pos len)
      ≡ (t.name, pos ((n - 1) * t.piece_length), pos last) ∷ []
unfolding get_file_name
get_file_name-last t n last begin len v single small =
    let end = get_index_end_lem t n last v in
    let same : (n - 1 == n - 1) ≡ true = ground arith in
    let place : (n - 1) * t.piece_length < 2 ^ 31 = omega (arith, v.all) in
    let index : (n - 1) % 2 ^ 64 ≡ n - 1 = omega (arith, v.count_fits) in
    let product : (n - 1) * t.piece_length % 2 ^ 64 ≡ (n - 1) * t.piece_length = omega arith in
    let start = to_i32_small ((n - 1) * t.piece_length) place in
    let left : ((n - 1) * t.piece_length + last + 2 ^ 64 - (n - 1) * t.piece_length % 2 ^ 64)
          % 2 ^ 64
        ≡ last =
      omega (arith, v.last_fits, v.piece_fits) in
    let last_small : to_i32 last ≡ pos last =
      to_i32_small last (omega (arith, v.last_fits, v.piece_fits)) in
    rw (v.all, single, end, same, index, product, start, left, last_small)
