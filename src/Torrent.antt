-- ===== src/Torrent.antt =====
-- TorrentFile of BitTorrent/CszTorrentFile.cpp: the pieces and slices of a torrent. Its uint64_t
-- sums wrap at 2 ^ 64, and its int32_t results keep the low 32 bits.
pub mod Pieces
pub mod Cut
pub mod Slices
pub mod Bounds
pub mod FileNames
mod Examples
use socket_template.Base.{
  ℕ, zero, suc, ◌+◌, ◌-◌, ◌*◌, ◌/◌, ◌%◌, ◌^◌, Bool, true, false, ◌&&◌, ◌||◌, Option, none, some,
  List, [], ◌∷◌, ◌++◌, length, slice, leb, ltb, ◌==◌, not, if◌then◌else◌, ℤ, pos, negsuc, to_i32,
  to_u32, add_ℤ, lt_ℤ, eq_ℤ, quot_ℤ, rem_ℤ,
}

pub record File : Type 0 where
  pub length : ℕ
  pub file_path : List ℕ

pub record Info : Type 0 where
  pub files : List File
  pub pieces : List ℕ
  pub name : List ℕ
  pub length : ℕ
  pub piece_length : ℕ
  pub single : Bool

-- #define SLICESIZE (16* 1024)
abbrev pub slice_size : ℕ
slice_size = 16384

sum_lengths : ℕ → List File → ℕ
sum_lengths acc [] = acc
sum_lengths acc (f ∷ fs) = sum_lengths ((acc + f.length) % 2 ^ 64) fs

unfoldable pub get_file_total : Info → ℕ
unfolding sum_lengths
get_file_total t = if t.single then t.length else sum_lengths 0 t.files

-- `none` is ErrQuit: the program ends.
pub get_index_total : Info → Option ℕ
get_index_total t = elim t.pieces [ [] ↦ none | p ∷ ps ↦ some (length t.pieces / 20 % 2 ^ 32) ]

pub get_index_bit_total : Info → Option ℕ
unfolding get_index_total
get_index_bit_total t = elim (get_index_total t) [
  | none ↦ none
  | some n ↦ some (if n % 8 == 0 then n / 8 else n / 8 + 1)
]

-- The difference wraps before it is cut to 32 bits: -1 if there are no pieces.
unfoldable pub get_index_end : Info → ℤ
get_index_end t = to_i32 (length t.pieces / 20 + 2 ^ 64 - 1)

-- An int32_t in a product with a uint64_t.
abbrev pub to_u64 : ℤ → ℕ
to_u64 (pos n) = n % 2 ^ 64
to_u64 (negsuc n) = 2 ^ 64 - 1 - n % 2 ^ 64

-- The products are ints. A place behind the end, which `substr` answers with an exception, gives no bytes.
unfoldable pub get_hash : Info → ℤ → List ℕ
get_hash t (negsuc i) = []
get_hash t (pos i) =
    if lt_ℤ (to_i32 (length t.pieces)) (to_i32 ((i + 1) * 20))
    then []
    else slice (to_u64 (to_i32 (i * 20))) 20 t.pieces

-- total - index * piece_length, in uint64_t
rest_after : ℕ → ℤ → ℕ → ℕ
rest_after total index piece_length =
    (total + 2 ^ 64 - to_u64 index * piece_length % 2 ^ 64) % 2 ^ 64

pub get_index_end_length : Info → ℤ
unfolding get_file_total get_index_end rest_after
get_index_end_length t = to_i32 (rest_after (get_file_total t) (get_index_end t) t.piece_length)

pub get_index_normal_length : Info → ℤ
get_index_normal_length t = to_i32 t.piece_length

-- In the loops over the files the sum is an int32_t, so its pattern is kept.
pub get_piece_length : Info → ℤ → ℤ
unfolding get_file_total rest_after
get_piece_length t (negsuc i) = pos 0
get_piece_length t (pos i) =
    let index_count = to_i32 (length t.pieces / 20 + 2 ^ 64 - 1) in
    if eq_ℤ index_count (pos i) && eq_ℤ (pos 0) index_count
    then to_i32 (get_file_total t)
    else if eq_ℤ index_count (pos i)
    then to_i32 (rest_after (get_file_total t) index_count t.piece_length)
    else to_i32 t.piece_length

unfoldable pub get_piece_bit : Info → ℤ → ℤ
unfolding get_piece_length
get_piece_bit t i =
    let size = get_piece_length t i in
    if eq_ℤ (rem_ℤ size slice_size) (pos 0)
    then quot_ℤ size slice_size
    else add_ℤ (quot_ℤ size slice_size) (pos 1)

-- CheckEndSlice(index): whether the index is the last, and the length of its last slice.
pub check_end_slice : Info → ℤ → Bool × ℤ
unfolding get_piece_length get_index_end
check_end_slice t i =
    if eq_ℤ i (get_index_end t)
    then (
      true,
      (let left = rem_ℤ (get_piece_length t i) slice_size in
          if eq_ℤ (pos 0) left then pos slice_size else left),
    )
    else (false, pos 0)

-- CheckEndSlice(index, begin): whether the index is the last, and the length that the slice at
-- `begin` must have then, or -1. `T_begin+ SLICESIZE` is an int.
pub check_end_slice_at : Info → ℤ → ℤ → Bool × ℤ
unfolding get_piece_length get_index_end
check_end_slice_at t i begin =
    let size = get_piece_length t i in
    if eq_ℤ i (get_index_end t)
    then (
      true,
      (if lt_ℤ size (pos slice_size)
          then if eq_ℤ (pos 0) begin then size else negsuc 0
          else if eq_ℤ (pos 0) (rem_ℤ begin slice_size)
          then if lt_ℤ size (to_i32 (to_u32 begin + slice_size))
            then rem_ℤ size slice_size
            else pos slice_size
          else negsuc 0),
    )
    else (false, pos 0)

-- The two tests of SelectSwitch::DPiece on a slice that arrives (BitTorrent/CszSelectSwitch.cpp).
unfoldable pub accepts_slice : Info → ℤ → ℤ → ℕ → Bool
unfolding check_end_slice_at
accepts_slice t i begin size =
    let (last, expected) = check_end_slice_at t i begin in
    if not last && not (size == slice_size)
    then false
    else if last && not (eq_ℤ expected (pos size))
    then false
    else true

-- The loop of SelectSwitch::DPiece that asks for the slices from number `i` on, `rounds` of them:
-- begin and length of each Request.
pub slice_requests : Info → ℤ → ℕ → ℕ → ℕ → List (ℕ × ℤ)
unfolding check_end_slice
slice_requests t index zero i size = []
slice_requests t index (suc rounds) i size =
    let (last, left) = check_end_slice t index in
    (i * slice_size, (if (i + 1 == size) && last then left else pos slice_size))
    ∷ slice_requests t index rounds (i + 1) size

-- Every Request that is sent for a piece: the first by NeedPiece::SendReq, the others by DPiece
-- when the first slice has arrived.
pub piece_requests : Info → ℤ → List (ℕ × ℤ)
unfolding slice_requests get_piece_bit
piece_requests t index =
    let size = get_piece_bit t index in
    (0, pos slice_size) ∷ (elim size [ pos n ↦ slice_requests t index (n - 1) 1 n | negsuc n ↦ [] ])
