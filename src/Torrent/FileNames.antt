-- ===== src/Torrent/FileNames.antt =====
-- GetFileName of BitTorrent/CszTorrentFile.cpp: where the bytes of a slice or of a piece are in the files.
pub mod Several
pub mod Single
mod Examples
use socket_template.Base.{
  ℕ, zero, suc, ◌+◌, ◌-◌, ◌*◌, ◌%◌, ◌^◌, Bool, true, false, ◌&&◌, ◌||◌, Option, none, some, List,
  [], ◌∷◌, ◌++◌, map, leb, ltb, ◌==◌, not, if◌then◌else◌, ℤ, pos, negsuc, to_i32, eq_ℤ, lt_ℤ,
}
use socket_template.Torrent.{File, Info, to_u64, get_file_total, get_index_end}

-- FILEINFO: the name, and two int32_t, the begin and the length.
abbrev pub FileInfo : Type 0
FileInfo = List ℕ × ℤ × ℤ

-- The bit pattern of an int64_t below 0
abbrev pub is_negative : ℕ → Bool
is_negative x = leb (2 ^ 63) x

-- An entry that ret.resize made, and one that got a path.
abbrev pub folder : Info → List ℕ
folder t = t.name ++ (47 ∷ [])

abbrev pub unused : Info → FileInfo
unused t = (folder t, pos 0, pos 0)

-- The entries of files that are not reached.
unfoldable pub unused_all : Info → List File → List FileInfo
unused_all t [] = []
unused_all t (f ∷ fs) = unused t ∷ unused_all t fs

-- The inner loop, with the entries that stay unused behind it. The test `T_length- start->length> 0` is in uint64_t.
unfoldable pub next_files : Info → ℤ → List File → List FileInfo
next_files t rest [] = []
next_files t rest (f ∷ fs) =
    let left = (to_u64 rest + 2 ^ 64 - f.length % 2 ^ 64) % 2 ^ 64 in
    let others = next_files t (to_i32 left) fs in
    if lt_ℤ (pos 0) rest
    then (folder t ++ f.file_path, pos 0, (if ltb 0 left then to_i32 f.length else rest)) ∷ others
    else unused_all t (f ∷ fs)

-- The outer loop; `cur_total` is an int64_t as its pattern. The entries of the files before the one that is found are at the end, unused.
unfoldable pub find_files : Info → ℤ → ℕ → List File → List FileInfo
unfolding next_files unused_all
find_files t T_length cur_total [] = []
find_files t T_length cur_total (f ∷ fs) =
    let cur = (cur_total + 2 ^ 64 - f.length % 2 ^ 64) % 2 ^ 64 in
    let reach = (cur + to_u64 T_length) % 2 ^ 64 in
    let begin = to_i32 (cur + f.length) in
    let later = find_files t T_length cur fs in
    if is_negative cur
    then if is_negative reach || (reach == 0)
      then (folder t ++ f.file_path, begin, T_length) ∷ unused_all t fs
      else (folder t ++ f.file_path, begin, to_i32 f.length) ∷ next_files t (to_i32 reach) fs
    else later ++ (unused t ∷ [])

-- GetFileName(index, begin, length)
unfoldable pub get_file_name : Info → ℤ → ℤ → ℤ → List FileInfo
unfolding find_files get_file_total get_index_end
get_file_name t (negsuc index) begin len = []
get_file_name t (pos index) begin len =
    let product = (to_u64 (pos index) * t.piece_length) % 2 ^ 64 in
    if t.single
    then if eq_ℤ (pos index) (get_index_end t)
      then (
        t.name,
        to_i32 product,
        to_i32 ((get_file_total t + 2 ^ 64 - to_u64 (to_i32 product)) % 2 ^ 64),
      )
        ∷ []
      else (t.name, to_i32 (product + to_u64 begin), len) ∷ []
    else find_files t len ((product + to_u64 begin) % 2 ^ 64) t.files

-- GetFileName(index)
unfoldable pub get_file_names : Info → ℤ → List FileInfo
unfolding get_file_name
get_file_names t index = get_file_name t index (pos 0) (to_i32 t.piece_length)
