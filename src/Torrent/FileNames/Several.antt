-- ===== src/Torrent/FileNames/Several.antt =====
-- GetFileName of BitTorrent/CszTorrentFile.cpp for a torrent of several files.
use socket_template.Base.{
  ◌*◌, ℕ, zero, suc, ◌+◌, ◌-◌, ◌%◌, ◌^◌, ◌≡◌, ◌≤◌, ◌<◌, refl, ap, sym, ◌∙◌, true, false, Bool-cases,
  inl, inr, List, [], ◌∷◌, ◌++◌, length, replicate, ltb, ◌==◌, ℤ, pos, to_i32, lt_ℤ, arith,
}
use socket_template.Torrent.{File, Info}
use socket_template.Torrent.FileNames.{
  FileInfo, is_negative, folder, unused, unused_all, next_files, find_files, get_file_name,
  get_file_names,
}

unfoldable pub sum_files : List File → ℕ
sum_files [] = 0
sum_files (f ∷ fs) = f.length + sum_files fs

unused_all-replicate :
    (t : Info) (fs : List File) → unused_all t fs ≡ replicate (length fs) (unused t)
unfolding unused_all
unused_all-replicate t [] = refl
unused_all-replicate t (f ∷ fs) =
    ap (λ (l : List FileInfo). unused t ∷ l) (unused_all-replicate t fs)

replicate-snoc : (n : ℕ) (x : FileInfo) → replicate n x ++ (x ∷ []) ≡ replicate (suc n) x
replicate-snoc zero x = refl
replicate-snoc (suc n) x = ap (λ (l : List FileInfo). x ∷ l) (replicate-snoc n x)

to_i32_small : (n : ℕ) → n < 2 ^ 31 → to_i32 n ≡ pos n
to_i32_small n lt = ground arith

-- The file that is found first, when the slice ends in it.
find_files-here :
    (t : Info) (len at : ℕ) (f : File) (fs : List File)
    → at < f.length
    → at + len ≤ f.length
    → f.length < 2 ^ 31
    → find_files t (pos len) at (f ∷ fs)
      ≡ (folder t ++ f.file_path, pos at, pos len) ∷ unused_all t fs
unfolding find_files
find_files-here t len at f fs inside fits small =
    let cur : (at + 2 ^ 64 - f.length % 2 ^ 64) % 2 ^ 64 ≡ 2 ^ 64 - (f.length - at) = omega arith in
    let below : is_negative (2 ^ 64 - (f.length - at)) ≡ true = ground arith in
    let sum : 2 ^ 64 - (f.length - at) + f.length ≡ 2 ^ 64 + at = omega arith in
    let begin : to_i32 (2 ^ 64 + at) ≡ pos at = ground arith in
    elim (Bool-cases (at + len == f.length)) [
      | inl whole ↦
          let reach : (2 ^ 64 - (f.length - at) + len % 2 ^ 64) % 2 ^ 64 ≡ 0 = ground arith in
          rw (cur, below, reach, sum, begin)
      | inr part ↦
          let reach : (2 ^ 64 - (f.length - at) + len % 2 ^ 64) % 2 ^ 64
              ≡ 2 ^ 64 - (f.length - at - len) =
            ground arith in
          let ends : is_negative (2 ^ 64 - (f.length - at - len)) ≡ true = ground arith in
          rw (cur, below, reach, ends, sum, begin)
    ]

-- A file before the place
find_files-past :
    (t : Info) (len at : ℕ) (f : File) (fs : List File)
    → f.length ≤ at
    → at < 2 ^ 63
    → find_files t (pos len) at (f ∷ fs)
      ≡ find_files t (pos len) (at - f.length) fs ++ (unused t ∷ [])
unfolding find_files
find_files-past t len at f fs past small =
    let cur : (at + 2 ^ 64 - f.length % 2 ^ 64) % 2 ^ 64 ≡ at - f.length = omega arith in
    let after : is_negative (at - f.length) ≡ false = ground arith in rw (cur, after)

-- In a torrent of several files, a slice that lies in one of them has one entry with a path: that of the file, with its
-- place there and its length. An entry of the folder, with length 0, follows for each other file. The sums of lengths are below 2 ^ 63
-- and the length of the file is below 2 ^ 31.
pub find_files-inside :
    (t : Info) (len at : ℕ) (pre : List File) (f : File) (post : List File)
    → sum_files pre ≤ at
    → at < sum_files pre + f.length
    → at + len ≤ sum_files pre + f.length
    → f.length < 2 ^ 31
    → at < 2 ^ 63
    → find_files t (pos len) at (pre ++ (f ∷ post))
      ≡ (folder t ++ f.file_path, pos (at - sum_files pre), pos len)
        ∷ replicate (length post + length pre) (unused t)
unfolding sum_files
find_files-inside t len at [] f post from inside fits small max =
    let none_before : length post + 0 ≡ length post = omega arith in
    let first : at - 0 ≡ at = omega arith in
    rw (none_before, first)
      (find_files-here t len at f post (omega arith) (omega arith) small
        ∙ ap (λ (l : List FileInfo). (folder t ++ f.file_path, pos at, pos len) ∷ l)
            (unused_all-replicate t post))
find_files-inside t len at (g ∷ pre) f post from inside fits small max =
    let ih =
      find_files-inside t len (at - g.length) pre f post (omega arith) (omega arith) (omega arith)
        small (omega arith) in
    let place : at - g.length - sum_files pre ≡ at - (g.length + sum_files pre) = omega arith in
    let count : length post + suc (length pre) ≡ suc (length post + length pre) = omega arith in
    let entry : FileInfo =
      (folder t ++ f.file_path, pos (at - (g.length + sum_files pre)), pos len) in
    find_files-past t len at g (pre ++ (f ∷ post)) (omega arith) max
    ∙ ap (λ (l : List FileInfo). l ++ (unused t ∷ [])) (rw place at ih)
    ∙ ap (λ (l : List FileInfo). entry ∷ l)
        (replicate-snoc (length post + length pre) (unused t)
          ∙ ap (λ (n : ℕ). replicate n (unused t)) (sym count))

next_files-stop :
    (t : Info) (rest : ℤ) (fs : List File)
    → lt_ℤ (pos 0) rest ≡ false
    → next_files t rest fs ≡ unused_all t fs
unfolding next_files unused_all
next_files-stop t rest [] no_more = refl
next_files-stop t rest (f ∷ fs) no_more = rw no_more

-- The last file that the inner loop reaches
next_files-last :
    (t : Info) (rest : ℕ) (g : File) (fs : List File)
    → 0 < rest
    → rest ≤ g.length
    → g.length < 2 ^ 31
    → next_files t (pos rest) (g ∷ fs)
      ≡ (folder t ++ g.file_path, pos 0, pos g.length) ∷ unused_all t fs
unfolding next_files
next_files-last t rest g fs more ends small =
    let again : lt_ℤ (pos 0) (pos rest) ≡ true = ground arith in
    elim (Bool-cases (rest == g.length)) [
      | inl same ↦
          let left : (rest % 2 ^ 64 + 2 ^ 64 - g.length % 2 ^ 64) % 2 ^ 64 ≡ 0 = ground arith in
          let e : rest ≡ g.length = ground arith in
          rw (again, left, next_files-stop t (to_i32 0) fs refl, e)
      | inr less ↦
          let left : (rest % 2 ^ 64 + 2 ^ 64 - g.length % 2 ^ 64) % 2 ^ 64
              ≡ 2 ^ 64 - (g.length - rest) =
            ground arith in
          let positive : ltb 0 (2 ^ 64 - (g.length - rest)) ≡ true = ground arith in
          let done : lt_ℤ (pos 0) (to_i32 (2 ^ 64 - (g.length - rest))) ≡ false = ground arith in
          rw (
            again,
            left,
            positive,
            next_files-stop t (to_i32 (2 ^ 64 - (g.length - rest))) fs done,
            to_i32_small g.length small,
          )
    ]

-- A slice that begins in one file and ends in the next, each below 2 ^ 31 bytes, has two entries with a path: the place in
-- the first file with the whole length of that file, and the beginning of the second with its whole length. So the
-- lengths do not depend on the slice, and the first goes beyond the end of the file when the place is not 0.
pub find_files_across :
    (t : Info) (len at : ℕ) (f g : File) (post : List File)
    → at < f.length
    → f.length < at + len
    → at + len ≤ f.length + g.length
    → f.length < 2 ^ 31
    → g.length < 2 ^ 31
    → find_files t (pos len) at (f ∷ g ∷ post)
      ≡ (folder t ++ f.file_path, pos at, pos f.length)
        ∷ (folder t ++ g.file_path, pos 0, pos g.length)
        ∷ unused_all t post
unfolding find_files
find_files_across t len at f g post inside beyond ends small small' =
    let cur : (at + 2 ^ 64 - f.length % 2 ^ 64) % 2 ^ 64 ≡ 2 ^ 64 - (f.length - at) = omega arith in
    let below : is_negative (2 ^ 64 - (f.length - at)) ≡ true = ground arith in
    let sum : 2 ^ 64 - (f.length - at) + f.length ≡ 2 ^ 64 + at = omega arith in
    let begin : to_i32 (2 ^ 64 + at) ≡ pos at = ground arith in
    let reach : (2 ^ 64 - (f.length - at) + len % 2 ^ 64) % 2 ^ 64 ≡ at + len - f.length =
      omega arith in
    let above : is_negative (at + len - f.length) ≡ false = ground arith in
    let more : (at + len - f.length == 0) ≡ false = ground arith in
    let whole : to_i32 f.length ≡ pos f.length = to_i32_small f.length small in
    let rest : to_i32 (at + len - f.length) ≡ pos (at + len - f.length) =
      to_i32_small _ (omega arith) in
    rw (cur, below, reach, above, more, sum, begin, whole, rest)
      (ap (λ (l : List FileInfo). (folder t ++ f.file_path, pos at, pos f.length) ∷ l)
        (next_files-last t (at + len - f.length) g post (omega arith) (omega arith) small'))

pub get_file_names-several :
    (t : Info) (i : ℕ)
    → t.single ≡ false
    → i < 2 ^ 31
    → t.piece_length < 2 ^ 31
    → i * t.piece_length < 2 ^ 62
    → get_file_names t (pos i) ≡ find_files t (pos t.piece_length) (i * t.piece_length) t.files
unfolding get_file_names get_file_name
get_file_names-several t i several small length_small place =
    let index : i % 2 ^ 64 ≡ i = omega arith in
    let product : i * t.piece_length % 2 ^ 64 ≡ i * t.piece_length = omega arith in
    let sum : (i * t.piece_length + 0) % 2 ^ 64 ≡ i * t.piece_length = omega arith in
    let len = to_i32_small t.piece_length length_small in rw (several, index, product, sum, len)
