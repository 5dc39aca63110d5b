-- ===== src/BitMemory/Files.antt =====
-- `_Write` of BitTorrent/CszBitMemory.cpp.
use socket_template.Base.{
  ℕ, ◌+◌, ◌-◌, ◌≤◌, ◌≡◌, Bool, true, some, List, [], ◌∷◌, All, leb, pos, map, arith,
}
use socket_template.Torrent.FileNames.{FileInfo}
use socket_template.BitMemory.{Block, block_size, FileWrite, read, write_files}

-- A place and a length that are not below 0
abbrev pub as_info : List ℕ × ℕ × ℕ → FileInfo
as_info (name, place, len) = (name, pos place, pos len)

-- The files one after another, with the bytes of the block from an offset on
unfoldable pub in_order : Block → ℕ → List (List ℕ × ℕ × ℕ) → List FileWrite
in_order b at [] = []
in_order b at ((name, place, len) ∷ files) =
    (name, place, read (λ k. b (at + k)) len) ∷ in_order b (at + len) files

unfoldable pub sum_len : List (List ℕ × ℕ × ℕ) → ℕ
sum_len [] = 0
sum_len ((name, place, len) ∷ files) = len + sum_len files

-- While what the files want is in the first block, `_Write` gives each file the bytes that follow those of the file
-- before, and returns how many they are, when each file opens and takes its bytes.
pub write_files-in_order :
    (valid : List ℕ → Bool) (b : Block) (bs : List Block) (files : List (List ℕ × ℕ × ℕ))
    (at left done : ℕ)
    → at + left ≡ block_size
    → sum_len files ≤ left
    → All (λ file. valid file.0 ≡ true) files
    → write_files valid (b ∷ bs) at left done (map as_info files)
      ≡ some (in_order b at files, some (done + sum_len files))
unfolding write_files in_order sum_len
write_files-in_order valid b bs [] at left done whole fits open_ =
    let e : done + 0 ≡ done = omega arith in rw e
write_files-in_order valid b bs ((name, place, len) ∷ files) at left done whole fits (ok, rest) =
    let enough : leb len left ≡ true = ground arith in
    let within : leb (at + len) block_size ≡ true = ground arith in
    let ih =
      write_files-in_order valid b bs files (at + len) (left - len) (done + len) (omega arith)
        (omega arith) rest in
    let e : done + len + sum_len files ≡ done + (len + sum_len files) = omega arith in
    rw (ok, enough, within, ih, e)
