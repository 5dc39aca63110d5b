-- ===== src/BitMemory/Folders.antt =====
-- `_Write` of BitTorrent/CszBitMemory.cpp with the answers of GetFileName (BitTorrent/CszTorrentFile.cpp).
use socket_template.Base.{
  ◌*◌, refl, ℤ, pos, negsuc, ◌++◌, sym, ap, Option-cases, ℕ, suc, ◌+◌, ◌-◌, ◌≤◌, ◌<◌, ◌^◌, ◌≡◌, ◌⊎◌,
  sym, ◌∙◌, Bool, true, false, Option, none, some, Bool-cases, inl, inr, List, [], ◌∷◌, ◌++◌,
  length, replicate, leb, ltb, zero, pos, negsuc, arith,
}
use socket_template.Torrent.{File, Info}
use socket_template.Torrent.FileNames.{get_file_names, FileInfo, folder, unused, find_files}
use socket_template.Torrent.FileNames.Several.{get_file_names-several, sum_files, find_files-inside}
use socket_template.BitMemory.{
  real_write, refuse, BitMemory, Outside, Answer, Block, block_size, FileWrite, write_files,
  step_back, write_behind,
}

-- A file that does not open
abbrev Shut : (List ℕ → Bool) → List FileInfo → Type 0
Shut valid [] = ⊥
Shut valid (file ∷ files) = (valid file.0 ≡ false) ⊎ Shut valid files

-- No result but -1
Stops : Option (List FileWrite × Option ℕ) → Type 0
Stops none = Unit
Stops (some (writes, none)) = Unit
Stops (some (writes, some code)) = ⊥

abbrev also :
    List FileWrite → Option (List FileWrite × Option ℕ) → Option (List FileWrite × Option ℕ)
also more none = none
also more (some (writes, code)) = some (more ++ writes, code)

also-Stops :
    (more : List FileWrite) (r : Option (List FileWrite × Option ℕ)) → Stops r → Stops (also more r)
unfolding Stops
also-Stops more none h = tt
also-Stops more (some (writes, none)) h = tt
also-Stops more (some (writes, some code)) h = h

later_files :
    (valid : List ℕ → Bool) (name : List ℕ) (files : List FileInfo)
    → valid name ≡ true
    → (valid name ≡ false) ⊎ Shut valid files
    → Shut valid files
later_files valid name files ok (inl bad) = let no_bit : true ≡ false = sym ok ∙ bad in ground arith
later_files valid name files ok (inr rest) = rest

step_back-Stops :
    (valid : List ℕ → Bool) (done : ℕ) (files : List FileInfo)
    → Shut valid files
    → Stops (step_back valid done files)
unfolding step_back Stops
step_back-Stops valid done [] shut = absurd shut
step_back-Stops valid done ((name, place, len) ∷ files) shut = elim (Bool-cases (valid name)) [
  | inl ok ↦ rw ok tt
  | inr bad ↦ rw bad tt
]

write_behind-Stops :
    (name : List ℕ) (place left len : ℕ) (bs : List Block)
    → Stops (write_behind name place left len bs)
unfolding write_behind Stops
write_behind-Stops name place left len [] = tt
write_behind-Stops name place left len (b ∷ bs) = elim (Bool-cases (ltb place left)) [
  | inr before ↦ rw before tt
  | inl behind ↦ elim (Bool-cases (leb (0 + (len - left)) block_size)) [
    | inl within ↦ rw (behind, within) tt
    | inr out ↦ rw (behind, out) tt
  ]
]

write_files-Stops :
    (valid : List ℕ → Bool) (bs : List Block) (at left done : ℕ) (files : List FileInfo)
    → Shut valid files
    → Stops (write_files valid bs at left done files)
unfolding write_files Stops
write_files-Stops valid bs at left done [] shut = absurd shut
write_files-Stops valid [] at left done (file ∷ files) shut = tt
write_files-Stops valid (b ∷ bs) at left done ((name, place, negsuc (suc len)) ∷ files) shut = tt
write_files-Stops valid (b ∷ bs) zero left done ((name, place, negsuc zero) ∷ files) shut =
    elim (Bool-cases (valid name)) [
      | inr bad ↦ rw bad tt
      | inl ok ↦ rw ok (step_back-Stops valid done files (later_files valid name files ok shut))
    ]
write_files-Stops valid (b ∷ bs) (suc at) left done ((name, place, negsuc zero) ∷ files) shut =
    elim (Bool-cases (valid name)) [
      | inr bad ↦ rw bad tt
      | inl ok ↦ rw ok (
          write_files-Stops valid (b ∷ bs) at (left + 1) (done - 1) files
            (later_files valid name files ok shut))
    ]
write_files-Stops valid (b ∷ bs) at left done ((name, negsuc place, pos len) ∷ files) shut =
    elim (Bool-cases (valid name)) [
      | inr bad ↦ rw bad tt
      | inl ok ↦ elim (Bool-cases (leb len left)) [
        | inl enough ↦ rw (ok, enough) tt
        | inr short ↦ rw (ok, short) (write_behind-Stops name place left len bs)
      ]
    ]
write_files-Stops valid (b ∷ bs) at left done ((name, pos place, pos len) ∷ files) shut =
    elim (Bool-cases (valid name)) [
      | inr bad ↦ rw bad tt
      | inl ok ↦ elim (Bool-cases (leb len left)) [
        | inl enough ↦ elim (Bool-cases (leb (at + len) block_size)) [
          | inr out ↦ rw (ok, enough, out) tt
          | inl within ↦
              rw (ok, enough, within)
                (also-Stops ((name, place, _) ∷ []) _ (
                  write_files-Stops valid (b ∷ bs) (at + len) (left - len) (done + len) files
                    (later_files valid name files ok shut)))
        ]
        | inr short ↦ elim (Bool-cases (leb (at + left) block_size)) [
          | inr out ↦ rw (ok, short, out) tt
          | inl within ↦ short_case bs ok short within (λ b' bs'.
              write_files-Stops valid (b' ∷ bs') (len - left) (block_size - left) (done + len) files
                (later_files valid name files ok shut))
        ]
      ]
    ]
  where
    short_case :
        (bs : List Block)
        → valid name ≡ true
        → leb len left ≡ false
        → leb (at + left) block_size ≡ true
        → ((b' : Block) (bs' : List Block)
            → Stops
                (write_files valid (b' ∷ bs') (len - left) (block_size - left) (done + len) files))
        → Stops (write_files valid (b ∷ bs) at left done ((name, pos place, pos len) ∷ files))
    short_case [] ok short within ih = rw (ok, short, within) tt
    short_case (b' ∷ bs') ok short within ih =
        elim (Bool-cases (leb (0 + (len - left)) block_size)) [
          | inr out ↦ rw (ok, short, within, out) tt
          | inl next ↦
              rw (ok, short, within, next)
                (also-Stops ((name, place, _) ∷ (name, place + left, _) ∷ []) _ (ih b' bs'))
        ]

Stops-not :
    (r : Option (List FileWrite × Option ℕ)) (writes : List FileWrite) (code : ℕ)
    → Stops r
    → ¬ (r ≡ some (writes, some code))
unfolding Stops
Stops-not none writes code h e = ground arith
Stops-not (some (w, none)) writes code h e = ground arith
Stops-not (some (w, some c)) writes code h e = absurd h

refuse-filled : (index : ℤ) (t_len : ℕ) (m : BitMemory) → (refuse index t_len m).filled ≡ false
unfolding refuse
refuse-filled index t_len m = refl

-- `_Write` does not succeed when one of the files does not open.
real_write-Shut :
    (t : Info) (o : Outside) (index : ℤ) (t_len : ℕ) (b : Block) (bs : List Block) (m : BitMemory)
    (files : List FileInfo) (writes : List FileWrite) (a : Answer)
    → get_file_names t index ≡ files
    → Shut o.valid files
    → real_write t o index t_len (b ∷ bs) m ≡ some (writes, a)
    → a.filled ≡ false
unfolding real_write
real_write-Shut t o index t_len b bs m [] writes a e shut r = absurd shut
real_write-Shut t o index t_len b bs m (x ∷ xs) writes a e shut r =
    elim (Option-cases (write_files o.valid (b ∷ bs) 0 block_size 0 (x ∷ xs))) [
      | inl out ↦ let no : none ≡ some (writes, a) = rw (real_write, e, out) at r in ground arith
      | inr ((w, code), done) ↦ elim (Option-cases code) [
        | inr (c, whole) ↦ absurd (
            Stops-not _ w c (write_files-Stops o.valid (b ∷ bs) 0 block_size 0 (x ∷ xs) shut)
              (done ∙ ap (λ (k : Option ℕ). some (w, k)) whole))
        | inl failed ↦
            let both : some (w, refuse index t_len m) ≡ some (writes, a) =
              rw (real_write, e, done, failed) at r in
            let same : refuse index t_len m ≡ a = ground arith in
            rw (sym same) (refuse-filled index t_len m)
      ]
    ]

nil_refused :
    (t : Info) (o : Outside) (index : ℤ) (t_len : ℕ) (m : BitMemory) (writes : List FileWrite)
    (a : Answer)
    → real_write t o index t_len [] m ≡ some (writes, a)
    → ◌≡◌ {A = Option (List FileWrite × Answer)}
        (some ([], refuse index t_len m))
        (some (writes, a))
unfolding real_write
nil_refused t o index t_len m writes a r = r

-- In a torrent of two or more files a piece that lies in one of them is never filled: whatever the blocks are, the writing
-- to the files ends in a refusal, or reads out of bounds, as the entries of the other files name the folder, when that does not open as a file. The piece, of the full
-- length, and the file are below 2 ^ 31 bytes and the place of the piece is below 2 ^ 62.
pub real_write-several :
    (t : Info) (o : Outside) (i t_len : ℕ) (pre : List File) (f : File) (post : List File)
    (bs : List Block) (m : BitMemory) (writes : List FileWrite) (a : Answer)
    → t.single ≡ false
    → t.files ≡ pre ++ (f ∷ post)
    → 0 < length post + length pre
    → sum_files pre ≤ i * t.piece_length
    → i * t.piece_length < sum_files pre + f.length
    → i * t.piece_length + t.piece_length ≤ sum_files pre + f.length
    → i < 2 ^ 31
    → t.piece_length < 2 ^ 31
    → f.length < 2 ^ 31
    → i * t.piece_length < 2 ^ 62
    → o.valid (folder t) ≡ false
    → real_write t o (pos i) t_len bs m ≡ some (writes, a)
    → a.filled ≡ false
real_write-several t o i t_len pre f post [] m writes a several all more from lies fits index
      length_small small place shut r =
    let both = nil_refused t o (pos i) t_len m writes a r in
    let same : refuse (pos i) t_len m ≡ a = ground arith in
    rw (sym same) (refuse-filled (pos i) t_len m)
real_write-several t o i t_len pre f post (b ∷ bs) m writes a several all more from lies fits index
      length_small small place shut r =
    real_write-Shut t o (pos i) t_len b bs m _ writes a entries folder_shut r
  where
    entries :
        get_file_names t (pos i)
        ≡ (folder t ++ f.file_path, pos (i * t.piece_length - sum_files pre), pos t.piece_length)
          ∷ replicate (length post + length pre) (unused t)
    entries =
        get_file_names-several t i several index length_small place
        ∙ ap (λ (fs : List File). find_files t (pos t.piece_length) (i * t.piece_length) fs) all
        ∙ find_files-inside t t.piece_length (i * t.piece_length) pre f post from lies fits small
            (omega arith)

    folder_shut : Shut o.valid (
        (folder t ++ f.file_path, pos (i * t.piece_length - sum_files pre), pos t.piece_length)
        ∷ replicate (length post + length pre) (unused t))
    folder_shut =
        let count : length post + length pre ≡ suc (length post + length pre - 1) = omega arith in
        rw count (inr (inl shut))
