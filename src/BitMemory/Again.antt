-- ===== src/BitMemory/Again.antt =====
-- Write of BitTorrent/CszBitMemory.cpp for a piece that is done.
use socket_template.Base.{
  ℕ, ◌+◌, ◌%◌, ◌≤◌, ◌<◌, ◌≡◌, refl, true, false, none, some, Bool-cases, inl, inr, List, [], ◌∷◌,
  ltb, ◌==◌, ◌⊎◌, ap, sym, ◌∙◌, Option-cases, ℤ, find_key, find_key-update_key, arith,
}
use socket_template.Torrent.{Info}
use socket_template.Torrent.FileNames.{FileInfo, get_file_names}
use socket_template.BitMemory.{
  Block, block_size, Piece, BitMemory, Outside, Answer, FileWrite, memcpy, store, refuse,
  real_write, write_files, clear_index, clear_piece, deal, deal_piece,
}

store-nil : (begin : ℕ) (src : Block) (n : ℕ) → store begin src n [] ≡ none
unfolding store memcpy
store-nil begin src n = elim (Bool-cases (ltb block_size (begin % block_size + n))) [
  | inl across ↦ rw across
  | inr within ↦ rw within
]

refused-entry :
    (index : ℤ) (t_len : ℕ) (p : Piece) (m : BitMemory)
    → find_key index m.memory_pool ≡ some p
    → 0 < t_len
    → find_key index (refuse index t_len m).memory.memory_pool ≡ some (record p { cur_len = t_len })
unfolding refuse clear_index clear_piece
refused-entry index t_len p m at more =
    let e : (t_len == 0) ≡ false = ground arith in
    let now = find_key-update_key (clear_piece t_len) index m.memory_pool p at in rw e at now

cleared-entry :
    (index : ℤ) (p : Piece) (m : BitMemory)
    → find_key index m.memory_pool ≡ some p
    → find_key index (clear_index index 0 m).memory_pool ≡ some (record p { blocks = [] })
unfolding clear_index clear_piece
cleared-entry index p m at = find_key-update_key (clear_piece 0) index m.memory_pool p at

abbrev kept : ℤ → BitMemory → Answer
kept index m = record { ok = true; filled = true; memory = clear_index index 0 m }

List-cases : (l : List FileInfo) → (l ≡ []) ⊎ ((x : FileInfo) × (xs : List FileInfo) × (l ≡ x ∷ xs))
List-cases [] = inl refl
List-cases (x ∷ xs) = inr (x, xs, refl)

-- What the writing to the files comes to
real_write-cases :
    (t : Info) (o : Outside) (index : ℤ) (t_len : ℕ) (bs : List Block) (m : BitMemory)
    → (real_write t o index t_len bs m ≡ none)
      ⊎ (((writes : List FileWrite) × (real_write t o index t_len bs m
              ≡ some (writes, refuse index t_len m)))
          ⊎ ((writes : List FileWrite) × (real_write t o index t_len bs m
                ≡ some (writes, kept index m))))
unfolding real_write
real_write-cases t o index t_len [] m = inr (inl ([], refl))
real_write-cases t o index t_len (b ∷ bs) m = elim (List-cases (get_file_names t index)) [
  | inl empty ↦ inr (inl ([], rw (real_write, empty)))
  | inr (file, files, named) ↦
      elim (Option-cases (write_files o.valid (b ∷ bs) 0 block_size 0 (file ∷ files))) [
        | inl out ↦ inl (rw (real_write, named, out))
        | inr ((writes, code), done) ↦ elim (Option-cases code) [
          | inl failed ↦ inr (inl (writes, rw (real_write, named, done, failed)))
          | inr (write_byte, whole) ↦ elim (Bool-cases (write_byte == t_len)) [
            | inl all ↦ inr (inr (writes, rw (real_write, named, done, whole, all)))
            | inr short ↦ inr (inl (writes, rw (real_write, named, done, whole, short)))
          ]
        ]
      ]
]

refuse-filled : (index : ℤ) (t_len : ℕ) (m : BitMemory) → (refuse index t_len m).filled ≡ false
unfolding refuse
refuse-filled index t_len m = refl

-- The entry of a piece that was written to its files
filled-entry :
    (t : Info) (o : Outside) (index : ℤ) (t_len : ℕ) (bs : List Block) (p : Piece) (m : BitMemory)
    (writes : List FileWrite) (a : Answer)
    → real_write t o index t_len bs m ≡ some (writes, a)
    → a.filled ≡ true
    → find_key index m.memory_pool ≡ some p
    → find_key index a.memory.memory_pool ≡ some (record p { blocks = [] })
filled-entry t o index t_len bs p m writes a e filled at =
    elim (real_write-cases t o index t_len bs m) [
      | inl out ↦ let both : none ≡ some (writes, a) = sym out ∙ e in ground arith
      | inr (inl (w, refused)) ↦
          let both : some (w, refuse index t_len m) ≡ some (writes, a) = sym refused ∙ e in
          let same : refuse index t_len m ≡ a = ground arith in
          let no_bit : true ≡ false =
            sym filled ∙ ap (λ (a : Answer). a.filled) (sym same) ∙ refuse-filled index t_len m in
          ground arith
      | inr (inr (w, done)) ↦
          let both : some (w, kept index m) ≡ some (writes, a) = sym done ∙ e in
          let same : kept index m ≡ a = ground arith in rw (sym same) (cleared-entry index p m at)
    ]

ltb_lt : (a b : ℕ) → a < b → ltb a b ≡ true
ltb_lt a b h = ground arith

ltb_le : (a b : ℕ) → b ≤ a → ltb a b ≡ false
ltb_le a b h = ground arith

-- When a piece that is complete in the blocks was written to its files, the next slice of it, which has bytes, is
-- refused, and the one after it, of at most the length of the piece, is written out of bounds.
pub deal_again :
    (t : Info) (o : Outside) (t_len : ℕ) (index : ℤ) (bs : List Block) (m : BitMemory)
    (writes : List FileWrite) (a : Answer) (begin begin' : ℕ) (src src' : Block) (n n' : ℕ)
    → find_key index m.memory_pool ≡ some (record { cur_len = 0; blocks = bs })
    → real_write t o index t_len bs m ≡ some (writes, a)
    → a.filled ≡ true
    → 0 < n
    → n' ≤ t_len
    → 0 < t_len
    → (deal t o t_len index begin src n a.memory ≡ some ([], refuse index t_len a.memory))
      × (deal t o t_len index begin' src' n' (refuse index t_len a.memory).memory ≡ none)
unfolding deal deal_piece
deal_again t o t_len index bs m writes a begin begin' src src' n n' at e filled more fits long =
    let done = filled-entry t o index t_len bs _ m writes a e filled at in
    let short : ltb 0 n ≡ true = ltb_lt 0 n more in
    let enough : ltb t_len n' ≡ false = ltb_le t_len n' fits in
    let entry = refused-entry index t_len _ a.memory done long in
    (rw (deal, done, short), rw (deal, entry, enough, store-nil begin' src' n'))
