-- ===== src/BitMemory/Gather.antt =====
-- A piece that comes in slices (BitTorrent/CszBitMemory.cpp): what Write collects of it.
use socket_template.Base.{
  ℕ, ◌+◌, ◌-◌, ◌*◌, ◌≤◌, ◌<◌, ◌≡◌, ◌⊎◌, refl, ap, sym, ◌∙◌, true, false, Option, none, some,
  Bool-cases, inl, inr, List, [], ◌∷◌, length, All, ltb, leb, if◌then◌else◌, ◌&&◌, ◌==◌, ℤ,
  find_key, update_key, emplace_key, emplace_key_new, find_key-update_key, find_key-cons, arith,
}
use socket_template.Torrent.{Info, get_hash}
use socket_template.BitMemory.{
  Block, block_size, Piece, BitMemory, Outside, Answer, FileWrite, store, read, sha1_data,
  take_blocks, eq_bytes, refuse, real_write, set_piece, deal_piece, deal,
}
use socket_template.BitMemory.Blocks.{byte, Copied, store-Copied}
use socket_template.BitMemory.Bytes.{read_same, sha1_data-read, take_blocks-length}

pub record Slice : Type 0 where
  pub begin : ℕ
  pub src : Block
  pub len : ℕ

-- The slices are given to Write one after another; the result of the last one.
unfoldable pub deliver :
    Info → Outside → ℕ → ℤ → Slice → List Slice → BitMemory → Option (List FileWrite × Answer)
deliver t o t_len index x [] m = deal t o t_len index x.begin x.src x.len m
deliver t o t_len index x (y ∷ ys) m = elim (deal t o t_len index x.begin x.src x.len m) [
  | none ↦ none
  | some (writes, a) ↦ deliver t o t_len index y ys a.memory
]

unfoldable pub total : List Slice → ℕ
total [] = 0
total (x ∷ xs) = x.len + total xs

-- A slice of at most a block of a piece with these bytes
abbrev pub IsSliceOf : Block → ℕ → Slice → Type 0
IsSliceOf content t_len x =
    (0 < x.len)
    × (x.len ≤ block_size)
    × (x.begin + x.len ≤ t_len)
    × ((k : ℕ) → k < x.len → x.src k ≡ content (x.begin + k))

abbrev pub Within : ℕ → List Slice → Type 0
Within k [] = ⊥
Within k (x ∷ xs) = ((x.begin ≤ k) × (k < x.begin + x.len)) ⊎ Within k xs

-- Every byte is there or is in a slice to come.
Pending : Block → ℕ → List Slice → List Block → Type 0
Pending content t_len xs bs = (k : ℕ) → k < t_len → (byte bs k ≡ content k) ⊎ Within k xs

Copied-Pending :
    (content : Block) (t_len : ℕ) (x : Slice) (xs : List Slice) (old new : List Block)
    → IsSliceOf content t_len x
    → Copied x.begin x.src x.len old new
    → Pending content t_len (x ∷ xs) old
    → Pending content t_len xs new
unfolding Pending
Copied-Pending content t_len x xs old new (more, short, fits, same) (l, h) pending k lt =
    elim (Bool-cases (leb x.begin k && ltb k (x.begin + x.len))) [
      | inl inside ↦
          let e : x.begin + (k - x.begin) ≡ k = ground arith in
          let at : x.src (k - x.begin) ≡ content k =
            same (k - x.begin) (ground arith) ∙ ap content e in
          let now : byte new k ≡ x.src (k - x.begin) = rw inside at (h k) in inl (now ∙ at)
      | inr outside ↦
          let now : byte new k ≡ byte old k = rw outside at (h k) in
          elim (pending k lt) [
            | inl there ↦ inl (now ∙ there)
            | inr (inl (from, to)) ↦ absurd (ground arith)
            | inr (inr later) ↦ inr later
          ]
    ]

Pending-nil :
    (content : Block) (t_len : ℕ) (bs : List Block)
    → Pending content t_len [] bs
    → (k : ℕ) → k < t_len
    → byte bs k ≡ content k
unfolding Pending
Pending-nil content t_len bs h k lt = elim (h k lt) [ inl e ↦ e | inr lost ↦ absurd lost ]

-- What Write does when nothing is missing any more and the piece has these bytes
abbrev pub finish :
    Info → Outside → ℕ → ℤ → Block → List Block → BitMemory → Option (List FileWrite × Answer)
finish t o t_len index content bs m =
    if eq_bytes (o.sha1 (read content t_len)) (get_hash t index)
    then real_write t o index t_len bs m
    else some ([], refuse index t_len m)

abbrev pub Collected : Block → ℕ → ℤ → List Block → BitMemory → Type 0
Collected content t_len index bs m =
    (read (byte bs) t_len ≡ read content t_len)
    × (find_key index m.memory_pool ≡ some (record { cur_len = 0; blocks = bs }))

module _ (t : Info) (o : Outside) (t_len : ℕ) (index : ℤ) (content : Block) where
  put : ℕ → List Block → BitMemory → BitMemory
  put left bs m = record m {
    memory_pool =
        update_key index (set_piece (record { cur_len = left; blocks = bs })) m.memory_pool;
  }

  find_key-put :
      (left : ℕ) (bs : List Block) (p : Piece) (m : BitMemory)
      → find_key index m.memory_pool ≡ some p
      → find_key index (put left bs m).memory_pool ≡ some (record { cur_len = left; blocks = bs })
  unfolding put set_piece
  find_key-put left bs p m at =
      find_key-update_key (set_piece (record { cur_len = left; blocks = bs })) index m.memory_pool p
        at

  deal_more :
      (x : Slice) (p : Piece) (new : List Block) (m : BitMemory)
      → find_key index m.memory_pool ≡ some p
      → store x.begin x.src x.len p.blocks ≡ some new
      → x.len < p.cur_len
      → deal t o t_len index x.begin x.src x.len m
        ≡ some ([], record { ok = true; filled = false; memory = put (p.cur_len - x.len) new m })
  unfolding deal deal_piece put
  deal_more x p new m at stored lt =
      let enough : ltb p.cur_len x.len ≡ false = ground arith in
      let left : (p.cur_len - x.len == 0) ≡ false = ground arith in
      rw (deal, at, enough, stored, left)

  deal_last :
      (x : Slice) (p : Piece) (new : List Block) (m : BitMemory)
      → find_key index m.memory_pool ≡ some p
      → store x.begin x.src x.len p.blocks ≡ some new
      → x.len ≡ p.cur_len
      → sha1_data new t_len ≡ read content t_len
      → deal t o t_len index x.begin x.src x.len m
        ≡ finish t o t_len index content new (put 0 new m)
  unfolding deal deal_piece put
  deal_last x p new m at stored all bytes =
      let enough : ltb p.cur_len x.len ≡ false = ground arith in
      let none_left : p.cur_len - x.len ≡ 0 = ground arith in
      rw (deal, at, enough, stored, none_left, bytes)

  deliver-next :
      (x y : Slice) (ys : List Slice) (m : BitMemory) (r : Option (List FileWrite × Answer))
      → deal t o t_len index x.begin x.src x.len m ≡ r
      → deliver t o t_len index x (y ∷ ys) m ≡ (elim r as (λ r'. Option (List FileWrite × Answer)) [
        | none ↦ none
        | some (writes, a) ↦ deliver t o t_len index y ys a.memory
      ])
  unfolding deliver
  deliver-next x y ys m r e =
      ap
        (λ (r : Option (List FileWrite × Answer)).
          elim r as (λ r'. Option (List FileWrite × Answer)) [
            | none ↦ none
            | some (writes, a) ↦ deliver t o t_len index y ys a.memory
          ])
        e

  collects :
      (x : Slice) (ys : List Slice) (p : Piece) (m : BitMemory)
      → find_key index m.memory_pool ≡ some p
      → All (λ (s : Slice). IsSliceOf content t_len s) (x ∷ ys)
      → p.cur_len ≡ total (x ∷ ys)
      → t_len ≤ length p.blocks * block_size
      → Pending content t_len (x ∷ ys) p.blocks
      → (bs : List Block) × (m' : BitMemory) × Collected content t_len index bs m'
        × (deliver t o t_len index x ys m ≡ finish t o t_len index content bs m')
  unfolding deliver total
  collects x [] p m at (slice, rest) sum room pending =
      let (more, short, fits, same) = slice in
      let (new, stored, copied) =
        store-Copied x.begin x.src x.len p.blocks short more (omega arith) in
      let there = Copied-Pending content t_len x [] p.blocks new slice copied pending in
      let bytes = read_same (byte new) content t_len (Pending-nil content t_len new there) in
      let room' : t_len ≤ length new * block_size = rw copied.0 room in
      let ends =
        deal_last x p new m at stored (omega arith) (sha1_data-read new t_len room' ∙ bytes) in
      (new, put 0 new m, (bytes, find_key-put 0 new p m at), ends)
  collects x (y ∷ ys) p m at (slice, rest) sum room pending =
      let (more, short, fits, same) = slice in
      let (more', h, h', h'') = rest.0 in
      let (new, stored, copied) =
        store-Copied x.begin x.src x.len p.blocks short more (omega arith) in
      let there = Copied-Pending content t_len x (y ∷ ys) p.blocks new slice copied pending in
      let room' : t_len ≤ length new * block_size = rw copied.0 room in
      let step = deal_more x p new m at stored (omega arith) in
      let p' : Piece = record { cur_len = p.cur_len - x.len; blocks = new } in
      let (bs, m', collected, ends) =
        collects y ys p' (put (p.cur_len - x.len) new m)
          (find_key-put (p.cur_len - x.len) new p m at) rest (omega arith) room' there in
      (bs, m', collected, deliver-next x y ys m _ step ∙ ends)

  -- The first slice makes the entry.
  opened : BitMemory → BitMemory
  opened m = record m {
    memory_pool =
        emplace_key index (record { cur_len = t_len; blocks = take_blocks o.fresh t_len t_len })
          m.memory_pool;
  }

  find_key-opened :
      (m : BitMemory)
      → find_key index m.memory_pool ≡ none
      → find_key index (opened m).memory_pool
        ≡ some (record { cur_len = t_len; blocks = take_blocks o.fresh t_len t_len })
  unfolding opened
  find_key-opened m new =
      rw
        (emplace_key_new index
          (record { cur_len = t_len; blocks = take_blocks o.fresh t_len t_len }) m.memory_pool new)
        (find_key-cons index _ m.memory_pool)

  deal-opened :
      (begin : ℕ) (src : Block) (n : ℕ) (m : BitMemory)
      → find_key index m.memory_pool ≡ none
      → deal t o t_len index begin src n m ≡ deal t o t_len index begin src n (opened m)
  unfolding deal
  deal-opened begin src n m new =
      let entry = find_key-opened m new in rw (deal, new, entry) (unfold opened in refl)

  deliver-opened :
      (x : Slice) (ys : List Slice) (m : BitMemory)
      → find_key index m.memory_pool ≡ none
      → deliver t o t_len index x ys m ≡ deliver t o t_len index x ys (opened m)
  unfolding deliver
  deliver-opened x [] m new = deal-opened x.begin x.src x.len m new
  deliver-opened x (y ∷ ys) m new =
      deliver-next x y ys m _ (deal-opened x.begin x.src x.len m new)
      ∙ sym (deliver-next x y ys (opened m) _ refl)

-- Slices of one piece, each of 1 to 512 KiB bytes and with the bytes that the piece has there, are given to MEMORYPOOL_DEAL
-- one after another, in any order; the pool has no entry of the piece yet, the slices cover the piece
-- of `t_len` bytes, and their lengths have the sum `t_len`. Then every slice is stored without an access out of bounds, the blocks hold the bytes of the piece
-- after the last slice, and the result of the last call is that of `_Write` on these blocks, which may itself read out of bounds, when Sha1 of
-- those bytes is the hash of the piece, and a refusal that makes the piece start anew otherwise.
pub deal-deliver :
    (t : Info) (o : Outside) (t_len : ℕ) (index : ℤ) (content : Block) (x : Slice) (ys : List Slice)
    (m : BitMemory)
    → find_key index m.memory_pool ≡ none
    → All (λ (s : Slice). IsSliceOf content t_len s) (x ∷ ys)
    → total (x ∷ ys) ≡ t_len
    → ((k : ℕ) → k < t_len → Within k (x ∷ ys))
    → (bs : List Block) × (m' : BitMemory) × Collected content t_len index bs m'
      × (deliver t o t_len index x ys m ≡ finish t o t_len index content bs m')
unfolding Pending
deal-deliver t o t_len index content x ys m new slices sum cover =
    let p : Piece = record { cur_len = t_len; blocks = take_blocks o.fresh t_len t_len } in
    let (bs, m', collected, ends) =
      collects t o t_len index content x ys p (opened t o t_len index content m)
        (find_key-opened t o t_len index content m new) slices (sym sum)
        (take_blocks-length o.fresh t_len t_len (omega arith)) (λ k lt. inr (cover k lt)) in
    (bs, m', collected, deliver-opened t o t_len index content x ys m new ∙ ends)
