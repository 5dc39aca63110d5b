-- ===== src/BitMemory.antt =====
-- BitMemory of BitTorrent/CszBitMemory.cpp: the pieces in the making, in blocks of 512 KiB (struct BT). A block is a function
-- from an offset to the byte there; `none` is an access out of bounds. The pool that the blocks come from is butil's:
-- `fresh` is what a block holds when it is taken. Sha1 and the writing to files are parameters too.
pub mod Blocks
pub mod Bytes
pub mod Gather
pub mod Files
pub mod Again
pub mod Folders
mod Examples
use socket_template.Base.{
  ℕ, zero, suc, ◌+◌, ◌-◌, ◌*◌, ◌/◌, ◌%◌, Bool, true, false, Option, none, some, List, [], ◌∷◌, ◌++◌,
  ltb, leb, ◌==◌, if◌then◌else◌, ℤ, pos, negsuc, eq_ℤ, ◌&&◌, length, find_key, update_key,
  emplace_key,
}
use socket_template.Torrent.{Info, get_hash}
use socket_template.Torrent.FileNames.{FileInfo, get_file_names}

abbrev pub Block : Type 0
Block = ℕ → ℕ

-- sizeof(BT)
abbrev pub block_size : ℕ
block_size = 524288

-- BitMemory::DataType
pub record Piece : Type 0 where
  pub cur_len : ℕ
  pub blocks : List Block

pub record BitMemory : Type 0 where
  pub index_end : ℤ
  pub length_end : ℕ
  pub length_normal : ℕ
  pub memory_pool : List (ℤ × Piece)

-- Init. `none` is ErrQuit.
pub init : ℤ → ℤ → ℕ → BitMemory → Option BitMemory
init (negsuc index_end) length_end length_normal m = none
init (pos index_end) (negsuc length_end) length_normal m = none
init (pos index_end) (pos length_end) length_normal m =
    some (record m {
      index_end = pos index_end;
      length_end = length_end;
      length_normal = length_normal;
    })

-- memcpy into one block
pub memcpy : ℕ → ℕ → Block → ℕ → List Block → Option (List Block)
memcpy index at src n [] = none
memcpy zero at src n (b ∷ bs) =
    if leb (at + n) block_size
    then some ((λ k. if leb at k then (if ltb k (at + n) then src (k - at) else b k) else b k) ∷ bs)
    else none
memcpy (suc index) at src n (b ∷ bs) = elim (memcpy index at src n bs) [
  | none ↦ none
  | some bs' ↦ some (b ∷ bs')
]

-- The slice goes into one block or into two that follow each other.
pub store : ℕ → Block → ℕ → List Block → Option (List Block)
unfolding memcpy
store begin src n blocks =
    let block_index = begin / block_size in
    let at = begin % block_size in
    let lhs_len = block_size - at in
    if ltb block_size (at + n)
    then elim (memcpy block_index at src lhs_len blocks) [
      | none ↦ none
      | some blocks' ↦ memcpy (block_index + 1) 0 (λ k. src (lhs_len + k)) (n - lhs_len) blocks'
    ]
    else memcpy block_index at src n blocks

-- The bytes of a block from its start
pub read : Block → ℕ → List ℕ
read b zero = []
read b (suc n) = b 0 ∷ read (λ k. b (suc k)) n

-- The loop that takes blocks until the length is reached, on fuel: the length is enough.
pub take_blocks : Block → ℕ → ℕ → List Block
take_blocks fresh zero cur_memory = []
take_blocks fresh (suc fuel) cur_memory =
    let rest = take_blocks fresh fuel (cur_memory - block_size) in
    if ltb 0 cur_memory then fresh ∷ rest else []

-- The data for Sha1
pub sha1_data : List Block → ℕ → List ℕ
sha1_data [] len = []
sha1_data (b ∷ bs) len =
    let rest = sha1_data bs (len - block_size) in
    if ltb 0 len then if ltb block_size len then read b block_size ++ rest else read b len else []

-- ClearIndex(index, len); with 0 the blocks go back and the entry stays.
pub clear_piece : ℕ → Piece → Piece
clear_piece len p = if len == 0 then record p { blocks = [] } else record p { cur_len = len }

pub clear_index : ℤ → ℕ → BitMemory → BitMemory
unfolding update_key clear_piece
clear_index index len m = record m {
  memory_pool = update_key index (clear_piece len) m.memory_pool;
}

-- One File.Write, inside the block.
abbrev pub FileWrite : Type 0
FileWrite = List ℕ × ℕ × List ℕ

abbrev pub inside : ℕ → Block → ℕ → Option (List ℕ)
inside at b n = if leb (at + n) block_size then some (read (λ k. b (at + k)) n) else none

-- A step back from the start of a block: the next file's bytes would be in front of it.
step_back : (List ℕ → Bool) → ℕ → List FileInfo → Option (List FileWrite × Option ℕ)
step_back valid write_byte [] = some ([], (if write_byte == 0 then none else some (write_byte - 1)))
step_back valid write_byte ((name, place, len) ∷ files) =
    if valid name then none else some ([], none)

-- A place of `- place - 1` with a length beyond the block: the first Write fails, the second is in the next block, and the sum
-- of the two results is not the length.
write_behind : List ℕ → ℕ → ℕ → ℕ → List Block → Option (List FileWrite × Option ℕ)
unfolding read
write_behind name place left_read len [] = some ([], none)
write_behind name place left_read len (b ∷ bs) =
    if ltb place left_read
    then elim (inside 0 b (len - left_read)) [
      | none ↦ none
      | some bytes ↦ some ((name, left_read - (place + 1), bytes) ∷ [], none)
    ]
    else some ([], none)

-- `_Write` over the files that GetFileName names, with the place of each in the file and its length: what is written
-- where, and the number of bytes, or `none` for a result of -1 with what was written till then. `valid` says of a file name whether the
-- file opens and takes what is written at a place from 0 on. File.Write returns -1 for a length or a place below 0. A length of -1 is
-- therefore taken for a success, and steps back by a byte. The outer Option is an access out of bounds.
pub write_files :
    (List ℕ → Bool) → List Block → ℕ → ℕ → ℕ → List FileInfo → Option (List FileWrite × Option ℕ)
unfolding step_back write_behind
write_files valid blocks cur_read left_read write_byte [] = some ([], some write_byte)
write_files valid [] cur_read left_read write_byte (file ∷ files) = some ([], none)
write_files valid (b ∷ bs) cur_read left_read write_byte ((name, place, negsuc (suc len)) ∷ files) =
    some ([], none)
write_files valid (b ∷ bs) zero left_read write_byte ((name, place, negsuc zero) ∷ files) =
    if valid name then step_back valid write_byte files else some ([], none)
write_files valid (b ∷ bs) (suc cur_read) left_read write_byte
      ((name, place, negsuc zero) ∷ files) =
    let rest = write_files valid (b ∷ bs) cur_read (left_read + 1) (write_byte - 1) files in
    if valid name then rest else some ([], none)
write_files valid (b ∷ bs) cur_read left_read write_byte ((name, negsuc place, pos len) ∷ files) =
    if valid name
    then if leb len left_read then some ([], none) else write_behind name place left_read len bs
    else some ([], none)
write_files valid (b ∷ bs) cur_read left_read write_byte ((name, pos place, pos len) ∷ files) =
    if valid name
    then if leb len left_read
      then elim (inside cur_read b len) [
        | none ↦ none
        | some bytes ↦
            elim (write_files valid (b ∷ bs) (cur_read + len) (left_read - len) (write_byte + len)
              files) [
                | none ↦ none
                | some (writes, code) ↦ some ((name, place, bytes) ∷ writes, code)
              ]
      ]
      else elim (inside cur_read b left_read) [
        | none ↦ none
        | some bytes ↦ elim bs [
          | [] ↦ some ((name, place, bytes) ∷ [], none)
          | b' ∷ bs' ↦ elim (inside 0 b' (len - left_read)) [
            | none ↦ none
            | some bytes' ↦
                elim (write_files valid (b' ∷ bs') (len - left_read) (block_size - left_read)
                  (write_byte + len) files) [
                    | none ↦ none
                    | some (writes, code) ↦
                        some
                          ((name, place, bytes) ∷ (name, place + left_read, bytes') ∷ writes, code)
                  ]
          ]
        ]
      ]
    else some ([], none)

-- The comparison of two strings
pub eq_bytes : List ℕ → List ℕ → Bool
eq_bytes [] [] = true
eq_bytes [] (y ∷ ys) = false
eq_bytes (x ∷ xs) [] = false
eq_bytes (x ∷ xs) (y ∷ ys) = (x == y) && eq_bytes xs ys

-- What Write is given from outside: the bytes that a new block holds, Sha1, the files that open and take what is
-- written.
pub record Outside : Type 0 where
  pub fresh : Block
  pub sha1 : List ℕ → List ℕ
  pub valid : List ℕ → Bool

-- The answer of Write, and whether FillBitField and NeedPiece::ClearIndex are called for the index.
pub record Answer : Type 0 where
  pub ok : Bool
  pub filled : Bool
  pub memory : BitMemory

pub refuse : ℤ → ℕ → BitMemory → Answer
unfolding clear_index
refuse index t_len m = record { ok = false; filled = false; memory = clear_index index t_len m }

-- `_Write`, and what follows it
pub real_write : Info → Outside → ℤ → ℕ → List Block → BitMemory → Option (List FileWrite × Answer)
unfolding write_files refuse clear_index
real_write t o index t_len [] m = some ([], refuse index t_len m)
real_write t o index t_len (b ∷ bs) m = elim (get_file_names t index) [
  | [] ↦ some ([], refuse index t_len m)
  | file ∷ files ↦ elim (write_files o.valid (b ∷ bs) 0 block_size 0 (file ∷ files)) [
    | none ↦ none
    | some (writes, none) ↦ some (writes, refuse index t_len m)
    | some (writes, some write_byte) ↦
        if write_byte == t_len
        then some (writes, record { ok = true; filled = true; memory = clear_index index 0 m })
        else some (writes, refuse index t_len m)
  ]
]

pub set_piece : Piece → Piece → Piece
set_piece new old = new

-- MEMORYPOOL_DEAL(T_LEN), with the entry in the pool. Its last branch, for a `cur_len` below 0, is never taken.
pub deal_piece :
    Info → Outside → ℕ → ℤ → ℕ → Block → ℕ → Piece → BitMemory → Option (List FileWrite × Answer)
unfolding refuse store update_key sha1_data eq_bytes real_write set_piece
deal_piece t o t_len index begin src n p m =
    if ltb p.cur_len n then some ([], refuse index t_len m) else elim (store begin src n p.blocks) [
      | none ↦ none
      | some blocks ↦
          let left = p.cur_len - n in
          let m' : BitMemory = record m {
            memory_pool =
                update_key index (set_piece (record { cur_len = left; blocks = blocks }))
                  m.memory_pool;
          } in
          if left == 0
          then if eq_bytes (o.sha1 (sha1_data blocks t_len)) (get_hash t index)
            then real_write t o index t_len blocks m'
            else some ([], refuse index t_len m')
          else some ([], record { ok = true; filled = false; memory = m' })
    ]

-- MEMORYPOOL_DEAL(T_LEN): the first slice of an index makes the entry.
pub deal : Info → Outside → ℕ → ℤ → ℕ → Block → ℕ → BitMemory → Option (List FileWrite × Answer)
unfolding find_key emplace_key take_blocks deal_piece
deal t o t_len index begin src n m = elim (find_key index m.memory_pool) [
  | some p ↦ deal_piece t o t_len index begin src n p m
  | none ↦
      let p : Piece = record { cur_len = t_len; blocks = take_blocks o.fresh t_len t_len } in
      deal_piece t o t_len index begin src n p
        (record m { memory_pool = emplace_key index p m.memory_pool })
]

-- Write(index, begin, buf, length), with `none` for a null pointer. A `begin` below 0 is not modelled.
unfoldable pub write :
    Info → Outside → ℤ → ℕ → Option Block → ℤ → BitMemory → Option (List FileWrite × Answer)
unfolding deal
write t o (negsuc index) begin src n m =
    some ([], record { ok = false; filled = false; memory = m })
write t o (pos index) begin none n m = some ([], record { ok = false; filled = false; memory = m })
write t o (pos index) begin (some src) (negsuc n) m =
    some ([], record { ok = false; filled = false; memory = m })
write t o (pos index) begin (some src) (pos zero) m =
    some ([], record { ok = false; filled = false; memory = m })
write t o (pos index) begin (some src) (pos (suc n)) m =
    deal t o (if eq_ℤ m.index_end (pos index) then m.length_end else m.length_normal) (pos index)
      begin src (suc n) m
