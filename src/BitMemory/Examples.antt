-- ===== src/BitMemory/Examples.antt =====
-- BitMemory: runs, and the theorems at concrete inputs.
use socket_template.Base.{
  map, ℕ, ◌+◌, ◌*◌, ◌≤◌, ◌<◌, ◌≡◌, refl, not, ◌==◌, false, Bool, true, Option, none, some,
  Bool-cases, inl, inr, List, [], ◌∷◌, ltb, ltb→lt, ltb→le, pos, find_key, update_key, emplace_key,
  arith,
}
use socket_template.Torrent.{get_file_total, get_index_end, File, Info, get_hash}
use socket_template.Torrent.FileNames.{
  get_file_name, get_file_names, find_files, next_files, unused_all,
}
use socket_template.Torrent.FileNames.Several.{sum_files}
use socket_template.BitMemory.Folders.{real_write-several}
use socket_template.BitMemory.{
  Block, block_size, BitMemory, Outside, Answer, FileWrite, deal, deal_piece, refuse, real_write,
  write_files, store, memcpy, read, sha1_data, take_blocks, eq_bytes, clear_index, clear_piece,
  set_piece,
}
use socket_template.BitMemory.Blocks.{byte, Copied, store-Copied}
use socket_template.BitMemory.Bytes.{sha1_data-read}
use socket_template.BitMemory.Gather.{
  Slice, deliver, total, Within, Collected, finish, deal-deliver,
}
use socket_template.BitMemory.Files.{as_info, in_order, sum_len, write_files-in_order}
use socket_template.BitMemory.Again.{deal_again}

abbrev four : Info
four = record {
  files = [];
  pieces =
      10 ∷ 11 ∷ 12 ∷ 13 ∷ 10 ∷ 11 ∷ 12 ∷ 13 ∷ 10 ∷ 11 ∷ 12 ∷ 13 ∷ 10 ∷ 11 ∷ 12 ∷ 13 ∷ 10 ∷ 11 ∷ 12
      ∷ 13 ∷ [];
  name = 97 ∷ [];
  length = 4;
  piece_length = 4;
  single = true;
}

five_times : List ℕ → List ℕ
five_times (a ∷ b ∷ c ∷ d ∷ []) =
    a ∷ b ∷ c ∷ d ∷ a ∷ b ∷ c ∷ d ∷ a ∷ b ∷ c ∷ d ∷ a ∷ b ∷ c ∷ d ∷ a ∷ b ∷ c ∷ d ∷ []
five_times other = []

abbrev outside : Outside
outside = record { fresh = λ k. 0; sha1 = five_times; valid = λ name. true }

abbrev memory : BitMemory
memory = record { index_end = pos 0; length_end = 4; length_normal = 4; memory_pool = [] }

abbrev content : Block
content k = 10 + k

abbrev slices : List Slice
slices = record { begin = 0; src = content; len = 3 } ∷ []

abbrev tail_slice : Slice
tail_slice = record { begin = 3; src = λ k. 13 + k; len = 1 }

in_slices : (k : ℕ) → k < 4 → Within k (tail_slice ∷ slices)
in_slices k lt = elim (Bool-cases (ltb k 3)) [
  | inl low ↦ inr (inl (omega arith, ltb→lt k 3 low))
  | inr high ↦ inl (ltb→le k 3 high, omega arith)
]

deal-deliver_example :
    (bs : List Block) × (m' : BitMemory) × Collected content 4 (pos 0) bs m'
    × (deliver four outside 4 (pos 0) tail_slice slices memory
        ≡ finish four outside 4 (pos 0) content bs m')
unfolding find_key total
deal-deliver_example =
    deal-deliver four outside 4 (pos 0) content tail_slice slices memory refl
      (
        (omega arith, omega arith, omega arith, λ k lt. omega arith),
        ((omega arith, omega arith, omega arith, λ k lt. omega arith), tt),
      )
      refl in_slices

-- The two slices, in the other order, are written as one file of four bytes.
written : Option (List FileWrite × Answer) → Option (List FileWrite × Bool × Bool)
written none = none
written (some (w, a)) = some (w, a.ok, a.filled)

deliver_run :
    written (deliver four outside 4 (pos 0) tail_slice slices memory)
    ≡ some ((97 ∷ [], 0, 10 ∷ 11 ∷ 12 ∷ 13 ∷ []) ∷ [], true, true)
unfolding written five_times deliver deal deal_piece refuse real_write get_file_names get_file_name
    get_file_total get_index_end write_files store memcpy read sha1_data take_blocks eq_bytes
    clear_index clear_piece set_piece get_hash find_key update_key emplace_key
deliver_run = refl

store-Copied_example :
    (new : List Block) × (store 524286 content 4 ((λ k. 0) ∷ (λ k. 1) ∷ []) ≡ some new)
    × Copied 524286 content 4 ((λ k. 0) ∷ (λ k. 1) ∷ []) new
store-Copied_example =
    store-Copied 524286 content 4 ((λ k. 0) ∷ (λ k. 1) ∷ []) (omega arith) (omega arith)
      (omega arith)

sha1_data-read_example : sha1_data (content ∷ []) 4 ≡ read (byte (content ∷ [])) 4
sha1_data-read_example = sha1_data-read (content ∷ []) 4 (omega arith)

write_files-in_order_example :
    write_files
      (λ name. true)
      (content ∷ [])
      0
      block_size
      0
      (map as_info ((97 ∷ [], 7, 2) ∷ (98 ∷ [], 0, 2) ∷ []))
    ≡ some (
      in_order content 0 ((97 ∷ [], 7, 2) ∷ (98 ∷ [], 0, 2) ∷ []),
      some (0 + sum_len ((97 ∷ [], 7, 2) ∷ (98 ∷ [], 0, 2) ∷ [])),
    )
unfolding sum_len
write_files-in_order_example =
    write_files-in_order (λ name. true) content [] ((97 ∷ [], 7, 2) ∷ (98 ∷ [], 0, 2) ∷ []) 0
      block_size 0 refl (omega arith) (refl, (refl, tt))

abbrev complete : BitMemory
complete = record memory {
  memory_pool = (pos 0, record { cur_len = 0; blocks = content ∷ [] }) ∷ [];
}

abbrev done : BitMemory
done = record memory { memory_pool = (pos 0, record { cur_len = 0; blocks = [] }) ∷ [] }

deal_again_example :
    (deal four outside 4 (pos 0) 0 content 3 done ≡ some ([], refuse (pos 0) 4 done))
    × (deal four outside 4 (pos 0) 3 content 1 (refuse (pos 0) 4 done).memory ≡ none)
unfolding find_key real_write get_file_names get_file_name get_file_total get_index_end write_files
    read clear_index clear_piece update_key
deal_again_example =
    deal_again four outside 4 (pos 0) (content ∷ []) complete
      ((97 ∷ [], 0, 10 ∷ 11 ∷ 12 ∷ 13 ∷ []) ∷ [])
      (record { ok = true; filled = true; memory = done }) 0 3 content content 3 1 refl refl refl
      (omega arith) (omega arith) (omega arith)

abbrev first_file : File
first_file = record { length = 4; file_path = 98 ∷ [] }

abbrev two_files : Info
two_files = record four { files = first_file ∷ first_file ∷ []; length = 0; single = false }

-- A name opens when it does not end in a stroke.
abbrev no_folder : List ℕ → Bool
no_folder [] = false
no_folder (c ∷ []) = not (c == 47)
no_folder (c ∷ cs) = no_folder cs

abbrev two_files_outside : Outside
two_files_outside = record outside { valid = no_folder }

abbrev some_answer : Answer
some_answer = refuse (pos 1) 4 memory

real_write-several_example : (refuse (pos 1) 4 memory).filled ≡ false
real_write-several_example =
    real_write-several two_files two_files_outside 1 4 (first_file ∷ []) first_file []
      (content ∷ []) memory ((97 ∷ 47 ∷ 98 ∷ [], 0, 10 ∷ 11 ∷ 12 ∷ 13 ∷ []) ∷ []) some_answer refl
      refl (omega arith) one_before one_in one_whole (omega arith) (omega arith) (omega arith)
      (omega arith) refl refused
  where
    one_before : sum_files (first_file ∷ []) ≤ 1 * 4
    one_before = unfold sum_files in omega arith

    one_in : 1 * 4 < sum_files (first_file ∷ []) + 4
    one_in = unfold sum_files in omega arith

    one_whole : 1 * 4 + 4 ≤ sum_files (first_file ∷ []) + 4
    one_whole = unfold sum_files in omega arith

    refused :
        real_write two_files two_files_outside (pos 1) 4 (content ∷ []) memory
        ≡ some ((97 ∷ 47 ∷ 98 ∷ [], 0, 10 ∷ 11 ∷ 12 ∷ 13 ∷ []) ∷ [], refuse (pos 1) 4 memory)
    refused =
        unfold real_write get_file_names get_file_name find_files next_files unused_all write_files
          read in
        refl
