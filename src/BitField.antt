-- ===== src/BitField.antt =====
-- BitField of BitTorrent/CszBitField.cpp and BitTorrent/CszBitTorrent.h: the `bitfield` message that
-- is also the record of the pieces held. `total` and `cur_sum` are counts of pieces, below 2 ^ 31.
pub mod Fill
pub mod Lack
pub mod Answers
pub mod Progress
mod Examples
use socket_template.Base.{
  ℕ, zero, suc, ◌+◌, ◌-◌, ◌*◌, ◌/◌, ◌%◌, ◌^◌, Bool, true, false, ◌&&◌, Option, none, some, List, [],
  ◌∷◌, ◌++◌, length, get_elem?, set, take, drop, leb, ◌==◌, not, if◌then◌else◌, RwLock, unlocked,
  wrlock, rdlock, unlock, ℤ, pos, negsuc, test_bit, set_bit,
}
use socket_template.Wire.Bytes.{htonl}

pub record BitField : Type 0 where
  pub prefix_and_bit_field : List ℕ
  pub total : ℕ
  pub cur_sum : ℕ
  pub lock : RwLock

-- The constructor: five bytes of prefix, the fifth of which is the message's id.
unfoldable pub new : BitField
new = record {
  prefix_and_bit_field = 0 ∷ 0 ∷ 0 ∷ 0 ∷ 5 ∷ [];
  total = 0;
  cur_sum = 0;
  lock = unlocked;
}

-- The length in front counts what follows it, most significant byte first.
pub set_prefix_length : List ℕ → List ℕ
unfolding htonl
set_prefix_length p = if leb (length p) 5 then p else htonl (length p - 4) ++ drop 4 p

-- _SetParameter
pub append_bits : List ℕ → List ℕ → List ℕ
unfolding set_prefix_length
append_bits p [] = p
append_bits p (b ∷ bits) = set_prefix_length (p ++ (b ∷ bits))

-- `erase(5)` keeps the prefix.
unfoldable pub set_parameter : BitField → List ℕ → ℕ → BitField
unfolding append_bits
set_parameter f bits total = elim (wrlock f.lock) [
  | none ↦ f
  | some held ↦ record f {
    prefix_and_bit_field = append_bits (take 5 f.prefix_and_bit_field) bits;
    total = total;
    lock = unlock held;
  }
]

-- The part of FillBitField under the lock. A field without bits is left with the lock held.
-- `none` is a write past the end of the string.
pub fill_locked : BitField → ℕ → Option BitField
unfolding test_bit set_bit
fill_locked f n =
    if leb (length f.prefix_and_bit_field) 5
    then some f
    else elim (get_elem? f.prefix_and_bit_field (n / 8 + 5)) [
      | none ↦ none
      | some val ↦
          if test_bit val (n % 8)
          then some (record f { lock = unlock f.lock })
          else some (record f {
            prefix_and_bit_field = set f.prefix_and_bit_field (n / 8 + 5) (set_bit val (n % 8));
            cur_sum = f.cur_sum + 1;
            lock = unlock f.lock;
          })
    ]

unfoldable pub fill_bit_field : BitField → ℤ → Option BitField
unfolding fill_locked
fill_bit_field f (negsuc n) = some f
fill_bit_field f (pos n) = elim (wrlock f.lock) [
  | none ↦ some f
  | some held ↦ fill_locked (record f { lock = held }) n
]

-- `s[i]` of a const access: the byte, the NUL just behind the last one, or nothing defined.
pub char_at : List ℕ → ℕ → Option ℕ
char_at [] zero = some 0
char_at [] (suc i) = none
char_at (x ∷ xs) zero = some x
char_at (x ∷ xs) (suc i) = char_at xs i

-- The index is passed by reference: the second result is what it holds afterwards.
pub check_piece : BitField → ℤ → Option (Bool × ℤ)
unfolding char_at test_bit
check_piece f (negsuc n) = some (true, negsuc 0)
check_piece f (pos n) = elim (rdlock f.lock) [
  | none ↦ some (true, pos n)
  | some held ↦
      if leb (length f.prefix_and_bit_field) 5
      then some (true, negsuc 0)
      else elim (char_at f.prefix_and_bit_field (n / 8 + 5)) [
        | none ↦ none
        | some val ↦ some (test_bit val (n % 8), pos n)
      ]
]

-- LocalBitField::CheckBitField: a negative index, given or left behind, is no piece.
unfoldable pub check_bit_field : BitField → ℤ → Option Bool
unfolding check_piece
check_bit_field f i = elim (check_piece f i) [
  | none ↦ none
  | some (found, pos n) ↦ some found
  | some (found, negsuc n) ↦ some false
]

-- The inner loop of LackNeedPiece, with `rounds` bits of the byte to go: the pieces that the peer has
-- and that are missing here, and the loop's `index` and `check_total` behind it.
pub lack_byte : ℕ → ℕ → ℕ → ℕ → ℕ → ℕ → List ℕ × ℕ × ℕ
unfolding test_bit
lack_byte zero i theirs ours index left = ([], index, left)
lack_byte (suc rounds) i theirs ours index left =
    let (rest, index', left') = lack_byte rounds (i + 1) theirs ours (index + 1) (left - 1) in
    if left == 0 then ([], index, left) else (
      (if test_bit theirs i && not (test_bit ours i) then index ∷ rest else rest),
      index',
      left',
    )

-- The outer loop, over the bytes of the two fields.
pub lack_bytes : List ℕ → List ℕ → ℕ → ℕ → List ℕ
unfolding lack_byte
lack_bytes [] ours index left = []
lack_bytes (t ∷ theirs) [] index left = []
lack_bytes (t ∷ theirs) (o ∷ ours) index left =
    let (found, index', left') = lack_byte 8 0 t o index left in
    found ++ lack_bytes theirs ours index' left'

-- The peer's field is a buffer with its length; `none` is a null pointer.
pub lack_need_piece : BitField → Option (List ℕ) → List ℕ
unfolding lack_bytes
lack_need_piece f bits = elim (rdlock f.lock) [
  | none ↦ []
  | some held ↦ if leb (length f.prefix_and_bit_field) 5 then [] else elim bits [
    | none ↦ []
    | some theirs ↦
        if length theirs + 5 == length f.prefix_and_bit_field
        then lack_bytes theirs (drop 5 f.prefix_and_bit_field) 0 f.total
        else []
  ]
]

pub game_over : BitField → Bool
game_over f = elim (rdlock f.lock) [ none ↦ false | some held ↦ f.total == f.cur_sum ]

-- DownLoad and LeftSize return uint32_t. `length_normal` is TorrentFile's GetIndexNormalLength, and
-- `file_total` its GetFileTotal.
pub down_load : BitField → ℕ → ℕ → ℕ
down_load f length_normal file_total =
    if f.cur_sum == f.total then file_total % 2 ^ 32 else f.cur_sum * length_normal % 2 ^ 32

pub left_size : BitField → ℕ → ℕ → ℕ
unfolding down_load
left_size f length_normal file_total =
    if f.cur_sum == f.total
    then 0
    else (file_total % 2 ^ 32 + 2 ^ 32 - down_load f length_normal file_total) % 2 ^ 32

-- Clear also destroys the lock; the program ends after it.
pub clear : BitField → BitField
clear f = record f { prefix_and_bit_field = [] }
