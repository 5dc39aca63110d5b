-- ===== src/Wire.antt =====
-- The messages of the peer protocol as they are sent: BitTorrent/CszBitTorrent.h, CszReqCleBase.cpp,
-- CszPiece.cpp. A message is the bytes of its object's array.
pub mod Bytes
pub mod HandShake
pub mod Frame
mod Examples
use socket_template.Base.{
  ℕ, ◌+◌, ◌-◌, ◌%◌, ◌^◌, Bool, true, false, ◌||◌, List, [], ◌∷◌, ◌++◌, length, take, drop,
  replicate, leb, if◌then◌else◌, ℤ, pos, negsuc, to_u32,
}
use Bytes.{htonl, htons}

-- *reinterpret_cast<int32_t*>(b + at) = htonl(x)
abbrev pub write4 : List ℕ → ℕ → ℕ → List ℕ
write4 b at x = take at b ++ (htonl x ++ drop (at + 4) b)

pub keep_alive : List ℕ
keep_alive = 0 ∷ 0 ∷ 0 ∷ 0 ∷ []

-- Choke, UnChoke, Interested and UnInterested: a length of one, and the id.
pub short_message : ℕ → List ℕ
unfolding htonl
short_message id = write4 (0 ∷ 0 ∷ 0 ∷ 0 ∷ id ∷ []) 0 1

pub choke : List ℕ
unfolding short_message
choke = short_message 0

pub unchoke : List ℕ
unfolding short_message
unchoke = short_message 1

pub interested : List ℕ
unfolding short_message
interested = short_message 2

pub uninterested : List ℕ
unfolding short_message
uninterested = short_message 3

-- Have, and its SetParameter
pub have_new : List ℕ
unfolding htonl
have_new = write4 (0 ∷ 0 ∷ 0 ∷ 0 ∷ 4 ∷ 0 ∷ 0 ∷ 0 ∷ 0 ∷ []) 0 5

pub have : List ℕ → ℤ → List ℕ
have h index = write4 h 5 (to_u32 index)

-- ReqCleBase, for Request (id 6) and Cancle (id 8)
pub req_cle_new : ℕ → List ℕ
unfolding htonl
req_cle_new id = write4 (0 ∷ 0 ∷ 0 ∷ 0 ∷ id ∷ replicate 12 0) 0 13

pub req_cle : List ℕ → ℤ → ℤ → ℤ → List ℕ
req_cle b index begin size =
    write4 (write4 (write4 b 5 (to_u32 index)) 9 (to_u32 begin)) 13 (to_u32 size)

pub request : ℤ → ℤ → ℤ → List ℕ
unfolding req_cle req_cle_new
request index begin size = req_cle (req_cle_new 6) index begin size

pub cancle : ℤ → ℤ → ℤ → List ℕ
unfolding req_cle req_cle_new
cancle index begin size = req_cle (req_cle_new 8) index begin size

-- Piece. The slice is appended to what the message holds, and the length in front is set again.
pub piece_new : List ℕ
piece_new = 0 ∷ 0 ∷ 0 ∷ 0 ∷ 7 ∷ replicate 8 0

pub piece_prefix_length : List ℕ → List ℕ
piece_prefix_length p = if leb (length p) 13 then p else write4 p 0 (length p - 4)

abbrev is_empty : List ℕ → Bool
is_empty [] = true
is_empty (x ∷ xs) = false

pub piece : List ℕ → ℤ → ℤ → List ℕ → List ℕ
unfolding piece_prefix_length
piece p (negsuc i) begin slice = p
piece p (pos i) (negsuc b) slice = p
piece p (pos i) (pos b) slice =
    if is_empty slice
    then p
    else piece_prefix_length (write4 (write4 p 5 (to_u32 (pos i))) 9 (to_u32 (pos b)) ++ slice)

-- Port
pub port : ℕ → List ℕ
unfolding htonl htons
port number = take 5 (write4 (0 ∷ 0 ∷ 0 ∷ 0 ∷ 9 ∷ 0 ∷ 0 ∷ []) 0 3) ++ htons (number % 2 ^ 16)
