-- ===== src/Wire/Frame.antt =====
-- Reading one message off a socket: SelectSwitch::operator() of BitTorrent/CszSelectSwitch.cpp from
-- its `recv` of the length on, and the fields that the handlers DHave, DRequest and DPiece read.
-- The input is what the peer has sent within the time that the calls wait.
pub mod RoundTrip
pub mod Shorter
pub mod Stream
use socket_template.Base.{
  ℕ, ◌+◌, ◌-◌, ◌*◌, ◌^◌, Bool, true, false, ◌&&◌, ◌||◌, Option, some, none, List, [], ◌∷◌, length,
  take, drop, leb, ltb, ◌==◌, if◌then◌else◌,
}
use socket_template.Wire.Bytes.{ntohl_at}

pub data Frame : Type 0 where
  -- CloseSocket
  closed : Frame
  -- DKeepAlive, DChoke, DUnChoke, DInterested, DUnInterested are run, and what is left to read
  keep_alive choke unchoke interested uninterested : List ℕ → Frame
  -- a task for the handler of this id, with its buffer
  task : ℕ → List ℕ → List ℕ → Frame
  -- an id from 10 on: the buffer is dropped
  ignored : List ℕ → Frame

-- The body, `size` bytes of which are asked for. RecvTime_us refuses a length of 0, and `new` one
-- that is negative as an int32_t.
pub read_body : ℕ → ℕ → List ℕ → Frame
read_body id size rest =
    if size == 0 || (leb (2 ^ 31) size || ltb (length rest) size)
    then closed
    else if ltb id 10
    then task id (take size rest) (drop size rest)
    else ignored (drop size rest)

-- The id. The four messages without a body leave alone whatever their length announced.
pub read_id : ℕ → List ℕ → Frame
unfolding read_body
read_id len [] = closed
read_id len (id ∷ rest) =
    if id == 0
    then choke rest
    else if id == 1
    then unchoke rest
    else if id == 2
    then interested rest
    else if id == 3
    then uninterested rest
    else read_body id (len - 1) rest

unfoldable pub next_frame : List ℕ → Frame
unfolding read_id ntohl_at
next_frame bytes =
    if ltb (length bytes) 4
    then closed
    else if ntohl_at bytes 0 == 0
    then keep_alive (drop 4 bytes)
    else read_id (ntohl_at bytes 0) (drop 4 bytes)

-- *(int32_t*)(buf + at) of a buffer, in host order; `none` is a read past its end.
pub field_at : List ℕ → ℕ → Option ℕ
unfolding ntohl_at
field_at buf at = if leb (at + 4) (length buf) then some (ntohl_at buf at) else none

-- What DHave, DRequest and DPiece take from the buffer.
pub have_index : List ℕ → Option ℕ
unfolding field_at
have_index buf = field_at buf 0

pub request_fields : List ℕ → Option (ℕ × ℕ × ℕ)
unfolding field_at
request_fields buf = elim (field_at buf 0) [
  | none ↦ none
  | some index ↦ elim (field_at buf 4) [
    | none ↦ none
    | some begin ↦ elim (field_at buf 8) [ none ↦ none | some size ↦ some (index, begin, size) ]
  ]
]

unfoldable pub piece_fields : List ℕ → Option (ℕ × ℕ × List ℕ)
unfolding field_at
piece_fields buf = elim (field_at buf 0) [
  | none ↦ none
  | some index ↦ elim (field_at buf 4) [
    | none ↦ none
    | some begin ↦ some (index, begin, drop 8 buf)
  ]
]
