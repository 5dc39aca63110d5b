-- ===== src/Client/Download.antt =====
-- DPiece and _LockPiece of BitTorrent/CszSelectSwitch.cpp: a piece is taken from a peer, slice by slice, while the other
-- messages of that peer are handled. What is outside is a parameter: the torrent's data, Sha1 and the
-- files, which sockets a send reaches, how many sends succeed, GameEnd as a function of the field, and the time of each message.
pub mod Ends
pub mod Sound
pub mod Rounds
pub mod Unlocked
pub mod Done
pub mod Complete
pub mod Whole
mod Examples
use socket_template.Base.{
  ℕ, zero, suc, ◌+◌, ◌-◌, ◌==◌, Bool, true, false, Option, none, some, List, [], ◌∷◌, ◌++◌, map,
  length, take, get_or, if◌then◌else◌, ℤ, pos, negsuc, eq_ℤ, to_i32, find_key,
}
use socket_template.Wire.{request}
use socket_template.Wire.Frame.{
  Frame, closed, keep_alive, choke, unchoke, interested, uninterested, task, ignored, next_frame,
  have_index, request_fields, piece_fields,
}
use socket_template.Torrent.{Info, to_u64, accepts_slice, slice_requests, get_piece_bit}
use socket_template.BitField.{BitField, check_bit_field}
use socket_template.BitMemory.{BitMemory, Outside, FileWrite, Answer, write}
use socket_template.Swarm.DownSpeed.{add_total, check_socket}
use socket_template.Swarm.NeedPiece.{set_index_w, un_lock_index}
use socket_template.Swarm.PeerManager.{Swarm, update_expire, clear_piece_status, close_socket}
use socket_template.Client.{Client, Result, Message, handle, complete}
use socket_template.Client.Serve.{Reads, d_request}

pub record World : Type 0 where
  pub info : Info
  pub outside : Outside
  pub reads : Reads
  pub reaches : ℤ → Bool
  pub room : ℕ
  pub game_end : BitField → Bool
  pub clock : ℕ → ℕ

-- The client with the pieces in the making, and what it has sent and written.
pub record Node : Type 0 where
  pub client : Client
  pub memory : BitMemory
  pub sent : List (ℤ × List ℕ)
  pub written : List FileWrite

pub lift : Node → Option Result → Option Node
lift n none = none
lift n (some (sent, c)) = some (record n { client = c; sent = n.sent ++ sent })

-- A method of PeerManager or of NeedPiece alone
abbrev pub with_swarm : (Swarm → Swarm) → Node → Node
with_swarm f n = record n { client = record n.client { swarm = f n.client.swarm } }

-- A handler that changes the state of the peers
pub told : World → ℕ → ℤ → Message → Node → Option Node
unfolding lift handle
told w now socket m n = lift n (handle now (w.game_end n.client.bit_field) socket m n.client)

-- DRequest with a buffer too short for its three fields: what it reads before the end of the buffer lets it return.
pub short_request : ℕ → ℤ → List ℕ → Client → Option Result
short_request now socket buf c =
    let s = update_expire now socket c.swarm in
    let (among, speeds) = check_socket socket s.speeds in
    let c' : Client = record c { swarm = record s { speeds = speeds } } in
    if among
    then elim (have_index buf) [
      | none ↦ none
      | some index ↦ elim (check_bit_field c.bit_field (to_i32 index)) [
        | none ↦ none
        | some found ↦ if found then none else some ([], c')
      ]
    ]
    else some ([], c')

-- DCancle and DPort only look at who sent the message.
pub d_cancle : ℕ → ℤ → Node → Node
d_cancle now socket n = with_swarm (update_expire now socket) n

pub d_port : ℕ → ℤ → Node → Node
d_port now socket n = with_swarm (update_expire now socket) n

-- The handlers of the ids 4, 5, 6, 8 and 9, each with its buffer: DHave, DBitField, DRequest, DCancle and DPort.
pub run_task : World → ℕ → ℤ → ℕ → List ℕ → Node → Option Node
unfolding told short_request lift d_cancle d_port
run_task w now socket id buf n =
    if id == 4
    then elim (have_index buf) [
      | none ↦ none
      | some index ↦ told w now socket (Message.have (to_i32 index)) n
    ]
    else if id == 5
    then told w now socket (Message.bit_field buf) n
    else if id == 6
    then elim (request_fields buf) [
      | none ↦ lift n (short_request now socket buf n.client)
      | some (index, begin, len) ↦
          lift n (
            d_request w.info w.reads now socket (to_i32 index) (to_i32 begin) (to_i32 len) n.client)
    ]
    else if id == 8
    then some (d_cancle now socket n)
    else some (d_port now socket n)

-- BitMemory::Write, with the call of FillBitField and NeedPiece::ClearIndex for a piece that is complete. Its
-- `T_begin` is divided as a size_t.
pub store_slice : World → ℤ → ℤ → List ℕ → Node → Option (Bool × Node)
unfolding complete lift
store_slice w index begin bytes n =
    elim (write w.info w.outside index (to_u64 begin) (some (λ k. get_or bytes k 0))
      (pos (length bytes)) n.memory) [
        | none ↦ none
        | some (writes, a) ↦
            let n' : Node = record n { memory = a.memory; written = n.written ++ writes } in
            if a.filled
            then elim (lift n' (complete w.reaches index n'.client)) [
              | none ↦ none
              | some n'' ↦ some (a.ok, n'')
            ]
            else some (a.ok, n')
      ]

pub add_speed : ℤ → ℕ → Swarm → Swarm
add_speed socket len s = record s { speeds = add_total socket len s.speeds }

-- What one round of the loop of _LockPiece does: `ended` is a break before anything is handled, `stored` counts a slice,
-- and `spoiled` is the break when Write fails.
pub data Turn : Type 0 where
  ended : Turn
  passed : List ℕ → Node → Turn
  stored : List ℕ → Node → Turn
  spoiled : Node → Turn

pub pass : List ℕ → Option Node → Option Turn
pass rest none = none
pass rest (some n) = some (passed rest n)

-- The branch of id 7. `none` is a read behind the buffer.
pub take_slice : World → ℕ → ℤ → ℤ → List ℕ → List ℕ → Node → Option Turn
unfolding store_slice add_speed
take_slice w now socket index buf rest n = elim (piece_fields buf) [
  | none ↦ none
  | some (index', begin, bytes) ↦
      let n' = with_swarm (update_expire now socket) n in
      if eq_ℤ index (to_i32 index')
      then elim (store_slice w index (to_i32 begin) bytes n') [
        | none ↦ none
        | some (wrote, n'') ↦
            if wrote
            then some (stored rest (with_swarm (add_speed socket (length bytes)) n''))
            else some (spoiled n'')
      ]
      else some (passed rest n')
]

-- One round. An id from 10 on is dropped: no branch is for it.
pub turn : World → ℕ → ℤ → ℤ → List ℕ → Node → Option Turn
unfolding pass told run_task take_slice
turn w now socket index input n = elim (next_frame input) [
  | closed ↦ some ended
  | keep_alive rest ↦ pass rest (told w now socket Message.keep_alive n)
  | choke rest ↦ pass rest (told w now socket Message.choke n)
  | unchoke rest ↦ pass rest (told w now socket Message.unchoke n)
  | interested rest ↦ pass rest (told w now socket Message.interested n)
  | uninterested rest ↦ pass rest (told w now socket Message.uninterested n)
  | ignored rest ↦ some (passed rest n)
  | task id buf rest ↦
      if id == 7
      then take_slice w now socket index buf rest n
      else pass rest (run_task w now socket id buf n)
]

-- _LockPiece, on fuel for the rounds: `left` slices are to come, `ret` is the result so far and `round` counts the messages. A break
-- leaves `ret` as it is.
pub lock_piece : World → ℤ → ℤ → ℕ → ℕ → ℕ → ℤ → List ℕ → Node → Option (ℤ × Node)
unfolding turn
lock_piece w socket index fuel round zero ret input n = some (ret, n)
lock_piece w socket index zero round (suc left) ret input n = some (ret, n)
lock_piece w socket index (suc fuel) round (suc left) ret input n =
    elim (turn w (w.clock round) socket index input n) [
      | none ↦ none
      | some ended ↦ some (ret, n)
      | some (passed rest n') ↦ lock_piece w socket index fuel (round + 1) (suc left) ret rest n'
      | some (stored rest n') ↦ lock_piece w socket index fuel (round + 1) left (pos 1) rest n'
      | some (spoiled n') ↦ some (negsuc 0, n')
    ]

-- What DPiece does when it gives a piece up: UnLockIndex, and the second time CloseSocket.
pub give_up : ℤ → ℤ → Swarm → Swarm
give_up socket index s = close_socket socket (record s { needs = un_lock_index index s.needs })

-- The requests for the slices from the second on. A send that fails ends them.
pub ask_rest : World → ℤ → ℤ → Node → Node
ask_rest w socket index n =
    let asked : List (ℕ × ℤ) = elim (get_piece_bit w.info index) [
      | negsuc k ↦ []
      | pos size ↦ slice_requests w.info index (size - 1) 1 size
    ] in
    record n {
      sent = n.sent ++ map (λ x. (socket, request index (pos (x.0)) (x.1))) (take (w.room) asked);
    }

pub rounds_left : World → ℤ → ℕ
rounds_left w index = elim (get_piece_bit w.info index) [ negsuc k ↦ 0 | pos size ↦ size - 1 ]

-- DPiece behind the first slice: the requests, _LockPiece on what the peer sends, and what follows it
pub finish_piece : World → ℤ → ℤ → List ℕ → Node → Option Node
unfolding give_up ask_rest rounds_left lock_piece
finish_piece w socket index input n = elim (find_key socket n.client.swarm.peer_list) [
  | none ↦ some (with_swarm (give_up socket index) n)
  | some peer ↦
      elim (lock_piece w socket index (suc (length input)) 1 (rounds_left w index) (pos 0) input
        (ask_rest w socket index n)) [
          | none ↦ none
          | some (pos (suc code), n') ↦ elim (check_bit_field n'.client.bit_field index) [
            | none ↦ none
            | some found ↦
                if found
                then some (with_swarm (clear_piece_status socket) n')
                else some (with_swarm (give_up socket index) n')
          ]
          | some (pos zero, n') ↦ some (with_swarm (give_up socket index) n')
          | some (negsuc code, n') ↦ some (with_swarm (give_up socket index) n')
        ]
]

-- What DPiece does when the first slice cannot be written
pub drop_slice : ℤ → ℤ → Swarm → Swarm
drop_slice socket index s =
    let s' = clear_piece_status socket s in record s' { needs = un_lock_index index s'.needs }

-- DPiece from the Write of its slice on
pub first_slice : World → ℤ → ℤ → ℤ → List ℕ → List ℕ → Node → Option Node
unfolding store_slice drop_slice add_speed finish_piece
first_slice w socket index begin bytes input n = elim (store_slice w index begin bytes n) [
  | none ↦ none
  | some (wrote, n') ↦
      if wrote
      then finish_piece w socket index input (with_swarm (add_speed socket (length bytes)) n')
      else some (with_swarm (drop_slice socket index) n')
]

-- DPiece, with the buffer of the message and what the peer sends behind it
pub d_piece : World → ℤ → List ℕ → List ℕ → Node → Option Node
unfolding first_slice
d_piece w socket buf input n = elim (piece_fields buf) [
  | none ↦ none
  | some (index', begin', bytes) ↦
      let index = to_i32 index' in
      let begin = to_i32 begin' in
      let n1 = with_swarm (update_expire (w.clock 0) socket) n in
      let (locked, needs) = set_index_w index n1.client.swarm.needs in
      if accepts_slice w.info index begin (length bytes)
      then if locked
        then first_slice w socket index begin bytes input
            (with_swarm (λ s. record s { needs = needs }) n1)
        else some (with_swarm (clear_piece_status socket) n1)
      else some n1
]
