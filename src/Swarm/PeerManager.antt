-- ===== src/Swarm/PeerManager.antt =====
-- PeerManager of BitTorrent/CszPeerManager.cpp and BitTorrent/CszBitTorrent.h: the table of the peers, and its calls of
-- DownSpeed and NeedPiece. Every path of a method gives the lock of the table back, and the
-- mutex of a socket is taken for a send only, so both are left out. What is sent is part of the result;
-- whether a send succeeds makes no difference to these methods.
pub mod Requests
pub mod Agreement
pub mod Changed
pub mod Steps
pub mod Interest
pub mod Asking
pub mod UnChoke
pub mod Sockets
pub mod Closing
pub mod Kept
pub mod Speeds
pub mod Reach
mod Examples
use socket_template.Base.{
  find_key, update_key, erase_key, emplace_key, ℕ, zero, suc, ◌+◌, ◌-◌, ◌%◌, ◌^◌, Bool, true, false,
  Option, none, some, List, [], ◌∷◌, map, leb, not, if◌then◌else◌, ℤ, pos, negsuc, eq_ℤ, to_i32,
}
use socket_template.Wire.{request}
use socket_template.Torrent.{slice_size}
use socket_template.Wire as Wire
use socket_template.Swarm.{PeerStatus, peer_status_new}
use socket_template.Swarm.DownSpeed.{DownSpeed}
use socket_template.Swarm.DownSpeed as DownSpeed
use socket_template.Swarm.NeedPiece.{NeedPiece, pop_need, socket_map_id}
use socket_template.Swarm.NeedPiece as NeedPiece

-- PeerManager::DataType
pub record Peer : Type 0 where
  pub status : PeerStatus
  pub id : ℤ
  pub expire : ℕ

-- The fields of PeerManager, with the two objects that it calls.
pub record Swarm : Type 0 where
  pub peer_list : List (ℤ × Peer)
  -- An int32_t, by its bits
  pub cur_id : ℕ
  pub socket_num : ℕ
  pub speeds : DownSpeed
  pub needs : NeedPiece

-- AddSocket. A socket that is there is only reported.
unfoldable pub add_socket : ℤ → Swarm → Swarm
unfolding emplace_key peer_status_new
add_socket (negsuc socket) s = s
add_socket (pos socket) s =
    let peer : Peer = record { status = peer_status_new; id = to_i32 s.cur_id; expire = 0 } in
    record {
      peer_list = emplace_key (pos socket) peer s.peer_list;
      cur_id = (s.cur_id + 1) % 2 ^ 32;
      socket_num = (s.socket_num + 1) % 2 ^ 32;
      speeds = DownSpeed.add_socket (pos socket) s.speeds;
      needs = socket_map_id (to_i32 s.cur_id) s.needs;
    }

unfoldable pub close_socket : ℤ → Swarm → Swarm
unfolding find_key erase_key
close_socket socket s = elim (find_key socket s.peer_list) [
  | none ↦ s
  | some peer ↦ record s {
    peer_list = erase_key socket s.peer_list;
    socket_num = (s.socket_num + 2 ^ 32 - 1) % 2 ^ 32;
    speeds = DownSpeed.clear_socket socket s.speeds;
    needs = NeedPiece.clear_socket peer.id s.needs;
  }
]

pub get_socket_id : ℤ → Swarm → ℤ
unfolding find_key
get_socket_id socket s = elim (find_key socket s.peer_list) [
  | none ↦ negsuc 0
  | some peer ↦ peer.id
]

-- ReqPiece: may a piece be asked for from this peer at this time? PEERPIECETIME is in BitTorrent/CszMicro.hpp.
pub ask : ℕ → Peer → Peer
ask now p = record p { status = record p.status { request_piece = true }; expire = now % 2 ^ 32 }

pub renew : ℕ → Peer → Peer
renew now p = record p { expire = now % 2 ^ 32 }

abbrev pub peer_piece_time : ℕ
peer_piece_time = 30

pub req_piece : ℕ → ℤ → Swarm → Bool × Swarm
unfolding find_key update_key ask renew
req_piece now (negsuc socket) s = (false, s)
req_piece now (pos socket) s = elim (find_key (pos socket) s.peer_list) [
  | none ↦ (false, s)
  | some p ↦
      if p.status.request_piece
      then if not p.status.recv_piece
        then if leb peer_piece_time (now - p.expire)
          then (true, record s { peer_list = update_key (pos socket) (renew now) s.peer_list })
          else (false, s)
        else (false, s)
      else (true, record s { peer_list = update_key (pos socket) (ask now) s.peer_list })
]

abbrev pub receive : Peer → Peer
receive p = record p { status = record p.status { recv_piece = true } }

pub recv_piece : ℤ → Swarm → Bool × Swarm
unfolding find_key update_key
recv_piece (negsuc socket) s = (false, s)
recv_piece (pos socket) s = elim (find_key (pos socket) s.peer_list) [
  | none ↦ (false, s)
  | some p ↦
      if not p.status.recv_piece
      then (true, record s { peer_list = update_key (pos socket) receive s.peer_list })
      else (false, s)
]

abbrev pub forget : Peer → Peer
forget p = record p {
  status = record p.status { request_piece = false; recv_piece = false };
  expire = 0;
}

pub clear_piece_status : ℤ → Swarm → Swarm
unfolding update_key
clear_piece_status (negsuc socket) s = s
clear_piece_status (pos socket) s = record s {
  peer_list = update_key (pos socket) forget s.peer_list;
}

unfoldable pub update_expire : ℕ → ℤ → Swarm → Swarm
unfolding update_key renew
update_expire now (negsuc socket) s = s
update_expire now (pos socket) s = record s {
  peer_list = update_key (pos socket) (renew now) s.peer_list;
}

abbrev pub set_in_peer : (PeerStatus → PeerStatus) → Peer → Peer
set_in_peer f p = record p { status = f p.status }

-- A change of status in the table, in NeedPiece under the id of the peer and in DownSpeed under its socket.
pub change_status :
    (PeerStatus → PeerStatus)
    → (ℤ → NeedPiece → NeedPiece)
    → (ℤ → DownSpeed → DownSpeed)
    → ℤ
    → Peer
    → Swarm
    → Swarm
unfolding update_key
change_status f in_needs in_speeds socket peer s = record s {
  peer_list = update_key socket (set_in_peer f) s.peer_list;
  needs = in_needs peer.id s.needs;
  speeds = in_speeds socket s.speeds;
}

-- The Am methods do nothing when the bit is as asked for already; otherwise they send a message too.
pub am_status :
    (PeerStatus → Bool)
    → (PeerStatus → PeerStatus)
    → (ℤ → NeedPiece → NeedPiece)
    → (ℤ → DownSpeed → DownSpeed)
    → List ℕ
    → ℤ
    → Swarm
    → List (ℤ × List ℕ) × Swarm
unfolding find_key change_status
am_status already f in_needs in_speeds message socket s = elim (find_key socket s.peer_list) [
  | none ↦ ([], s)
  | some peer ↦
      if already peer.status
      then ([], s)
      else ((socket, message) ∷ [], change_status f in_needs in_speeds socket peer s)
]

pub am_choke : ℤ → Swarm → List (ℤ × List ℕ) × Swarm
unfolding am_status
am_choke socket s =
    am_status (λ t. t.am_choke) (λ t. record t { am_choke = true }) NeedPiece.am_choke
      DownSpeed.am_choke Wire.choke socket s

pub am_un_choke : ℤ → Swarm → List (ℤ × List ℕ) × Swarm
unfolding am_status
am_un_choke socket s =
    am_status (λ t. not t.am_choke) (λ t. record t { am_choke = false }) NeedPiece.am_un_choke
      DownSpeed.am_un_choke Wire.unchoke socket s

pub am_interested : ℤ → Swarm → List (ℤ × List ℕ) × Swarm
unfolding am_status
am_interested socket s =
    am_status (λ t. t.am_interested) (λ t. record t { am_interested = true })
      NeedPiece.am_interested DownSpeed.am_interested Wire.interested socket s

pub am_un_interested : ℤ → Swarm → List (ℤ × List ℕ) × Swarm
unfolding am_status
am_un_interested socket s =
    am_status (λ t. not t.am_interested) (λ t. record t { am_interested = false })
      NeedPiece.am_un_interested DownSpeed.am_un_interested Wire.uninterested socket s

pub pr_status :
    (PeerStatus → PeerStatus)
    → (ℤ → NeedPiece → NeedPiece)
    → (ℤ → DownSpeed → DownSpeed)
    → ℤ
    → Swarm
    → Swarm
unfolding find_key change_status
pr_status f in_needs in_speeds socket s = elim (find_key socket s.peer_list) [
  | none ↦ s
  | some peer ↦ change_status f in_needs in_speeds socket peer s
]

pub pr_choke : ℤ → Swarm → Swarm
unfolding pr_status
pr_choke socket s =
    pr_status (λ t. record t { peer_choke = true }) NeedPiece.pr_choke DownSpeed.pr_choke socket s

pub pr_interested : ℤ → Swarm → Swarm
unfolding pr_status
pr_interested socket s =
    pr_status (λ t. record t { peer_interested = true }) NeedPiece.pr_interested
      DownSpeed.pr_interested socket s

pub pr_un_interested : ℤ → Swarm → Swarm
unfolding pr_status
pr_un_interested socket s =
    pr_status (λ t. record t { peer_interested = false }) NeedPiece.pr_un_interested
      DownSpeed.pr_un_interested socket s

-- NeedPiece::SendReq: the first request for a piece, to those of its peers that ReqPiece lets it ask and that are in the
-- table still. SLICESIZE is 16 KiB.
pub send_each : ℕ → ℤ → List ℤ → Swarm → List (ℤ × List ℕ) × Swarm
unfolding req_piece find_key
send_each now index [] s = ([], s)
send_each now index (fd ∷ fds) s =
    let (may, s') = req_piece now fd s in
    let (sent, s'') = send_each now index fds s' in
    if may
    then elim (find_key fd s'.peer_list) [
      | none ↦ (sent, s'')
      | some peer ↦ ((fd, request index (pos 0) (pos slice_size)) ∷ sent, s'')
    ]
    else (sent, s'')

pub send_req : ℕ → Bool → Swarm → List (ℤ × List ℕ) × Swarm
unfolding send_each
send_req now game_end s =
    let ((index, fds), needs') = pop_need now game_end s.needs in
    send_each now index fds (record s { needs = needs' })

-- PrUnChoke, in which NeedPiece::PrUnChoke calls SendReq before DownSpeed is told.
pub pr_un_choke : ℕ → Bool → ℤ → Swarm → List (ℤ × List ℕ) × Swarm
unfolding find_key update_key send_req
pr_un_choke now game_end socket s = elim (find_key socket s.peer_list) [
  | none ↦ ([], s)
  | some peer ↦
      let peers =
        update_key socket (set_in_peer (λ t. record t { peer_choke = false })) s.peer_list in
      let (known, needs') = NeedPiece.pr_un_choke peer.id s.needs in
      let s' = record s { peer_list = peers; needs = needs' } in
      let (sent, s'') = if known then send_req now game_end s' else ([], s') in
      (sent, record s'' { speeds = DownSpeed.pr_un_choke socket s''.speeds })
]

-- SendHave. `reaches` says of a socket whether the send succeeds; the others are closed afterwards.
pub sockets_that : (ℤ → Bool) → List (ℤ × Peer) → List ℤ
sockets_that test [] = []
sockets_that test ((socket, peer) ∷ peers) =
    let rest = sockets_that test peers in if test socket then socket ∷ rest else rest

pub close_all : List ℤ → Swarm → Swarm
unfolding close_socket
close_all [] s = s
close_all (socket ∷ sockets) s = close_all sockets (close_socket socket s)

unfoldable pub send_have : (ℤ → Bool) → ℤ → Swarm → List (ℤ × List ℕ) × Swarm
unfolding sockets_that close_all
send_have reaches (negsuc index) s = ([], s)
send_have reaches (pos index) s = (
  map (λ socket. (socket, Wire.have Wire.have_new (pos index))) (sockets_that reaches s.peer_list),
  close_all (sockets_that (λ socket. not (reaches socket)) s.peer_list) s,
)
