-- ===== src/Swarm/PeerManager/Asking.antt =====
-- ReqPiece, RecvPiece, ClearPieceStatus, UpdateExpire, SendReq and PrUnChoke keep the three objects in agreement.
use socket_template.Base.{
  not, leb, ◌-◌, ℕ, ◌≡◌, refl, Bool, Option-cases, Bool-cases, inl, inr, ℤ, pos, negsuc, List, [],
  ◌∷◌, find_key, update_key,
}
use socket_template.Swarm.PeerManager.{Peer, Swarm}
use socket_template.Swarm.NeedPiece.{pop_need}
use socket_template.Swarm.NeedPiece.Status.{pop_need-ids}
use socket_template.Swarm.PeerManager.{
  send_each, send_req, req_piece, recv_piece, clear_piece_status, update_expire, peer_piece_time,
  ask, renew, receive, forget,
}
use socket_template.Swarm.PeerManager.Agreement.{
  flags, IsValid, Keeps, Keeps-refl, SameTables, SameTables-refl, SameTables-trans,
  SameTables-IsValid, update_key-Keeps,
}

-- A change of the table of the peers that the two others do not see.
peers-SameTables :
    (s : Swarm) (l : List (ℤ × Peer))
    → Keeps s.peer_list l
    → SameTables s (record s { peer_list = l })
peers-SameTables s l k = record {
  peers = k;
  cur_id = refl;
  speeds = refl;
  id_queue = refl;
  id_lock = refl;
}

update_peers :
    (f : Peer → Peer)
    → ((p : Peer) → ((f p).id ≡ p.id) × (flags (f p).status ≡ flags p.status))
    → (i : ℤ) (s : Swarm) → IsValid s
    → IsValid (record s { peer_list = update_key i f s.peer_list })
update_peers f keeps i s =
    SameTables-IsValid s (record s { peer_list = update_key i f s.peer_list })
      (peers-SameTables s (update_key i f s.peer_list) (update_key-Keeps f keeps i s.peer_list))

ask_keeps :
    (now : ℕ) (p : Peer) → ((ask now p).id ≡ p.id) × (flags (ask now p).status ≡ flags p.status)
unfolding ask
ask_keeps now p = (refl, refl)

renew_keeps :
    (now : ℕ) (p : Peer) → ((renew now p).id ≡ p.id) × (flags (renew now p).status ≡ flags p.status)
unfolding renew
renew_keeps now p = (refl, refl)

pub clear_piece_status-IsValid : (i : ℤ) (s : Swarm) → IsValid s → IsValid (clear_piece_status i s)
unfolding clear_piece_status
clear_piece_status-IsValid (negsuc i) s v = v
clear_piece_status-IsValid (pos i) s v = update_peers forget (λ p. (refl, refl)) (pos i) s v

pub update_expire-IsValid :
    (now : ℕ) (i : ℤ) (s : Swarm) → IsValid s → IsValid (update_expire now i s)
unfolding update_expire
update_expire-IsValid now (negsuc i) s v = v
update_expire-IsValid now (pos i) s v = update_peers (renew now) (renew_keeps now) (pos i) s v

pub recv_piece-IsValid : (i : ℤ) (s : Swarm) → IsValid s → IsValid (recv_piece i s).1
unfolding recv_piece
recv_piece-IsValid (negsuc i) s v = v
recv_piece-IsValid (pos i) s v = elim (Option-cases (find_key (pos i) s.peer_list)) [
  | inl e ↦ rw (recv_piece, e) v
  | inr (p, e) ↦ elim (Bool-cases (not p.status.recv_piece)) [
    | inl unheard ↦
        rw (recv_piece, e, unheard) (update_peers receive (λ p. (refl, refl)) (pos i) s v)
    | inr heard ↦ rw (recv_piece, e, heard) v
  ]
]

-- What ReqPiece and SendReq change is the table of the peers, in that way.
pub req_piece-SameTables : (now : ℕ) (i : ℤ) (s : Swarm) → SameTables s (req_piece now i s).1
unfolding req_piece
req_piece-SameTables now (negsuc i) s = SameTables-refl s
req_piece-SameTables now (pos i) s = elim (Option-cases (find_key (pos i) s.peer_list)) [
  | inl e ↦ rw (req_piece, e) (SameTables-refl s)
  | inr (p, e) ↦ elim (Bool-cases p.status.request_piece) [
    | inr fresh ↦
        rw (req_piece, e, fresh)
          (peers-SameTables s (update_key (pos i) (ask now) s.peer_list)
            (update_key-Keeps (ask now) (ask_keeps now) (pos i) s.peer_list))
    | inl asked ↦ elim (Bool-cases (not p.status.recv_piece)) [
      | inr heard ↦ rw (req_piece, e, asked, heard) (SameTables-refl s)
      | inl unheard ↦ elim (Bool-cases (leb peer_piece_time (now - p.expire))) [
        | inl late ↦
            rw (req_piece, e, asked, unheard, late)
              (peers-SameTables s (update_key (pos i) (renew now) s.peer_list)
                (update_key-Keeps (renew now) (renew_keeps now) (pos i) s.peer_list))
        | inr soon ↦ rw (req_piece, e, asked, unheard, soon) (SameTables-refl s)
      ]
    ]
  ]
]

pub req_piece-IsValid : (now : ℕ) (i : ℤ) (s : Swarm) → IsValid s → IsValid (req_piece now i s).1
req_piece-IsValid now i s =
    SameTables-IsValid s (req_piece now i s).1 (req_piece-SameTables now i s)

pub send_each_state :
    (now : ℕ) (index fd : ℤ) (fds : List ℤ) (s : Swarm)
    → (send_each now index (fd ∷ fds) s).1 ≡ (send_each now index fds (req_piece now fd s).1).1
unfolding send_each
send_each_state now index fd fds s = elim (Bool-cases (req_piece now fd s).0) [
  | inr silent ↦ rw silent
  | inl may ↦ elim (Option-cases (find_key fd (req_piece now fd s).1.peer_list)) [
    | inl e ↦ rw (may, e)
    | inr (p, e) ↦ rw (may, e)
  ]
]

send_each-SameTables :
    (now : ℕ) (index : ℤ) (fds : List ℤ) (s : Swarm) → SameTables s (send_each now index fds s).1
send_each-SameTables now index [] s = unfold send_each in SameTables-refl s
send_each-SameTables now index (fd ∷ fds) s =
    let s' = (req_piece now fd s).1 in
    rw (send_each_state now index fd fds s) (
      SameTables-trans s s' (send_each now index fds s').1 (req_piece-SameTables now fd s)
        (send_each-SameTables now index fds s'))

pub send_req-SameTables :
    (now : ℕ) (game_end : Bool) (s : Swarm) → SameTables s (send_req now game_end s).1
unfolding send_req
send_req-SameTables now game_end s =
    let popped = pop_need now game_end s.needs in
    let s' : Swarm = record s { needs = popped.1 } in
    SameTables-trans s s' (send_req now game_end s).1
      (record {
        peers = Keeps-refl s.peer_list;
        cur_id = refl;
        speeds = refl;
        id_queue = (pop_need-ids now game_end s.needs).0;
        id_lock = (pop_need-ids now game_end s.needs).1;
      })
      (send_each-SameTables now popped.0.0 popped.0.1 s')

pub send_req-IsValid :
    (now : ℕ) (game_end : Bool) (s : Swarm) → IsValid s → IsValid (send_req now game_end s).1
send_req-IsValid now game_end s =
    SameTables-IsValid s (send_req now game_end s).1 (send_req-SameTables now game_end s)
