-- ===== src/Swarm/PeerManager/Reach.antt =====
-- What the methods of PeerManager, and those of NeedPiece on its pieces, lead to from the empty tables (BitTorrent/CszPeerManager.cpp,
-- BitTorrent/CszNeedPiece.cpp).
mod Examples
use socket_template.Base.{
  ℕ, zero, ◌<◌, ◌^◌, ◌≤◌, ◌≡◌, refl, Bool, Option, none, some, ℤ, pos, negsuc, arith, List, [],
  unlocked, find_key, DistinctKeys,
}
use socket_template.Swarm.DownSpeed.Table.{table}
use socket_template.Swarm.DownSpeed.{DownSpeed}
use socket_template.Swarm.DownSpeed as Speeds
use socket_template.Swarm.PeerManager.Speeds.{add_total-IsValid}
use socket_template.Swarm.NeedPiece.{NeedPiece}
use socket_template.Swarm.NeedPiece as Needs
use socket_template.Swarm.NeedPiece.Status.{
  SameIds, push_needs-SameIds, clear_index-SameIds, un_lock_index-SameIds, set_index_w-SameIds,
}
use socket_template.Swarm.PeerManager.{Peer, Swarm}
use socket_template.Swarm.PeerManager as Manager
use socket_template.Swarm.PeerManager.Agreement.{
  IsValid, SameTables, SameTables-IsValid, Keeps-refl,
}
use socket_template.Swarm.PeerManager.Steps.{
  am_choke-IsValid, am_un_choke-IsValid, am_interested-IsValid, am_un_interested-IsValid,
  pr_choke-IsValid, pr_interested-IsValid, pr_un_interested-IsValid,
}
use socket_template.Swarm.PeerManager.Asking.{
  send_req-IsValid, req_piece-IsValid, recv_piece-IsValid, clear_piece_status-IsValid,
  update_expire-IsValid,
}
use socket_template.Swarm.PeerManager.UnChoke.{pr_un_choke-IsValid}
use socket_template.Swarm.PeerManager.Sockets.{add_socket-IsValid}
use socket_template.Swarm.PeerManager.Closing.{close_socket-IsValid}

abbrev pub swarm_new : Swarm
swarm_new = record {
  peer_list = [];
  cur_id = 0;
  socket_num = 0;
  speeds = record { queue = []; lock = unlocked };
  needs = record { index_queue = []; id_queue = []; id_lock = unlocked };
}

-- The methods called one after another. A socket is added when it is not in the table and the ids are not used up; AddTotal is for a
-- socket in the table.
pub data Reachable : Swarm → Type 0 where
  start : Reachable swarm_new
  add_socket :
      (i : ℤ) (s : Swarm)
      → find_key i s.peer_list ≡ none
      → s.cur_id < 2 ^ 31
      → Reachable s
      → Reachable (Manager.add_socket i s)
  add_total :
      (i : ℤ) (n : ℕ) (p : Peer) (s : Swarm)
      → find_key i s.peer_list ≡ some p
      → Reachable s
      → Reachable (record s { speeds = (Speeds.add_total i n s.speeds) })
  am_choke : (i : ℤ) (s : Swarm) → Reachable s → Reachable (Manager.am_choke i s).1
  am_un_choke : (i : ℤ) (s : Swarm) → Reachable s → Reachable (Manager.am_un_choke i s).1
  am_interested : (i : ℤ) (s : Swarm) → Reachable s → Reachable (Manager.am_interested i s).1
  am_un_interested : (i : ℤ) (s : Swarm) → Reachable s → Reachable (Manager.am_un_interested i s).1
  pr_choke : (i : ℤ) (s : Swarm) → Reachable s → Reachable (Manager.pr_choke i s)
  pr_interested : (i : ℤ) (s : Swarm) → Reachable s → Reachable (Manager.pr_interested i s)
  pr_un_interested : (i : ℤ) (s : Swarm) → Reachable s → Reachable (Manager.pr_un_interested i s)
  pr_un_choke :
      (now : ℕ) (game_end : Bool) (i : ℤ) (s : Swarm)
      → Reachable s
      → Reachable (Manager.pr_un_choke now game_end i s).1
  send_req :
      (now : ℕ) (game_end : Bool) (s : Swarm)
      → Reachable s
      → Reachable (Manager.send_req now game_end s).1
  req_piece : (now : ℕ) (i : ℤ) (s : Swarm) → Reachable s → Reachable (Manager.req_piece now i s).1
  recv_piece : (i : ℤ) (s : Swarm) → Reachable s → Reachable (Manager.recv_piece i s).1
  clear_piece_status :
      (i : ℤ) (s : Swarm) → Reachable s → Reachable (Manager.clear_piece_status i s)
  update_expire :
      (now : ℕ) (i : ℤ) (s : Swarm) → Reachable s → Reachable (Manager.update_expire now i s)
  close_socket : (i : ℤ) (s : Swarm) → Reachable s → Reachable (Manager.close_socket i s)
  push_needs :
      (indexs : Option (List ℤ)) (socket id : ℤ) (s : Swarm)
      → Reachable s
      → Reachable (record s { needs = (Needs.push_needs indexs socket id s.needs) })
  clear_index :
      (index : ℤ) (s : Swarm)
      → Reachable s
      → Reachable (record s { needs = (Needs.clear_index index s.needs) })
  un_lock_index :
      (index : ℤ) (s : Swarm)
      → Reachable s
      → Reachable (record s { needs = (Needs.un_lock_index index s.needs) })
  set_index_w :
      (index : ℤ) (s : Swarm)
      → Reachable s
      → Reachable (record s { needs = (Needs.set_index_w index s.needs).1 })

swarm_new-IsValid : IsValid swarm_new
unfolding DistinctKeys find_key table
swarm_new-IsValid = record {
  ids_free = refl;
  speeds_free = refl;
  distinct = tt;
  distinct_speeds = tt;
  distinct_ids = tt;
  injective = λ i j p q ei ej same. let no : none ≡ some p = ei in ground arith;
  fresh = λ k le. refl;
  below = λ i p e. let no : none ≡ some p = e in ground arith;
  absent = λ i e. refl;
  agree = λ i p e. let no : none ≡ some p = e in ground arith;
}

pub needs-IsValid :
    (s : Swarm) (n : NeedPiece) → SameIds s.needs n → IsValid s → IsValid (record s { needs = n })
needs-IsValid s n same =
    SameTables-IsValid s (record s { needs = n })
      (record {
        peers = Keeps-refl s.peer_list;
        cur_id = refl;
        speeds = refl;
        id_queue = same.0;
        id_lock = same.1;
      })

-- Take any sequence of these calls from the empty tables: AddSocket of a socket that is not in the table, while fewer than 2 ^ 31 were added,
-- CloseSocket, the eight changes of a status, ReqPiece, RecvPiece, ClearPieceStatus and UpdateExpire of any socket, SendReq, AddTotal of a socket in the table,
-- and PushNeed, ClearIndex, UnLockIndex and SetIndexW. Then a socket and an id belong to one peer, no lock of NeedPiece's ids and of DownSpeed is held, and
-- NeedPiece (by the id) and DownSpeed (by the socket) have of each peer the four bits that PeerManager has.
pub Reachable-IsValid : (s : Swarm) → Reachable s → IsValid s
Reachable-IsValid s start = swarm_new-IsValid
Reachable-IsValid s (add_socket i t new small r) =
    add_socket-IsValid i t new small (Reachable-IsValid t r)
Reachable-IsValid s (add_total i n p t at r) = add_total-IsValid i n p t at (Reachable-IsValid t r)
Reachable-IsValid s (am_choke i t r) = am_choke-IsValid i t (Reachable-IsValid t r)
Reachable-IsValid s (am_un_choke i t r) = am_un_choke-IsValid i t (Reachable-IsValid t r)
Reachable-IsValid s (am_interested i t r) = am_interested-IsValid i t (Reachable-IsValid t r)
Reachable-IsValid s (am_un_interested i t r) = am_un_interested-IsValid i t (Reachable-IsValid t r)
Reachable-IsValid s (pr_choke i t r) = pr_choke-IsValid i t (Reachable-IsValid t r)
Reachable-IsValid s (pr_interested i t r) = pr_interested-IsValid i t (Reachable-IsValid t r)
Reachable-IsValid s (pr_un_interested i t r) = pr_un_interested-IsValid i t (Reachable-IsValid t r)
Reachable-IsValid s (pr_un_choke now game_end i t r) =
    pr_un_choke-IsValid now game_end i t (Reachable-IsValid t r)
Reachable-IsValid s (send_req now game_end t r) =
    send_req-IsValid now game_end t (Reachable-IsValid t r)
Reachable-IsValid s (req_piece now i t r) = req_piece-IsValid now i t (Reachable-IsValid t r)
Reachable-IsValid s (recv_piece i t r) = recv_piece-IsValid i t (Reachable-IsValid t r)
Reachable-IsValid s (clear_piece_status i t r) =
    clear_piece_status-IsValid i t (Reachable-IsValid t r)
Reachable-IsValid s (update_expire now i t r) =
    update_expire-IsValid now i t (Reachable-IsValid t r)
Reachable-IsValid s (close_socket i t r) = close_socket-IsValid i t (Reachable-IsValid t r)
Reachable-IsValid s (push_needs indexs socket id t r) =
    needs-IsValid t (Needs.push_needs indexs socket id t.needs)
      (push_needs-SameIds indexs socket id t.needs) (Reachable-IsValid t r)
Reachable-IsValid s (clear_index index t r) =
    needs-IsValid t (Needs.clear_index index t.needs) (clear_index-SameIds index t.needs)
      (Reachable-IsValid t r)
Reachable-IsValid s (un_lock_index index t r) =
    needs-IsValid t (Needs.un_lock_index index t.needs) (un_lock_index-SameIds index t.needs)
      (Reachable-IsValid t r)
Reachable-IsValid s (set_index_w index t r) =
    needs-IsValid t (Needs.set_index_w index t.needs).1 (set_index_w-SameIds index t.needs)
      (Reachable-IsValid t r)
