-- ===== src/Swarm/PeerManager/Examples.antt =====
-- PeerManager: runs, and the theorems at concrete inputs.
use socket_template.Base.{ℕ, ◌≡◌, refl, true, false, [], pos, unlocked, arith}
use socket_template.Swarm.PeerManager.{
  Swarm, add_socket, get_socket_id, req_piece, clear_piece_status,
}
use socket_template.Swarm.PeerManager.Requests.{req_piece_once}

-- Two peers.
abbrev swarm : Swarm
swarm = add_socket (pos 21) (
    add_socket (pos 20) (record {
      peer_list = [];
      cur_id = 0;
      socket_num = 0;
      speeds = record { queue = []; lock = unlocked };
      needs = record { index_queue = []; id_queue = []; id_lock = unlocked };
    }))

get_socket_id_run : get_socket_id (pos 21) swarm ≡ pos 1
unfolding get_socket_id add_socket
get_socket_id_run = refl

req_piece_once_example :
    (req_piece 1020 (pos 21) (req_piece 1000 (pos 21) swarm).1
      ≡ (false, (req_piece 1000 (pos 21) swarm).1))
    × ((later : ℕ)
        → (req_piece later
            (pos 21)
            (clear_piece_status (pos 21) (req_piece 1000 (pos 21) swarm).1)).0
          ≡ true)
unfolding req_piece add_socket
req_piece_once_example = req_piece_once 1000 1020 (pos 21) swarm (omega arith) (omega arith) refl
