-- ===== src/Client/Serve/Examples.antt =====
-- Slices that are sent: the theorems at concrete inputs.
use socket_template.Base.{
  ◌≡◌, refl, true, some, none, [], ◌∷◌, replicate, find_key, emplace_key, pos, negsuc, arith,
}
use socket_template.Wire.{piece, piece_new}
use socket_template.Torrent.{Info, get_file_total}
use socket_template.Torrent.Pieces.{HasPieces}
use socket_template.Swarm.{peer_status_new}
use socket_template.Swarm.PeerManager.{Peer, Swarm}
use socket_template.Swarm.PeerManager as Manager
use socket_template.Swarm.PeerManager.Reach.{swarm_new}
use socket_template.Client.Serve.{Reads, send_piece}
use socket_template.Client.Serve.Single.{send_piece-before, send_piece_last}

abbrev one_file : Info
one_file = record {
  files = [];
  pieces = replicate 60 0;
  name = 97 ∷ [];
  length = 10;
  piece_length = 4;
  single = true;
}

one_file-HasPieces : HasPieces one_file 3 2
unfolding get_file_total
one_file-HasPieces = record {
  hashes = refl;
  some_piece = omega arith;
  some_byte = omega arith;
  last_fits = omega arith;
  all = omega arith;
  count_fits = omega arith;
  piece_fits = omega arith;
}

-- A file of equal bytes
abbrev sevens : Reads
sevens name place (pos len) = some (replicate len 7)
sevens name place (negsuc len) = none

abbrev peer : Peer
peer = record { status = peer_status_new; id = pos 0; expire = 0 }

abbrev swarm : Swarm
swarm = Manager.add_socket (pos 9) swarm_new

send_piece-before_example :
    send_piece one_file sevens (pos 9) (pos 1) (pos 1) (pos 2) swarm
    ≡ some ((pos 9, piece piece_new (pos 1) (pos 1) (7 ∷ 7 ∷ [])) ∷ [])
unfolding Manager.add_socket find_key emplace_key
send_piece-before_example =
    send_piece-before one_file sevens 3 2 1 1 2 (pos 9) peer swarm (7 ∷ 7 ∷ []) one_file-HasPieces
      refl (omega arith) (omega arith) refl refl refl

send_piece_last_example : send_piece one_file sevens (pos 9) (pos 2) (pos 1) (pos 1) swarm ≡ none
unfolding get_file_total
send_piece_last_example =
    send_piece_last one_file sevens 3 2 1 1 (pos 9) swarm (7 ∷ 7 ∷ []) one_file-HasPieces refl
      (omega arith) refl refl (omega arith)
