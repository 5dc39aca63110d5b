-- ===== src/Client/Serve/Single.antt =====
-- _SendPiece of BitTorrent/CszSelectSwitch.cpp for a torrent of one file.
use socket_template.Base.{
  ℕ, zero, suc, ◌+◌, ◌-◌, ◌*◌, ◌^◌, ◌≡◌, ◌<◌, refl, true, false, none, some, List, [], ◌∷◌, length,
  drop, replicate, length-replicate, append-nil, ltb, ◌==◌, ℤ, pos, find_key, arith,
}
use socket_template.Wire.{piece, piece_new}
use socket_template.Torrent.{Info, get_file_total}
use socket_template.Torrent.Pieces.{HasPieces}
use socket_template.Torrent.FileNames.Single.{get_file_name-before, get_file_name-last}
use socket_template.Swarm.PeerManager.{Peer, Swarm}
use socket_template.Client.Serve.{Reads, read_files, send_piece}

drop-replicate : (n : ℕ) → drop n (replicate {A = ℕ} n 0) ≡ []
drop-replicate zero = refl
drop-replicate (suc n) = drop-replicate n

read_files-one :
    (reads : Reads) (name : List ℕ) (place : ℤ) (bytes : List ℕ) (n : ℕ)
    → reads name place (pos n) ≡ some bytes
    → length bytes ≡ n
    → read_files reads ((name, place, pos n) ∷ []) (replicate n 0) ≡ some (some bytes)
unfolding read_files
read_files-one reads name place bytes n got size =
    let room : length (replicate {A = ℕ} n 0) ≡ n = length-replicate n 0 in
    let fits : ltb n n ≡ false = ground arith in
    let same : (n == n) ≡ true = ground arith in
    rw (read_files, got, size, room, fits, same, drop-replicate n, append-nil bytes)

-- A slice of a piece before the last, which lies below 2 ^ 31, of a torrent of one file is sent to the peer that asks for it: the message is the Piece with the index and the begin
-- that were asked for and the bytes that the file has from `index * piece_length + begin` on, when the read returns all of them.
pub send_piece-before :
    (t : Info) (reads : Reads) (n last i begin len : ℕ) (socket : ℤ) (p : Peer) (s : Swarm)
    (bytes : List ℕ)
    → HasPieces t n last
    → t.single ≡ true
    → i + 1 < n
    → i * t.piece_length + begin < 2 ^ 31
    → reads t.name (pos (i * t.piece_length + begin)) (pos len) ≡ some bytes
    → length bytes ≡ len
    → find_key socket s.peer_list ≡ some p
    → send_piece t reads socket (pos i) (pos begin) (pos len) s
      ≡ some ((socket, piece piece_new (pos i) (pos begin) bytes) ∷ [])
unfolding send_piece
send_piece-before t reads n last i begin len socket p s bytes v single lt small got size at =
    let files = get_file_name-before t n last i begin len v single lt small in
    let data_read =
      read_files-one reads t.name (pos (i * t.piece_length + begin)) bytes len got size in
    rw (send_piece, files, data_read, at)

-- For the last piece of a torrent of one file of less than 2 ^ 31 bytes GetFileName does not look at the begin and the length: whatever
-- part of it is asked for, the whole piece is read, and when the length asked for is less this is written beyond the end of the buffer.
pub send_piece_last :
    (t : Info) (reads : Reads) (n last begin len : ℕ) (socket : ℤ) (s : Swarm) (bytes : List ℕ)
    → HasPieces t n last
    → t.single ≡ true
    → get_file_total t < 2 ^ 31
    → reads t.name (pos ((n - 1) * t.piece_length)) (pos last) ≡ some bytes
    → length bytes ≡ last
    → len < last
    → send_piece t reads socket (pos (n - 1)) (pos begin) (pos len) s ≡ none
unfolding send_piece read_files
send_piece_last t reads n last begin len socket s bytes v single small got size short =
    let files = get_file_name-last t n last begin len v single small in
    let room : length (replicate {A = ℕ} len 0) ≡ len = length-replicate len 0 in
    let beyond : ltb len last ≡ true = ground arith in
    rw (send_piece, files, read_files, got, size, room, beyond)
