-- ===== src/Client/Serve.antt =====
-- DRequest and _SendPiece of BitTorrent/CszSelectSwitch.cpp: a slice that a peer asks for. Files are read by a parameter: `reads name place len`
-- is what a read of `len` bytes returns, and `none` a file that does not open. Above it `none` is a write out of bounds, or the exception for a negative length.
pub mod Single
pub mod State
mod Examples
use socket_template.Base.{
  ℕ, zero, suc, ◌+◌, ◌*◌, Bool, true, false, Option, none, some, List, [], ◌∷◌, ◌++◌, length, drop,
  replicate, ltb, if◌then◌else◌, ℤ, pos, negsuc, eq_ℤ, find_key,
}
use socket_template.Wire.{piece, piece_new}
use socket_template.Torrent.{Info}
use socket_template.Torrent.FileNames.{FileInfo, get_file_name}
use socket_template.BitField.{check_bit_field}
use socket_template.Swarm.DownSpeed.{check_socket}
use socket_template.Swarm.PeerManager.{Swarm, update_expire}
use socket_template.Client.{Client, Result}

abbrev pub Reads : Type 0
Reads = List ℕ → ℤ → ℤ → Option (List ℕ)

-- The loop over the files. `cur_read` stays 0, so each file is read to the beginning of `piece_data`. A file that does not open ends the
-- loop, a short read ends _SendPiece: the inner `none`.
pub read_files : Reads → List FileInfo → List ℕ → Option (Option (List ℕ))
read_files reads [] piece_data = some (some piece_data)
read_files reads ((name, place, len) ∷ files) piece_data = elim (reads name place len) [
  | none ↦ some (some piece_data)
  | some bytes ↦
      let rest = read_files reads files (bytes ++ drop (length bytes) piece_data) in
      if ltb (length piece_data) (length bytes)
      then none
      else if eq_ℤ len (pos (length bytes))
      then rest
      else some none
]

pub send_piece : Info → Reads → ℤ → ℤ → ℤ → ℤ → Swarm → Option (List (ℤ × List ℕ))
unfolding read_files find_key
send_piece t reads socket index begin len s = elim (get_file_name t index begin len) [
  | [] ↦ some []
  | file ∷ files ↦ elim len [
    | negsuc n ↦ none
    | pos n ↦ elim (read_files reads (file ∷ files) (replicate n 0)) [
      | none ↦ none
      | some none ↦ some []
      | some (some piece_data) ↦ elim (find_key socket s.peer_list) [
        | none ↦ some []
        | some peer ↦ some ((socket, piece piece_new index begin piece_data) ∷ [])
      ]
    ]
  ]
]

-- DRequest, with the fields of the message as it reads them
pub d_request : Info → Reads → ℕ → ℤ → ℤ → ℤ → ℤ → Client → Option Result
unfolding send_piece
d_request t reads now socket index begin len c =
    let s = update_expire now socket c.swarm in
    let (among, speeds) = check_socket socket s.speeds in
    let c' : Client = record c { swarm = record s { speeds = speeds } } in
    if among
    then elim (check_bit_field c.bit_field index) [
      | none ↦ none
      | some found ↦
          if found
          then elim (send_piece t reads socket index begin len (record s { speeds = speeds })) [
            | none ↦ none
            | some sent ↦ some (sent, c')
          ]
          else some ([], c')
    ]
    else some ([], c')
