-- ===== src/Client.antt =====
-- The handlers of BitTorrent/CszSelectSwitch.cpp and the methods of BitTorrent/CszLocalBitField.cpp that they call, on the pieces that
-- are here and on the peers.
mod Examples
pub mod Download
pub mod Handlers
pub mod Have
pub mod Serve
pub mod Sound
use socket_template.Base.{
  ℕ, Bool, true, false, Option, none, some, List, [], ◌∷◌, ◌++◌, map, if◌then◌else◌, ℤ, pos, negsuc,
}
use socket_template.BitField.{BitField, check_piece, lack_need_piece, fill_bit_field}
use socket_template.Swarm.NeedPiece.{push_need, push_needs, clear_index}
use socket_template.Swarm.PeerManager.{
  Swarm, get_socket_id, update_expire, am_interested, pr_choke, pr_un_choke, pr_interested,
  pr_un_interested, send_have,
}

pub record Client : Type 0 where
  pub bit_field : BitField
  pub swarm : Swarm

-- The messages that a handler sends, with their sockets, and the state behind it
abbrev pub Result : Type 0
Result = List (ℤ × List ℕ) × Client

-- RecvHave. `none` is a read beyond the bit field.
pub recv_have : ℤ → ℤ → Client → Option Result
recv_have socket index c = elim (check_piece c.bit_field index) [
  | none ↦ none
  | some (found, index') ↦ if found then some ([], c) else elim (get_socket_id socket c.swarm) [
    | negsuc id ↦ some ([], c)
    | pos id ↦
        let (sent, s) = am_interested socket c.swarm in
        some
          (sent, record c { swarm = record s { needs = push_need index' socket (pos id) s.needs } })
  ]
]

-- RecvBitField, with `none` for a null pointer
pub recv_bit_field : ℤ → Option (List ℕ) → Client → Result
recv_bit_field socket none c = ([], c)
recv_bit_field socket (some bits) c = elim (lack_need_piece c.bit_field (some bits)) [
  | [] ↦ ([], c)
  | index ∷ indexs ↦ elim (get_socket_id socket c.swarm) [
    | negsuc id ↦ ([], c)
    | pos id ↦
        let (sent, s) = am_interested socket c.swarm in
        (
          sent,
          record c {
            swarm = record s {
              needs = push_needs (some (map pos (index ∷ indexs))) socket (pos id) s.needs;
            };
          },
        )
  ]
]

-- LocalBitField::FillBitField; `none` is a write beyond the bit field.
pub fill : (ℤ → Bool) → ℤ → Client → Option Result
fill reaches index c = elim (fill_bit_field c.bit_field index) [
  | none ↦ none
  | some field ↦
      let (sent, s) = send_have reaches index c.swarm in
      some (sent, record { bit_field = field; swarm = s })
]

-- What BitMemory::Write does for a piece that is complete: FillBitField and NeedPiece::ClearIndex.
pub complete : (ℤ → Bool) → ℤ → Client → Option Result
unfolding fill
complete reaches index c = elim (fill reaches index c) [
  | none ↦ none
  | some (sent, d) ↦
      some (sent, record d { swarm = record d.swarm { needs = clear_index index d.swarm.needs } })
]

-- The messages whose handlers change the state of the peers
pub data Message : Type 0 where
  keep_alive : Message
  choke : Message
  unchoke : Message
  interested : Message
  uninterested : Message
  have : ℤ → Message
  bit_field : List ℕ → Message

quiet : Client → Swarm → Option Result
quiet c s = some ([], record c { swarm = s })

-- DKeepAlive, DChoke, DUnChoke, DInterested, DUnInterested, DHave and DBitField, at a time and
-- with the answer of GameEnd
pub handle : ℕ → Bool → ℤ → Message → Client → Option Result
unfolding recv_have recv_bit_field quiet
handle now game_end socket keep_alive c = quiet c (update_expire now socket c.swarm)
handle now game_end socket choke c = quiet c (pr_choke socket (update_expire now socket c.swarm))
handle now game_end socket unchoke c =
    let (sent, s) = pr_un_choke now game_end socket (update_expire now socket c.swarm) in
    some (sent, record c { swarm = s })
handle now game_end socket interested c =
    quiet c (pr_interested socket (update_expire now socket c.swarm))
handle now game_end socket uninterested c =
    quiet c (pr_un_interested socket (update_expire now socket c.swarm))
handle now game_end socket (have index) c =
    recv_have socket index (record c { swarm = update_expire now socket c.swarm })
handle now game_end socket (bit_field bits) c =
    some (recv_bit_field socket (some bits) (record c { swarm = update_expire now socket c.swarm }))
