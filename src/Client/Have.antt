-- ===== src/Client/Have.antt =====
-- RecvHave of BitTorrent/CszLocalBitField.cpp for a piece that is missing.
use socket_template.Base.{
  ℕ, ◌<◌, ◌+◌, ◌/◌, length, ◌≡◌, ap, ◌∙◌, true, false, some, none, ℤ, pos, find_key,
}
use socket_template.BitField.{check_piece}
use socket_template.BitField.Fill as Field
use socket_template.BitField.Fill.{has_piece, check_piece-has_piece, check_piece_beyond}
use socket_template.Swarm.NeedPiece.{Need, find_need, push_need}
use socket_template.Swarm.NeedPiece.Push.{Has, push_need-Has}
use socket_template.Swarm.PeerManager.{Peer, get_socket_id, am_interested}
use socket_template.Swarm.PeerManager.Agreement.{IsValid}
use socket_template.Swarm.PeerManager.Interest.{get_socket_id-find_key, am_interested-find_key}
use socket_template.Client.{Client, Result, recv_have}

-- A Have for a piece of the torrent that a valid bit field lacks, from a peer of a table in agreement: the peer is of interest
-- afterwards, the piece has an entry among the needed ones, and the socket of the peer with its id is in the queue of
-- that entry.
pub recv_have-missing :
    (socket : ℤ) (n : ℕ) (p : Peer) (c : Client)
    → Field.IsValid c.bit_field
    → n < c.bit_field.total
    → has_piece c.bit_field.prefix_and_bit_field n ≡ false
    → find_key socket c.swarm.peer_list ≡ some p
    → IsValid c.swarm
    → (out : Result) × (recv_have socket (pos n) c ≡ some out)
      × ((q : Peer) × (find_key socket out.1.swarm.peer_list ≡ some q)
          × (q.status.am_interested ≡ true)
          × (q.id ≡ p.id))
      × ((x : Need) × (find_need (pos n) out.1.swarm.needs.index_queue ≡ some x)
          × Has (socket, p.id) x.queue)
unfolding recv_have
recv_have-missing socket n p c w piece absent at v =
    let lacks : check_piece c.bit_field (pos n) ≡ some (false, pos n) =
      (check_piece-has_piece c.bit_field w).0 n piece ∙ ap (λ b. some (b, pos n)) absent in
    let (k, id, lt) = v.below socket p at in
    let known : get_socket_id socket c.swarm ≡ pos k =
      get_socket_id-find_key socket p c.swarm at ∙ id in
    let s = (am_interested socket c.swarm).1 in
    let c' : Client = record c {
      swarm = record s { needs = push_need (pos n) socket (pos k) s.needs };
    } in
    (
      ((am_interested socket c.swarm).0, c'),
      rw (recv_have, lacks, known),
      am_interested-find_key socket p c.swarm at,
      rw id (push_need-Has n socket (pos k) s.needs),
    )

-- RecvHave does not compare the index with the number of pieces: with a valid bit field, an index whose byte is more than one behind
-- the last is read beyond the field.
pub recv_have_beyond :
    (socket : ℤ) (n : ℕ) (c : Client)
    → Field.IsValid c.bit_field
    → length c.bit_field.prefix_and_bit_field < n / 8 + 5
    → recv_have socket (pos n) c ≡ none
unfolding recv_have
recv_have_beyond socket n c w far =
    let out = check_piece_beyond c.bit_field n w far in rw (recv_have, out)
