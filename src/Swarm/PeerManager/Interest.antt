-- ===== src/Swarm/PeerManager/Interest.antt =====
-- GetSocketId and AmInterested of BitTorrent/CszPeerManager.cpp for a peer of the table.
use socket_template.Base.{
  ◌≡◌, refl, ap, ◌∙◌, true, some, Bool-cases, inl, inr, ℤ, find_key, find_key-update_key,
}
use socket_template.Swarm.PeerManager.{
  Peer, Swarm, set_in_peer, get_socket_id, am_interested, am_status, change_status,
}

pub get_socket_id-find_key :
    (i : ℤ) (p : Peer) (s : Swarm) → find_key i s.peer_list ≡ some p → get_socket_id i s ≡ p.id
unfolding get_socket_id
get_socket_id-find_key i p s at = rw (get_socket_id, at)

-- AmInterested leaves the bit set and the id as it was.
pub am_interested-find_key :
    (i : ℤ) (p : Peer) (s : Swarm)
    → find_key i s.peer_list ≡ some p
    → (q : Peer) × (find_key i (am_interested i s).1.peer_list ≡ some q)
      × (q.status.am_interested ≡ true)
      × (q.id ≡ p.id)
unfolding am_interested am_status change_status
am_interested-find_key i p s at = elim (Bool-cases p.status.am_interested) [
  | inl already ↦ (p, ap (λ (t : Swarm). find_key i t.peer_list) (same already) ∙ at, already, refl)
  | inr not_yet ↦ (
    set_in_peer (λ t. record t { am_interested = true }) p,
    rw (am_status, at, not_yet)
        (find_key-update_key (set_in_peer (λ t. record t { am_interested = true })) i s.peer_list p
          at),
    refl,
    refl,
  )
]
  where
    same : p.status.am_interested ≡ true → (am_interested i s).1 ≡ s
    same already = rw (am_status, at, already)
