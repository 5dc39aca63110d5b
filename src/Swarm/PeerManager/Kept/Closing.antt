-- ===== src/Swarm/PeerManager/Kept/Closing.antt =====
-- What CloseSocket and SendHave of BitTorrent/CszPeerManager.cpp leave of the queue of pieces and of the other sockets.
use socket_template.Base.{
  ◌≡◌, ◌≢◌, refl, ap, ◌∙◌, Bool, true, false, none, Option-cases, Bool-cases, inl, inr, List, [],
  ◌∷◌, All, ℤ, pos, negsuc, not, find_key, find_key-erase_key_ne, find_key-erase_key, DistinctKeys,
  arith,
}
use socket_template.Swarm.NeedPiece.Entries.{clear_socket-KeepsQueue}
use socket_template.Swarm.PeerManager.{
  Peer, Swarm, close_socket, close_all, sockets_that, send_have,
}
use socket_template.Swarm.PeerManager.Kept.{SameQueue}

pub close_socket-queue : (i : ℤ) (s : Swarm) → SameQueue s (close_socket i s)
unfolding close_socket
close_socket-queue i s = elim (Option-cases (find_key i s.peer_list)) [
  | inl e ↦ rw (close_socket, e)
  | inr (p, e) ↦ rw (close_socket, e) (clear_socket-KeepsQueue p.id s.needs)
]

pub close_socket-gone :
    (i : ℤ) (s : Swarm) → DistinctKeys s.peer_list → find_key i (close_socket i s).peer_list ≡ none
unfolding close_socket
close_socket-gone i s d = elim (Option-cases (find_key i s.peer_list)) [
  | inl e ↦ rw (close_socket, e) e
  | inr (p, e) ↦ rw (close_socket, e) (find_key-erase_key i s.peer_list d)
]

close_socket-other :
    (i j : ℤ) (s : Swarm) → i ≢ j → find_key j (close_socket i s).peer_list ≡ find_key j s.peer_list
unfolding close_socket
close_socket-other i j s ne = elim (Option-cases (find_key i s.peer_list)) [
  | inl e ↦ rw (close_socket, e)
  | inr (p, e) ↦ rw (close_socket, e) (find_key-erase_key_ne i j s.peer_list ne)
]

close_all-queue : (is : List ℤ) (s : Swarm) → SameQueue s (close_all is s)
unfolding close_all
close_all-queue [] s = refl
close_all-queue (i ∷ is) s = close_all-queue is (close_socket i s) ∙ close_socket-queue i s

close_all-other :
    (j : ℤ) (is : List ℤ) (s : Swarm)
    → All (λ i. i ≢ j) is
    → find_key j (close_all is s).peer_list ≡ find_key j s.peer_list
unfolding close_all
close_all-other j [] s h = refl
close_all-other j (i ∷ is) s h =
    close_all-other j is (close_socket i s) h.1 ∙ close_socket-other i j s h.0

unreached :
    (reaches : ℤ → Bool) (j : ℤ) (peers : List (ℤ × Peer))
    → reaches j ≡ true
    → All (λ i. i ≢ j) (sockets_that (λ socket. not (reaches socket)) peers)
unfolding sockets_that
unreached reaches j [] r = tt
unreached reaches j ((i, p) ∷ peers) r = elim (Bool-cases (reaches i)) [
  | inl e ↦ rw e (unreached reaches j peers r)
  | inr e ↦ rw e ((λ same. both e (ap reaches same ∙ r)), unreached reaches j peers r)
]
  where
    both : reaches i ≡ false → reaches i ≡ true → ⊥
    both e r = ground arith

pub send_have-queue :
    (reaches : ℤ → Bool) (index : ℤ) (s : Swarm) → SameQueue s (send_have reaches index s).1
unfolding send_have
send_have-queue reaches (negsuc index) s = refl
send_have-queue reaches (pos index) s =
    close_all-queue (sockets_that (λ socket. not (reaches socket)) s.peer_list) s

-- A socket that a send reaches stays.
pub send_have-reached :
    (reaches : ℤ → Bool) (index j : ℤ) (s : Swarm)
    → reaches j ≡ true
    → find_key j (send_have reaches index s).1.peer_list ≡ find_key j s.peer_list
unfolding send_have
send_have-reached reaches (negsuc index) j s r = refl
send_have-reached reaches (pos index) j s r =
    close_all-other j (sockets_that (λ socket. not (reaches socket)) s.peer_list) s
      (unreached reaches j s.peer_list r)
