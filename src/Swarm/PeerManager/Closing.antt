-- ===== src/Swarm/PeerManager/Closing.antt =====
-- CloseSocket of BitTorrent/CszPeerManager.cpp keeps the three objects in agreement.
use socket_template.Base.{
  Bool, not, List, [], ◌∷◌, negsuc, erase_key, find_key-erase_key, find_key-erase_key_ne,
  erase_key-DistinctKeys, ℕ, ◌≤◌, ◌≡◌, ◌≢◌, ap, sym, ◌∙◌, false, none, some, Option-cases,
  Bool-cases, inl, inr, ℤ, pos, eq_ℤ, eq_ℤ_eq, unlocked, find_key, erase_key, arith,
}
use socket_template.Swarm.DownSpeed.{erase_first, DownSpeed}
use socket_template.Swarm.DownSpeed.Table.{table-erase_first, table}
use socket_template.Swarm.DownSpeed.Status.{clear_socket-free as erased}
use socket_template.Swarm.NeedPiece.{can_send, NeedPiece}
use socket_template.Swarm.PeerManager.{Peer, Swarm}
use socket_template.Swarm.NeedPiece.Status.{clear_socket-free, can_send-none}
use socket_template.Swarm.PeerManager.{close_socket, close_all, sockets_that, send_have}
use socket_template.Swarm.PeerManager.Agreement.{IdShows, SocketShows, IsValid}

module _ (i : ℤ) (p : Peer) (s : Swarm) (at : find_key i s.peer_list ≡ some p) (v : IsValid s) where
  closed_peers : (close_socket i s).peer_list ≡ erase_key i s.peer_list
  unfolding close_socket
  closed_peers = rw (close_socket, at)

  closed_cur_id : (close_socket i s).cur_id ≡ s.cur_id
  unfolding close_socket
  closed_cur_id = rw (close_socket, at)

  closed_needs :
      (close_socket i s).needs
      ≡ record s.needs { id_queue = erase_key p.id s.needs.id_queue; id_lock = unlocked }
  unfolding close_socket
  closed_needs = rw (close_socket, at) (clear_socket-free p.id s.needs v.ids_free)

  closed_speeds :
      (close_socket i s).speeds ≡ record { queue = erase_first i s.speeds.queue; lock = unlocked }
  unfolding close_socket
  closed_speeds = rw (close_socket, at) (erased i s.speeds v.speeds_free)

  closed_table : table (close_socket i s).speeds.queue ≡ erase_key i (table s.speeds.queue)
  closed_table = rw closed_speeds (table-erase_first i s.speeds.queue)

  -- A peer that is left is another one, and was there.
  left :
      (j : ℤ) (q : Peer)
      → find_key j (close_socket i s).peer_list ≡ some q
      → (i ≢ j) × (find_key j s.peer_list ≡ some q)
  left j q e =
      let found : find_key j (erase_key i s.peer_list) ≡ some q = rw closed_peers at e in
      let ne : i ≢ j = λ ij. gone (rw (sym ij) at found) in
      (ne, sym (find_key-erase_key_ne i j s.peer_list ne) ∙ found)
    where
      gone : find_key i (erase_key i s.peer_list) ≡ some q → ⊥
      gone found =
          let no : none ≡ some q = sym (find_key-erase_key i s.peer_list v.distinct) ∙ found in
          ground arith

  id_differs : (j : ℤ) (q : Peer) → i ≢ j → find_key j s.peer_list ≡ some q → p.id ≢ q.id
  id_differs j q ne there same = ne (v.injective i j p q at there same)

  closed_id : find_key p.id (erase_key p.id s.needs.id_queue) ≡ none
  closed_id = find_key-erase_key p.id s.needs.id_queue v.distinct_ids

  fresh_left :
      (n : ℕ)
      → (close_socket i s).cur_id ≤ n
      → find_key (pos n) (close_socket i s).needs.id_queue ≡ none
  fresh_left n le =
      let (m, is, lt) = v.below i p at in
      let le' : s.cur_id ≤ n = rw closed_cur_id at le in
      let ne : p.id ≢ pos n = λ same.
        let both : pos m ≡ pos n = sym is ∙ same in let mn : m ≡ n = ground arith in omega arith in
      rw closed_needs (find_key-erase_key_ne p.id (pos n) s.needs.id_queue ne ∙ v.fresh n le')

  absent_left :
      (j : ℤ)
      → find_key j (close_socket i s).peer_list ≡ none
      → find_key j (table (close_socket i s).speeds.queue) ≡ none
  absent_left j e = elim (Bool-cases (eq_ℤ i j)) [
    | inl same ↦
        rw (closed_table, sym (eq_ℤ_eq i j same))
          (find_key-erase_key i (table s.speeds.queue) v.distinct_speeds)
    | inr other ↦
        let ne : i ≢ j = λ ij. differ other ij in
        let found : find_key j (erase_key i s.peer_list) ≡ none = rw closed_peers at e in
        rw closed_table (
          find_key-erase_key_ne i j (table s.speeds.queue) ne
          ∙ v.absent j (sym (find_key-erase_key_ne i j s.peer_list ne) ∙ found))
  ]
    where
      differ : eq_ℤ i j ≡ false → i ≢ j
      differ other ij = ground arith

  agree_left :
      (j : ℤ) (q : Peer)
      → find_key j (close_socket i s).peer_list ≡ some q
      → IdShows q.status (find_key q.id (close_socket i s).needs.id_queue)
        × SocketShows q.status (find_key j (table (close_socket i s).speeds.queue))
  agree_left j q e =
      let (ne, there) = left j q e in
      let ((t, et, ft), (u, eu, fu)) = v.agree j q there in
      (
        (
          t,
          rw closed_needs
              (find_key-erase_key_ne p.id q.id s.needs.id_queue (id_differs j q ne there) ∙ et),
          ft,
        ),
        (u, rw closed_table (find_key-erase_key_ne i j (table s.speeds.queue) ne ∙ eu), fu),
      )

  closed-IsValid : IsValid (close_socket i s)
  closed-IsValid = record {
    ids_free = ap (λ (n : NeedPiece). n.id_lock) closed_needs;
    speeds_free = ap (λ (d : DownSpeed). d.lock) closed_speeds;
    distinct = rw closed_peers (erase_key-DistinctKeys i s.peer_list v.distinct);
    distinct_speeds =
        rw closed_table (erase_key-DistinctKeys i (table s.speeds.queue) v.distinct_speeds);
    distinct_ids = rw closed_needs (erase_key-DistinctKeys p.id s.needs.id_queue v.distinct_ids);
    injective = λ j k q r ej ek. v.injective j k q r (left j q ej).1 (left k r ek).1;
    fresh = fresh_left;
    below = λ j q e. let (n, is, lt) = v.below j q (left j q e).1 in (n, is, rw closed_cur_id lt);
    absent = absent_left;
    agree = agree_left;
  }

pub close_socket-IsValid : (i : ℤ) (s : Swarm) → IsValid s → IsValid (close_socket i s)
close_socket-IsValid i s v = elim (Option-cases (find_key i s.peer_list)) [
  | inl e ↦ unfold close_socket in rw (close_socket, e) v
  | inr (p, e) ↦ closed-IsValid i p s e v
]

-- When a peer of a valid state is closed, NeedPiece sends nothing to its id any more: CanSend of the id is false.
pub close_socket-can_send :
    (i : ℤ) (p : Peer) (s : Swarm)
    → find_key i s.peer_list ≡ some p
    → IsValid s
    → can_send (close_socket i s).needs p.id ≡ false
close_socket-can_send i p s at v =
    can_send-none (close_socket i s).needs p.id
      (rw (closed_needs i p s at v) (closed_id i p s at v))

close_all-IsValid : (sockets : List ℤ) (s : Swarm) → IsValid s → IsValid (close_all sockets s)
unfolding close_all
close_all-IsValid [] s v = v
close_all-IsValid (socket ∷ sockets) s v =
    close_all-IsValid sockets (close_socket socket s) (close_socket-IsValid socket s v)

pub send_have-IsValid :
    (reaches : ℤ → Bool) (index : ℤ) (s : Swarm) → IsValid s → IsValid (send_have reaches index s).1
unfolding send_have
send_have-IsValid reaches (negsuc index) s v = v
send_have-IsValid reaches (pos index) s v =
    close_all-IsValid (sockets_that (λ socket. not (reaches socket)) s.peer_list) s v
