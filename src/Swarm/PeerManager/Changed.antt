-- ===== src/Swarm/PeerManager/Changed.antt =====
-- A status of BitTorrent/CszPeerManager.cpp that changes in PeerManager, NeedPiece and DownSpeed.
use socket_template.Base.{
  ◌≡◌, ◌≢◌, ◌⊎◌, ap, sym, ◌∙◌, some, inl, inr, ℤ, pos, unlocked, find_key, update_key,
  find_key-update_key, find_key-update_key_ne, find_key-update_key-none, update_key-DistinctKeys,
  arith,
}
use socket_template.Swarm.{PeerStatus}
use socket_template.Swarm.DownSpeed.Table.{table}
use socket_template.Swarm.DownSpeed.Status.{on_status}
use socket_template.Swarm.PeerManager.{Peer, Swarm, set_in_peer}
use socket_template.Swarm.PeerManager.Agreement.{
  flags, IdShows, SocketShows, IsValid, update_back, update_absent,
}

-- A change of status that looks at the four bits only.
abbrev pub RespectsFlags : (PeerStatus → PeerStatus) → Type 0
RespectsFlags f = (a b : PeerStatus) → flags a ≡ flags b → flags (f a) ≡ flags (f b)

-- The status of a peer changed in all three places.
pub record Changed (f : PeerStatus → PeerStatus) (i : ℤ) (p : Peer) (s s' : Swarm) : Type 0 where
  pub peers : s'.peer_list ≡ update_key i (set_in_peer f) s.peer_list
  pub cur_id : s'.cur_id ≡ s.cur_id
  pub ids : s'.needs.id_queue ≡ update_key p.id f s.needs.id_queue
  pub id_lock : s'.needs.id_lock ≡ unlocked
  pub queue : table s'.speeds.queue ≡ update_key i (on_status f) (table s.speeds.queue)
  pub lock : s'.speeds.lock ≡ unlocked

-- Two peers of different sockets have different ids.
ids_differ :
    (s : Swarm)
    → IsValid s
    → (i j : ℤ) (p q : Peer) → find_key i s.peer_list ≡ some p
    → find_key j s.peer_list ≡ some q
    → i ≢ j
    → p.id ≢ q.id
ids_differ s v i j p q ei ej ne same = ne (v.injective i j p q ei ej same)

module _ (f : PeerStatus → PeerStatus) (respects : RespectsFlags f) (s s' : Swarm) (i : ℤ)
    (p : Peer) (at_i : find_key i s.peer_list ≡ some p) (v : IsValid s)
    (c : Changed f i p s s') where
  -- A peer of the new table, and what it was.
  was :
      (j : ℤ) (q : Peer)
      → find_key j s'.peer_list ≡ some q
      → (q' : Peer) × (find_key j s.peer_list ≡ some q')
        × (((i ≡ j) × (q ≡ set_in_peer f q')) ⊎ ((i ≢ j) × (q ≡ q')))
  was j q e = update_back (set_in_peer f) i j s.peer_list q (rw c.peers at e)

  was_id :
      (j : ℤ) (q : Peer)
      → find_key j s'.peer_list ≡ some q
      → (q' : Peer) × (find_key j s.peer_list ≡ some q') × (q.id ≡ q'.id)
  was_id j q e =
      let (q', there, how) = was j q e in
      elim how [
        | inl (ij, at) ↦ (q', there, ap (λ (p : Peer). p.id) at)
        | inr (ne, at) ↦ (q', there, ap (λ (p : Peer). p.id) at)
      ]

  agree_here :
      IdShows (f p.status) (find_key p.id s'.needs.id_queue)
      × SocketShows (f p.status) (find_key i (table s'.speeds.queue))
  agree_here =
      let ((t, et, ft), (u, eu, fu)) = v.agree i p at_i in
      (
        (f t, rw c.ids (find_key-update_key f p.id s.needs.id_queue t et), respects t p.status ft),
        (
          on_status f u,
          rw c.queue (find_key-update_key (on_status f) i (table s.speeds.queue) u eu),
          respects u.status p.status fu,
        ),
      )

  agree_away :
      (j : ℤ) (q : Peer)
      → find_key j s.peer_list ≡ some q
      → i ≢ j
      → IdShows q.status (find_key q.id s'.needs.id_queue)
        × SocketShows q.status (find_key j (table s'.speeds.queue))
  agree_away j q e ne =
      let ((t, et, ft), (u, eu, fu)) = v.agree j q e in
      let ids = ids_differ s v i j p q at_i e ne in
      (
        (t, rw c.ids (find_key-update_key_ne f p.id q.id s.needs.id_queue ids ∙ et), ft),
        (
          u,
          rw c.queue (find_key-update_key_ne (on_status f) i j (table s.speeds.queue) ne ∙ eu),
          fu,
        ),
      )

  agree_now :
      (j : ℤ) (q : Peer)
      → find_key j s'.peer_list ≡ some q
      → IdShows q.status (find_key q.id s'.needs.id_queue)
        × SocketShows q.status (find_key j (table s'.speeds.queue))
  agree_now j q e =
      let (q', there, how) = was j q e in
      elim how [
        | inl (ij, at) ↦
            let same : some p ≡ some q' =
              sym at_i ∙ ap (λ (k : ℤ). find_key k s.peer_list) ij ∙ there in
            let pq : p ≡ q' = ground arith in
            let now : q ≡ set_in_peer f p = at ∙ ap (set_in_peer f) (sym pq) in
            rw (now, sym ij) agree_here
        | inr (ne, at) ↦ rw at (agree_away j q' there ne)
      ]

  pub Changed-IsValid : IsValid s'
  Changed-IsValid = record {
    ids_free = c.id_lock;
    speeds_free = c.lock;
    distinct = rw c.peers (update_key-DistinctKeys (set_in_peer f) i s.peer_list v.distinct);
    distinct_speeds =
        rw c.queue
          (update_key-DistinctKeys (on_status f) i (table s.speeds.queue) v.distinct_speeds);
    distinct_ids = rw c.ids (update_key-DistinctKeys f p.id s.needs.id_queue v.distinct_ids);
    injective = λ j k q r ej ek same.
        let (q', ej', idq) = was_id j q ej in
        let (r', ek', idr) = was_id k r ek in v.injective j k q' r' ej' ek' (sym idq ∙ same ∙ idr);
    fresh = λ k le.
        rw c.ids (
          find_key-update_key-none f p.id (pos k) s.needs.id_queue (v.fresh k (rw c.cur_id at le)));
    below = λ j q e.
        let (q', e', idq) = was_id j q e in
        let (k, at, lt) = v.below j q' e' in (k, idq ∙ at, rw c.cur_id lt);
    absent = λ j e. rw c.queue (
        find_key-update_key-none (on_status f) i j (table s.speeds.queue)
          (v.absent j (update_absent (set_in_peer f) i j s.peer_list (rw c.peers at e))));
    agree = agree_now;
  }
