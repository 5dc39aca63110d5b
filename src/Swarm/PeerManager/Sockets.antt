-- ===== src/Swarm/PeerManager/Sockets.antt =====
-- AddSocket of BitTorrent/CszPeerManager.cpp keeps the three objects in agreement.
use socket_template.Base.{
  emplace_key, to_i32, ◌^◌, emplace_key_new, cons-DistinctKeys, find_key-cons, find_key-cons_ne, ℕ,
  ◌+◌, ◌≤◌, ◌<◌, ◌≡◌, ◌≢◌, ◌⊎◌, refl, ap, sym, ◌∙◌, false, none, some, Bool-cases, inl, inr, ℤ, pos,
  negsuc, eq_ℤ, eq_ℤ_eq, ◌∷◌, unlocked, find_key, arith,
}
use socket_template.Swarm.{peer_status_new}
use socket_template.Swarm.DownSpeed.{push_back, Speed, DownSpeed}
use socket_template.Swarm.DownSpeed.Table.{
  find_key-push_back, find_key-push_back_ne, push_back-DistinctKeys, table,
}
use socket_template.Swarm.DownSpeed.Status.{add_socket-free}
use socket_template.Swarm.NeedPiece.{NeedPiece, socket_map_id}
use socket_template.Swarm.PeerManager.{Peer, Swarm}
use socket_template.Swarm.NeedPiece.Status.{socket_map_id-new}
use socket_template.Swarm.PeerManager.{add_socket}
use socket_template.Swarm.PeerManager.Agreement.{IdShows, SocketShows, IsValid}

module _ (k : ℕ) (s : Swarm) (new : find_key (pos k) s.peer_list ≡ none) (v : IsValid s)
    (small : s.cur_id < 2 ^ 31) where
  id_small : to_i32 s.cur_id ≡ pos s.cur_id
  id_small = ground arith

  peer : Peer
  peer = record { status = peer_status_new; id = pos s.cur_id; expire = 0 }

  speed : Speed
  speed = record { status = peer_status_new; socket = pos k; total = 0 }

  new_id : find_key (pos s.cur_id) s.needs.id_queue ≡ none
  new_id = v.fresh s.cur_id (omega arith)

  peers_after : (add_socket (pos k) s).peer_list ≡ (pos k, peer) ∷ s.peer_list
  unfolding add_socket peer
  peers_after =
      ap
        (λ (id : ℤ).
          emplace_key (pos k) (record { status = peer_status_new; id = id; expire = 0 })
            s.peer_list)
        id_small
      ∙ emplace_key_new (pos k) peer s.peer_list new

  needs_after : (add_socket (pos k) s).needs ≡ record s.needs {
    id_queue = (pos s.cur_id, peer_status_new) ∷ s.needs.id_queue;
    id_lock = unlocked;
  }
  unfolding add_socket
  needs_after =
      ap (λ (id : ℤ). socket_map_id id s.needs) id_small
      ∙ socket_map_id-new (pos s.cur_id) s.needs v.ids_free new_id

  speeds_after :
      (add_socket (pos k) s).speeds
      ≡ record { queue = push_back speed s.speeds.queue; lock = unlocked }
  unfolding add_socket speed
  speeds_after = add_socket-free (pos k) s.speeds v.speeds_free

  cur_id_after : (add_socket (pos k) s).cur_id ≡ s.cur_id + 1
  unfolding add_socket
  cur_id_after = omega arith

  -- A peer of the new table is the new one or an old one.
  peer_cases :
      (j : ℤ) (q : Peer)
      → find_key j (add_socket (pos k) s).peer_list ≡ some q
      → ((pos k ≡ j) × (q ≡ peer)) ⊎ ((pos k ≢ j) × (find_key j s.peer_list ≡ some q))
  peer_cases j q e = elim (Bool-cases (eq_ℤ (pos k) j)) [
    | inl same ↦
        let kj = eq_ℤ_eq (pos k) j same in
        let found : find_key (pos k) ((pos k, peer) ∷ s.peer_list) ≡ some q =
          rw (sym kj, peers_after) at e in
        let both : some q ≡ some peer = sym found ∙ find_key-cons (pos k) peer s.peer_list in
        inl (kj, ground arith)
    | inr other ↦
        let ne : pos k ≢ j = λ kj. differ other kj in
        let found : find_key j ((pos k, peer) ∷ s.peer_list) ≡ some q = rw peers_after at e in
        inr (ne, sym (find_key-cons_ne (pos k) j peer s.peer_list ne) ∙ found)
  ]
    where
      differ : eq_ℤ (pos k) j ≡ false → pos k ≢ j
      differ other kj = ground arith

  ids_at :
      (id : ℤ)
      → pos s.cur_id ≢ id
      → find_key id (add_socket (pos k) s).needs.id_queue ≡ find_key id s.needs.id_queue
  ids_at id ne =
      rw needs_after (find_key-cons_ne (pos s.cur_id) id peer_status_new s.needs.id_queue ne)

  speeds_at :
      (j : ℤ)
      → pos k ≢ j
      → find_key j (table (add_socket (pos k) s).speeds.queue) ≡ find_key j (table s.speeds.queue)
  unfolding speed
  speeds_at j ne = rw speeds_after (find_key-push_back_ne speed j s.speeds.queue ne)

  no_speed : find_key (pos k) (table s.speeds.queue) ≡ none
  no_speed = v.absent (pos k) new

  old_id : (j : ℤ) (q : Peer) → find_key j s.peer_list ≡ some q → pos s.cur_id ≢ q.id
  old_id j q e same =
      let (n, at, lt) = v.below j q e in
      let both : pos s.cur_id ≡ pos n = same ∙ at in
      let no : s.cur_id ≡ n = ground arith in omega arith

  peer_id : peer.id ≡ pos s.cur_id
  unfolding peer
  peer_id = refl

  agree_new :
      IdShows peer.status (find_key peer.id (add_socket (pos k) s).needs.id_queue)
      × SocketShows peer.status (find_key (pos k) (table (add_socket (pos k) s).speeds.queue))
  unfolding peer speed
  agree_new = (
    (
      peer_status_new,
      rw needs_after (find_key-cons (pos s.cur_id) peer_status_new s.needs.id_queue),
      refl,
    ),
    (speed, rw speeds_after (find_key-push_back speed s.speeds.queue no_speed), refl),
  )

  agree_cases :
      (j : ℤ) (q : Peer)
      → find_key j (add_socket (pos k) s).peer_list ≡ some q
      → IdShows q.status (find_key q.id (add_socket (pos k) s).needs.id_queue)
        × SocketShows q.status (find_key j (table (add_socket (pos k) s).speeds.queue))
  agree_cases j q e = elim (peer_cases j q e) [
    | inl (kj, at) ↦ rw (at, sym kj) agree_new
    | inr (ne, there) ↦
        let ((t, et, ft), (u, eu, fu)) = v.agree j q there in
        ((t, ids_at q.id (old_id j q there) ∙ et, ft), (u, speeds_at j ne ∙ eu, fu))
  ]

  injective_cases :
      (i j : ℤ) (p q : Peer)
      → find_key i (add_socket (pos k) s).peer_list ≡ some p
      → find_key j (add_socket (pos k) s).peer_list ≡ some q
      → p.id ≡ q.id
      → i ≡ j
  injective_cases i j p q ei ej same = elim (peer_cases i p ei) [
    | inl (ki, at) ↦ elim (peer_cases j q ej) [
      | inl (kj, at') ↦ sym ki ∙ kj
      | inr (ne, there) ↦
          absurd (old_id j q there (sym peer_id ∙ sym (ap (λ (p : Peer). p.id) at) ∙ same))
    ]
    | inr (ne, there) ↦ elim (peer_cases j q ej) [
      | inl (kj, at') ↦
          absurd (old_id i p there (sym peer_id ∙ sym (ap (λ (p : Peer). p.id) at') ∙ sym same))
      | inr (ne', there') ↦ v.injective i j p q there there' same
    ]
  ]

  below_cases :
      (j : ℤ) (q : Peer)
      → find_key j (add_socket (pos k) s).peer_list ≡ some q
      → (n : ℕ) × (q.id ≡ pos n) × (n < (add_socket (pos k) s).cur_id)
  below_cases j q e = elim (peer_cases j q e) [
    | inl (kj, at) ↦ (s.cur_id, ap (λ (p : Peer). p.id) at ∙ peer_id, rw cur_id_after (omega arith))
    | inr (ne, there) ↦
        let (n, at, lt) = v.below j q there in (n, at, rw cur_id_after (omega arith))
  ]

  absent_new :
      (j : ℤ)
      → find_key j (add_socket (pos k) s).peer_list ≡ none
      → find_key j (table (add_socket (pos k) s).speeds.queue) ≡ none
  absent_new j e = elim (Bool-cases (eq_ℤ (pos k) j)) [
    | inl same ↦
        let found : find_key (pos k) ((pos k, peer) ∷ s.peer_list) ≡ none =
          rw (sym (eq_ℤ_eq (pos k) j same), peers_after) at e in
        let no : some peer ≡ none = sym (find_key-cons (pos k) peer s.peer_list) ∙ found in
        ground arith
    | inr other ↦
        let ne : pos k ≢ j = λ kj. differ other kj in
        let found : find_key j ((pos k, peer) ∷ s.peer_list) ≡ none = rw peers_after at e in
        speeds_at j ne ∙ v.absent j (sym (find_key-cons_ne (pos k) j peer s.peer_list ne) ∙ found)
  ]
    where
      differ : eq_ℤ (pos k) j ≡ false → pos k ≢ j
      differ other kj = ground arith

  fresh_new :
      (n : ℕ)
      → (add_socket (pos k) s).cur_id ≤ n
      → find_key (pos n) (add_socket (pos k) s).needs.id_queue ≡ none
  fresh_new n le =
      let le' : s.cur_id + 1 ≤ n = rw cur_id_after at le in
      ids_at (pos n) (λ same. let both : s.cur_id ≡ n = ground arith in omega arith)
      ∙ v.fresh n (omega arith)

  new-IsValid : IsValid (add_socket (pos k) s)
  unfolding speed
  new-IsValid = record {
    ids_free = ap (λ (n : NeedPiece). n.id_lock) needs_after;
    speeds_free = ap (λ (d : DownSpeed). d.lock) speeds_after;
    distinct = rw peers_after (cons-DistinctKeys (pos k) peer s.peer_list new v.distinct);
    distinct_speeds =
        rw speeds_after (push_back-DistinctKeys speed s.speeds.queue no_speed v.distinct_speeds);
    distinct_ids =
        rw needs_after
          (cons-DistinctKeys (pos s.cur_id) peer_status_new s.needs.id_queue new_id v.distinct_ids);
    injective = injective_cases;
    fresh = fresh_new;
    below = below_cases;
    absent = absent_new;
    agree = agree_cases;
  }

-- A new socket. A negative one is ignored.
pub add_socket-IsValid :
    (i : ℤ) (s : Swarm)
    → find_key i s.peer_list ≡ none
    → s.cur_id < 2 ^ 31
    → IsValid s
    → IsValid (add_socket i s)
add_socket-IsValid (negsuc k) s new small v = unfold add_socket in v
add_socket-IsValid (pos k) s new small v = new-IsValid k s new v small
