-- ===== src/Swarm/PeerManager/Requests.antt =====
-- A request that is out: ReqPiece, RecvPiece and ClearPieceStatus.
use socket_template.Base.{
  find_key, update_key, find_key-update_key, ◌&&◌, ℕ, ◌+◌, ◌-◌, ◌%◌, ◌^◌, ◌<◌, ◌≡◌, refl, true,
  false, some, Option-cases, leb, not, Bool-cases, inl, inr, ℤ, pos, negsuc, arith,
}
use socket_template.Swarm.PeerManager.{
  Peer, Swarm, ask, renew, peer_piece_time, req_piece, receive, recv_piece, forget,
  clear_piece_status,
}

-- What the table has for a socket that ReqPiece just answered yes for.
Asked : ℕ → ℤ → Swarm → Type 0
Asked now i s =
    (p : Peer) × (find_key i s.peer_list ≡ some p)
    × (p.status.request_piece ≡ true)
    × (p.expire ≡ now % 2 ^ 32)

req_piece-Asked :
    (now : ℕ) (i : ℤ) (s : Swarm) → (req_piece now i s).0 ≡ true → Asked now i (req_piece now i s).1
unfolding Asked
req_piece-Asked now (negsuc i) s e = absurd (unfold req_piece in ground arith)
req_piece-Asked now (pos i) s e = elim (Option-cases (find_key (pos i) s.peer_list)) [
  | inl none_there ↦
      let refused : req_piece now (pos i) s ≡ (false, s) =
        unfold req_piece in rw (req_piece, none_there) in
      absurd (no refused)
  | inr (p, there) ↦ elim (Bool-cases p.status.request_piece) [
    | inr fresh ↦
        let out : req_piece now (pos i) s
            ≡ (true, record s { peer_list = update_key (pos i) (ask now) s.peer_list }) =
          unfold req_piece in rw (req_piece, there, fresh) in
        rw out (
          ask now p,
          find_key-update_key (ask now) (pos i) s.peer_list p there,
          (unfold ask in refl),
          (unfold ask in refl),
        )
    | inl asked ↦
        elim (Bool-cases (not p.status.recv_piece && leb peer_piece_time (now - p.expire))) [
          | inl late ↦
              let unheard : not p.status.recv_piece ≡ true = ground arith in
              let passed : leb peer_piece_time (now - p.expire) ≡ true = ground arith in
              let out : req_piece now (pos i) s
                  ≡ (true, record s { peer_list = update_key (pos i) (renew now) s.peer_list }) =
                unfold req_piece in rw (req_piece, there, asked, unheard, passed) in
              rw out (
                renew now p,
                find_key-update_key (renew now) (pos i) s.peer_list p there,
                (unfold renew in asked),
                (unfold renew in refl),
              )
          | inr soon ↦ elim (Bool-cases (not p.status.recv_piece)) [
            | inl unheard ↦
                let early : leb peer_piece_time (now - p.expire) ≡ false = ground arith in
                let refused : req_piece now (pos i) s ≡ (false, s) =
                  unfold req_piece in rw (req_piece, there, asked, unheard, early) in
                absurd (no refused)
            | inr heard ↦
                let refused : req_piece now (pos i) s ≡ (false, s) =
                  unfold req_piece in rw (req_piece, there, asked, heard) in
                absurd (no refused)
          ]
        ]
  ]
]
  where
    no : req_piece now (pos i) s ≡ (false, s) → ⊥
    no out = let h = rw out at e in ground arith

req_piece_refused :
    (now now' : ℕ) (i : ℤ) (s : Swarm)
    → Asked now i s
    → now < 2 ^ 32
    → now' < now + 30
    → req_piece now' i s ≡ (false, s)
unfolding Asked
req_piece_refused now now' (negsuc i) s a fits soon = unfold req_piece in refl
req_piece_refused now now' (pos i) s (p, there, asked, at) fits soon =
    elim (Bool-cases (not p.status.recv_piece)) [
      | inl unheard ↦
          let early : leb peer_piece_time (now' - p.expire) ≡ false = ground arith in
          unfold req_piece in rw (req_piece, there, asked, unheard, early)
      | inr heard ↦ unfold req_piece in rw (req_piece, there, asked, heard)
    ]

req_piece_cleared :
    (now : ℕ) (i : ℕ) (s : Swarm) (p : Peer)
    → find_key (pos i) s.peer_list ≡ some p
    → (req_piece now (pos i) (clear_piece_status (pos i) s)).0 ≡ true
unfolding clear_piece_status req_piece
req_piece_cleared now i s p there =
    let cleared = find_key-update_key forget (pos i) s.peer_list p there in rw (req_piece, cleared)

-- When ReqPiece answered yes for a peer at a time of 32 bits, it answers no for that peer, and
-- changes nothing, when it is asked next within half a minute; when ClearPieceStatus of the peer
-- comes first it answers yes at any time.
pub req_piece_once :
    (now now' : ℕ) (i : ℤ) (s : Swarm)
    → now < 2 ^ 32
    → now' < now + 30
    → (req_piece now i s).0 ≡ true
    → (req_piece now' i (req_piece now i s).1 ≡ (false, (req_piece now i s).1))
      × ((later : ℕ) → (req_piece later i (clear_piece_status i (req_piece now i s).1)).0 ≡ true)
req_piece_once now now' (negsuc i) s fits soon e = absurd (unfold req_piece in ground arith)
req_piece_once now now' (pos i) s fits soon e =
    let a = req_piece-Asked now (pos i) s e in
    (
      req_piece_refused now now' (pos i) (req_piece now (pos i) s).1 a fits soon,
      λ later. cleared later a,
    )
  where
    cleared :
        (later : ℕ)
        → Asked now (pos i) (req_piece now (pos i) s).1
        → (req_piece later (pos i) (clear_piece_status (pos i) (req_piece now (pos i) s).1)).0
          ≡ true
    cleared later a =
        unfold Asked in
        let (p, there, asked, at) = a in
        req_piece_cleared later i (req_piece now (pos i) s).1 p there

-- When RecvPiece answered yes for a peer, it answers no for that peer, and changes nothing, when it
-- is asked next; when ClearPieceStatus of the peer comes first it answers yes.
pub recv_piece_once :
    (i : ℤ) (s : Swarm)
    → (recv_piece i s).0 ≡ true
    → (recv_piece i (recv_piece i s).1 ≡ (false, (recv_piece i s).1))
      × ((recv_piece i (clear_piece_status i (recv_piece i s).1)).0 ≡ true)
unfolding clear_piece_status
recv_piece_once (negsuc i) s e = absurd (unfold recv_piece in ground arith)
recv_piece_once (pos i) s e = elim (Option-cases (find_key (pos i) s.peer_list)) [
  | inl none_there ↦ absurd (no (unfold recv_piece in rw (recv_piece, none_there)))
  | inr (p, there) ↦ elim (Bool-cases (not p.status.recv_piece)) [
    | inr heard ↦ absurd (no (unfold recv_piece in rw (recv_piece, there, heard)))
    | inl unheard ↦
        let out : recv_piece (pos i) s
            ≡ (true, record s { peer_list = update_key (pos i) receive s.peer_list }) =
          unfold recv_piece in rw (recv_piece, there, unheard) in
        let taken = find_key-update_key receive (pos i) s.peer_list p there in
        let freed = find_key-update_key forget (pos i) _ _ taken in
        rw out (
          (unfold recv_piece in rw (recv_piece, taken)),
          (unfold recv_piece in rw (recv_piece, freed)),
        )
  ]
]
  where
    no : recv_piece (pos i) s ≡ (false, s) → ⊥
    no out = let h = rw out at e in ground arith
