-- ===== src/Swarm/PeerManager/Kept.antt =====
-- What the methods of PeerManager (BitTorrent/CszPeerManager.cpp) that close no socket leave: every socket stays in the table, and a
-- property of the queue of pieces that PopNeed keeps.
pub mod Closing
use socket_template.Base.{
  ℕ, zero, suc, ◌≡◌, ◌≢◌, refl, ap, sym, ◌∙◌, Bool, true, false, Option, none, some, Option-cases,
  Bool-cases, inl, inr, List, [], ◌∷◌, ℤ, pos, negsuc, find_key, update_key, subst, not, leb, ◌-◌,
  arith,
}
use socket_template.Swarm.{PeerStatus}
use socket_template.Swarm.DownSpeed.{DownSpeed}
use socket_template.Swarm.DownSpeed as DownSpeed
use socket_template.Swarm.NeedPiece.{Need, NeedPiece, pop_need}
use socket_template.Swarm.NeedPiece as NeedPiece
use socket_template.Swarm.NeedPiece.Entries.{
  KeepsQueue, am_interested-KeepsQueue, pr_choke-KeepsQueue, pr_interested-KeepsQueue,
  pr_un_interested-KeepsQueue, pr_un_choke-KeepsQueue,
}
use socket_template.Swarm.PeerManager.{
  Peer, Swarm, set_in_peer, change_status, am_status, pr_status, am_interested, pr_choke,
  pr_interested, pr_un_interested, pr_un_choke, send_req, send_each, req_piece, update_expire,
  clear_piece_status, renew, forget, peer_piece_time,
}
use socket_template.Swarm.PeerManager.Agreement.{update_absent, SameTables}
use socket_template.Swarm.PeerManager.Asking.{send_req-SameTables, send_each_state}

-- A socket that is not there now was not there before.
abbrev pub Stays : Swarm → Swarm → Type 0
Stays s s' = (j : ℤ) → find_key j s'.peer_list ≡ none → find_key j s.peer_list ≡ none

abbrev pub SameQueue : Swarm → Swarm → Type 0
SameQueue s s' = s'.needs.index_queue ≡ s.needs.index_queue

abbrev pub Mild : Swarm → Swarm → Type 0
Mild s s' = Stays s s' × SameQueue s s'

Mild-refl : (s : Swarm) → Mild s s
Mild-refl s = ((λ j e. e), refl)

update_peers-Mild :
    (f : Peer → Peer) (i : ℤ) (s : Swarm)
    → Mild s (record s { peer_list = update_key i f s.peer_list })
update_peers-Mild f i s = ((λ j e. update_absent f i j s.peer_list e), refl)

pub update_expire-Mild : (now : ℕ) (i : ℤ) (s : Swarm) → Mild s (update_expire now i s)
unfolding update_expire
update_expire-Mild now (negsuc i) s = Mild-refl s
update_expire-Mild now (pos i) s = update_peers-Mild (renew now) (pos i) s

pub clear_piece_status-Mild : (i : ℤ) (s : Swarm) → Mild s (clear_piece_status i s)
unfolding clear_piece_status
clear_piece_status-Mild (negsuc i) s = Mild-refl s
clear_piece_status-Mild (pos i) s = update_peers-Mild forget (pos i) s

module _ (f : PeerStatus → PeerStatus) (in_needs : ℤ → NeedPiece → NeedPiece)
    (in_speeds : ℤ → DownSpeed → DownSpeed) (keeps : KeepsQueue in_needs) where
  change_status-Mild :
      (i : ℤ) (p : Peer) (s : Swarm) → Mild s (change_status f in_needs in_speeds i p s)
  unfolding change_status
  change_status-Mild i p s =
      ((λ j e. update_absent (set_in_peer f) i j s.peer_list e), keeps p.id s.needs)

  am_status-Mild :
      (already : PeerStatus → Bool) (message : List ℕ) (i : ℤ) (s : Swarm)
      → Mild s (am_status already f in_needs in_speeds message i s).1
  unfolding am_status
  am_status-Mild already message i s = elim (Option-cases (find_key i s.peer_list)) [
    | inl e ↦ rw (am_status, e) (Mild-refl s)
    | inr (p, e) ↦ elim (Bool-cases (already p.status)) [
      | inl yet ↦ rw (am_status, e, yet) (Mild-refl s)
      | inr not_yet ↦ rw (am_status, e, not_yet) (change_status-Mild i p s)
    ]
  ]

  pr_status-Mild : (i : ℤ) (s : Swarm) → Mild s (pr_status f in_needs in_speeds i s)
  unfolding pr_status
  pr_status-Mild i s = elim (Option-cases (find_key i s.peer_list)) [
    | inl e ↦ rw (pr_status, e) (Mild-refl s)
    | inr (p, e) ↦ rw (pr_status, e) (change_status-Mild i p s)
  ]

pub am_interested-Mild : (i : ℤ) (s : Swarm) → Mild s (am_interested i s).1
unfolding am_interested
am_interested-Mild i s =
    am_status-Mild (λ t. record t { am_interested = true }) NeedPiece.am_interested
      DownSpeed.am_interested am_interested-KeepsQueue (λ t. t.am_interested) _ i s

pub pr_choke-Mild : (i : ℤ) (s : Swarm) → Mild s (pr_choke i s)
unfolding pr_choke
pr_choke-Mild i s =
    pr_status-Mild (λ t. record t { peer_choke = true }) NeedPiece.pr_choke DownSpeed.pr_choke
      pr_choke-KeepsQueue i s

pub pr_interested-Mild : (i : ℤ) (s : Swarm) → Mild s (pr_interested i s)
unfolding pr_interested
pr_interested-Mild i s =
    pr_status-Mild (λ t. record t { peer_interested = true }) NeedPiece.pr_interested
      DownSpeed.pr_interested pr_interested-KeepsQueue i s

pub pr_un_interested-Mild : (i : ℤ) (s : Swarm) → Mild s (pr_un_interested i s)
unfolding pr_un_interested
pr_un_interested-Mild i s =
    pr_status-Mild (λ t. record t { peer_interested = false }) NeedPiece.pr_un_interested
      DownSpeed.pr_un_interested pr_un_interested-KeepsQueue i s

req_piece-needs : (now : ℕ) (i : ℤ) (s : Swarm) → (req_piece now i s).1.needs ≡ s.needs
unfolding req_piece
req_piece-needs now (negsuc i) s = refl
req_piece-needs now (pos i) s = elim (Option-cases (find_key (pos i) s.peer_list)) [
  | inl e ↦ rw (req_piece, e)
  | inr (p, e) ↦ elim (Bool-cases p.status.request_piece) [
    | inr fresh ↦ rw (req_piece, e, fresh)
    | inl asked ↦ elim (Bool-cases (not p.status.recv_piece)) [
      | inr heard ↦ rw (req_piece, e, asked, heard)
      | inl unheard ↦ elim (Bool-cases (leb peer_piece_time (now - p.expire))) [
        | inl late ↦ rw (req_piece, e, asked, unheard, late)
        | inr soon ↦ rw (req_piece, e, asked, unheard, soon)
      ]
    ]
  ]
]

send_each-needs :
    (now : ℕ) (index : ℤ) (fds : List ℤ) (s : Swarm) → (send_each now index fds s).1.needs ≡ s.needs
send_each-needs now index [] s = unfold send_each in refl
send_each-needs now index (fd ∷ fds) s =
    rw (send_each_state now index fd fds s)
      (send_each-needs now index fds (req_piece now fd s).1 ∙ req_piece-needs now fd s)

send_req-needs :
    (now : ℕ) (game_end : Bool) (s : Swarm)
    → (send_req now game_end s).1.needs ≡ (pop_need now game_end s.needs).1
unfolding send_req
send_req-needs now game_end s =
    let popped = pop_need now game_end s.needs in
    send_each-needs now popped.0.0 popped.0.1 (record s { needs = popped.1 })

-- PrUnChoke keeps every socket, and what PopNeed keeps of the queue.
pub pr_un_choke-Stays :
    (now : ℕ) (game_end : Bool) (i : ℤ) (s : Swarm) → Stays s (pr_un_choke now game_end i s).1
unfolding pr_un_choke
pr_un_choke-Stays now game_end i s = elim (Option-cases (find_key i s.peer_list)) [
  | inl e ↦ rw (pr_un_choke, e) (λ j h. h)
  | inr (p, e) ↦
      let peers = update_key i (set_in_peer (λ t. record t { peer_choke = false })) s.peer_list in
      let s' : Swarm = record s {
        peer_list = peers;
        needs = (NeedPiece.pr_un_choke p.id s.needs).1;
      } in
      elim (Bool-cases (NeedPiece.pr_un_choke p.id s.needs).0) [
        | inl known ↦
            rw (pr_un_choke, e, known)
              (λ j h.
                update_absent (set_in_peer (λ t. record t { peer_choke = false })) i j s.peer_list
                  ((send_req-SameTables now game_end s').peers.1 j h))
        | inr unknown ↦
            rw (pr_un_choke, e, unknown)
              (λ j h.
                update_absent (set_in_peer (λ t. record t { peer_choke = false })) i j s.peer_list
                  h)
      ]
]

pub pr_un_choke-queue :
    (Q : List Need → Type 0) (now : ℕ) (game_end : Bool) (i : ℤ) (s : Swarm)
    → ((n : NeedPiece) → Q n.index_queue → Q (pop_need now game_end n).1.index_queue)
    → Q s.needs.index_queue
    → Q (pr_un_choke now game_end i s).1.needs.index_queue
unfolding pr_un_choke
pr_un_choke-queue Q now game_end i s popped h = elim (Option-cases (find_key i s.peer_list)) [
  | inl e ↦ rw (pr_un_choke, e) h
  | inr (p, e) ↦
      let told = (NeedPiece.pr_un_choke p.id s.needs).1 in
      let peers = update_key i (set_in_peer (λ t. record t { peer_choke = false })) s.peer_list in
      let s' : Swarm = record s { peer_list = peers; needs = told } in
      let h' : Q told.index_queue = rw (pr_un_choke-KeepsQueue p.id s.needs) h in
      elim (Bool-cases (NeedPiece.pr_un_choke p.id s.needs).0) [
        | inl known ↦
            rw (pr_un_choke, e, known) (rw (send_req-needs now game_end s') (popped told h'))
        | inr unknown ↦ rw (pr_un_choke, e, unknown) h'
      ]
]
