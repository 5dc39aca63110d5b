-- ===== src/Swarm/NeedPiece/Status.antt =====
-- What the methods of NeedPiece that set a bit do to its table of ids, when its lock is free.
use socket_template.Base.{
  Option-cases, Bool-cases, inl, inr, List, pos, negsuc, ◌∙◌, [], ◌∷◌, erase_key, emplace_key_new,
  ℕ, Bool, ◌≡◌, refl, true, false, some, none, Option, ℤ, unlocked, find_key, update_key,
}
use socket_template.Swarm.{PeerStatus, peer_status_new}
use socket_template.Swarm.NeedPiece.{
  NeedPiece, push_need, push_needs, clear_index, un_lock_index, set_index_w, find_need, can_send,
  socket_map_id, clear_socket, pop_need, set_status, am_choke, am_un_choke, am_interested,
  am_un_interested, pr_choke, pr_un_choke, pr_interested, pr_un_interested,
}

-- A method applies `f` to the status of the id.
abbrev pub SetsId : (ℤ → NeedPiece → NeedPiece) → (PeerStatus → PeerStatus) → Type 0
SetsId method f =
    (id : ℤ) (n : NeedPiece)
    → n.id_lock ≡ unlocked
    → method id n ≡ record n { id_queue = update_key id f n.id_queue; id_lock = unlocked }

set_status-SetsId : (f : PeerStatus → PeerStatus) → SetsId (λ id n. set_status id f n) f
unfolding set_status
set_status-SetsId f id n free = rw free

pub am_choke-SetsId : SetsId am_choke (λ s. record s { am_choke = true })
unfolding am_choke
am_choke-SetsId = set_status-SetsId (λ s. record s { am_choke = true })

pub am_un_choke-SetsId : SetsId am_un_choke (λ s. record s { am_choke = false })
unfolding am_un_choke
am_un_choke-SetsId = set_status-SetsId (λ s. record s { am_choke = false })

pub am_interested-SetsId : SetsId am_interested (λ s. record s { am_interested = true })
unfolding am_interested
am_interested-SetsId = set_status-SetsId (λ s. record s { am_interested = true })

pub am_un_interested-SetsId : SetsId am_un_interested (λ s. record s { am_interested = false })
unfolding am_un_interested
am_un_interested-SetsId = set_status-SetsId (λ s. record s { am_interested = false })

pub pr_choke-SetsId : SetsId pr_choke (λ s. record s { peer_choke = true })
unfolding pr_choke
pr_choke-SetsId = set_status-SetsId (λ s. record s { peer_choke = true })

pub pr_interested-SetsId : SetsId pr_interested (λ s. record s { peer_interested = true })
unfolding pr_interested
pr_interested-SetsId = set_status-SetsId (λ s. record s { peer_interested = true })

pub pr_un_interested-SetsId : SetsId pr_un_interested (λ s. record s { peer_interested = false })
unfolding pr_un_interested
pr_un_interested-SetsId = set_status-SetsId (λ s. record s { peer_interested = false })

pub pr_un_choke-SetsId :
    (id : ℤ) (n : NeedPiece) (t : PeerStatus)
    → n.id_lock ≡ unlocked
    → find_key id n.id_queue ≡ some t
    → pr_un_choke id n ≡ (
      true,
      record n {
        id_queue = update_key id (λ s. record s { peer_choke = false }) n.id_queue;
        id_lock = unlocked;
      },
    )
unfolding pr_un_choke
pr_un_choke-SetsId id n t free e = rw (free, pr_un_choke, e)

-- PopNeed leaves the ids alone.
pub pop_need-ids :
    (now : ℕ) (game_end : Bool) (n : NeedPiece)
    → ((pop_need now game_end n).1.id_queue ≡ n.id_queue)
      × ((pop_need now game_end n).1.id_lock ≡ n.id_lock)
unfolding pop_need
pop_need-ids now game_end n = (refl, refl)

pub socket_map_id-new :
    (id : ℤ) (n : NeedPiece)
    → n.id_lock ≡ unlocked
    → find_key id n.id_queue ≡ none
    → socket_map_id id n
      ≡ record n { id_queue = (id, peer_status_new) ∷ n.id_queue; id_lock = unlocked }
unfolding socket_map_id
socket_map_id-new id n free e = rw (free, emplace_key_new id peer_status_new n.id_queue e)

pub clear_socket-free :
    (id : ℤ) (n : NeedPiece)
    → n.id_lock ≡ unlocked
    → clear_socket id n ≡ record n { id_queue = erase_key id n.id_queue; id_lock = unlocked }
unfolding clear_socket
clear_socket-free id n free = rw free

pub can_send-none : (n : NeedPiece) (id : ℤ) → find_key id n.id_queue ≡ none → can_send n id ≡ false
unfolding can_send
can_send-none n id e = rw (can_send, e)

-- Only the queue of pieces differs.
abbrev pub SameIds : NeedPiece → NeedPiece → Type 0
SameIds n n' = (n'.id_queue ≡ n.id_queue) × (n'.id_lock ≡ n.id_lock)

pub push_need-SameIds :
    (index socket id : ℤ) (n : NeedPiece) → SameIds n (push_need index socket id n)
unfolding push_need
push_need-SameIds (negsuc index) socket id n = (refl, refl)
push_need-SameIds (pos index) socket id n = (refl, refl)

pub push_needs-SameIds :
    (indexs : Option (List ℤ)) (socket id : ℤ) (n : NeedPiece)
    → SameIds n (push_needs indexs socket id n)
unfolding push_needs
push_needs-SameIds none socket id n = (refl, refl)
push_needs-SameIds (some []) socket id n = (refl, refl)
push_needs-SameIds (some (index ∷ indexs)) socket id n =
    let first = push_need-SameIds index socket id n in
    let rest = push_needs-SameIds (some indexs) socket id (push_need index socket id n) in
    (rest.0 ∙ first.0, rest.1 ∙ first.1)

pub clear_index-SameIds : (index : ℤ) (n : NeedPiece) → SameIds n (clear_index index n)
unfolding clear_index
clear_index-SameIds (negsuc index) n = (refl, refl)
clear_index-SameIds (pos index) n = (refl, refl)

pub un_lock_index-SameIds : (index : ℤ) (n : NeedPiece) → SameIds n (un_lock_index index n)
unfolding un_lock_index
un_lock_index-SameIds (negsuc index) n = (refl, refl)
un_lock_index-SameIds (pos index) n = (refl, refl)

pub set_index_w-SameIds : (index : ℤ) (n : NeedPiece) → SameIds n (set_index_w index n).1
unfolding set_index_w
set_index_w-SameIds (negsuc index) n = (refl, refl)
set_index_w-SameIds (pos index) n = elim (Option-cases (find_need (pos index) n.index_queue)) [
  | inl e ↦ rw (set_index_w, e) (refl, refl)
  | inr (x, e) ↦ elim (Bool-cases x.write) [
    | inl busy ↦ rw (set_index_w, e, busy) (refl, refl)
    | inr idle ↦ rw (set_index_w, e, idle) (refl, refl)
  ]
]
