-- ===== src/Swarm/NeedPiece.antt =====
-- NeedPiece of BitTorrent/CszNeedPiece.cpp and BitTorrent/CszBitTorrent.h: which peers have which missing piece.
-- The time and the answer of LocalBitField::GameEnd are arguments. The mutex `index_lock` is given back by every
-- method that takes it and is left out; the read-write lock `id_lock` is kept, as Empty does not give it back.
pub mod Pop
pub mod Indices
pub mod Locking
pub mod Status
pub mod Push
pub mod Entries
mod Examples
use socket_template.Base.{
  find_key, update_key, erase_key, emplace_key, ℕ, zero, suc, ◌+◌, ◌-◌, ◌*◌, ◌%◌, ◌^◌, Bool, true,
  false, ◌&&◌, ◌||◌, Option, none, some, List, [], ◌∷◌, ltb, leb, length, ◌==◌, not, if◌then◌else◌,
  ℤ, pos, negsuc, eq_ℤ, RwLock, wrlock, rdlock, unlock, sort,
}
use socket_template.Swarm.{PeerStatus, peer_status_new}

-- NeedPiece::DataType. The bits 0x01 and 0x02 of `index_status` are two truth values; it has no others. The queue
-- holds sockets with their ids.
pub record Need : Type 0 where
  pub index : ℤ
  pub read : Bool
  pub write : Bool
  pub expire : ℕ
  pub queue : List (ℤ × ℤ)

pub record NeedPiece : Type 0 where
  pub index_queue : List Need
  pub id_queue : List (ℤ × PeerStatus)
  pub id_lock : RwLock

-- emplace_back
push_pair : ℤ × ℤ → List (ℤ × ℤ) → List (ℤ × ℤ)
push_pair x [] = x ∷ []
push_pair x (y ∷ ys) = y ∷ push_pair x ys

-- The search of PushNeed, with what it does where it finds the index and where it does not.
push_into : ℤ → ℤ × ℤ → List Need → List Need
unfolding push_pair
push_into index peer [] =
    record { index = index; read = false; write = false; expire = 0; queue = peer ∷ [] } ∷ []
push_into index peer (x ∷ xs) =
    if eq_ℤ index x.index
    then record x { queue = push_pair peer x.queue } ∷ xs
    else x ∷ push_into index peer xs

-- PushNeed(index, socket, id)
pub push_need : ℤ → ℤ → ℤ → NeedPiece → NeedPiece
unfolding push_into
push_need (negsuc index) socket id n = n
push_need (pos index) socket id n = record n {
  index_queue = push_into (pos index) (socket, id) n.index_queue;
}

-- PushNeed(indexs, socket, id); `none` is a null pointer.
unfoldable pub push_needs : Option (List ℤ) → ℤ → ℤ → NeedPiece → NeedPiece
unfolding push_need
push_needs none socket id n = n
push_needs (some []) socket id n = n
push_needs (some (index ∷ indexs)) socket id n =
    push_needs (some indexs) socket id (push_need index socket id n)

-- Is the id known, and does its peer not choke?
pub can_send : NeedPiece → ℤ → Bool
unfolding find_key
can_send n id = elim (find_key id n.id_queue) [ none ↦ false | some status ↦ not status.peer_choke ]

-- The loops of PopNeed and PopPointNeed over the queue of a piece. Each round takes `id_lock` for reading.
pub senders : NeedPiece → List (ℤ × ℤ) → List ℤ
unfolding can_send
senders n [] = []
senders n ((socket, id) ∷ rest) =
    let others = senders n rest in
    elim (rdlock n.id_lock) [
      | none ↦ others
      | some held ↦ if can_send n id then socket ∷ others else others
    ]

-- NPComp (BitTorrent/CszMicro.hpp)
pub np_comp : Need → Need → Bool
np_comp a b = ltb (length a.queue) (length b.queue)

-- The test of PopNeed of a piece.
pub judge : ℕ → Bool → Need → Bool
judge now game_end x =
    if x.read
    then if not x.write then if leb (2 * 60) (now - x.expire) then true else game_end else false
    else true

-- `index_status= 0x01`, with the time
pub lock_read : ℕ → Need → Need
lock_read now x = record x { read = true; write = false; expire = now % 2 ^ 32 }

-- The loop of PopNeed: what it returns, and the queue behind it.
pub pop_loop : NeedPiece → ℕ → Bool → List Need → (ℤ × List ℤ) × List Need
unfolding judge
pop_loop n now game_end [] = ((pos 0, []), [])
pop_loop n now game_end (x ∷ xs) =
    let (found, rest) = pop_loop n now game_end xs in
    if judge now game_end x
    then elim (senders n x.queue) [
      | [] ↦ (found, x ∷ rest)
      | s ∷ ss ↦ ((x.index, s ∷ ss), lock_read now x ∷ xs)
    ]
    else (found, x ∷ rest)

pub pop_need : ℕ → Bool → NeedPiece → (ℤ × List ℤ) × NeedPiece
unfolding pop_loop np_comp
pop_need now game_end n =
    let (found, queue) = pop_loop n now game_end (sort np_comp n.index_queue) in
    (found, record n { index_queue = queue })

unfoldable pub find_need : ℤ → List Need → Option Need
find_need index [] = none
find_need index (x ∷ xs) = if eq_ℤ x.index index then some x else find_need index xs

pub pop_point_need : ℤ → NeedPiece → List ℤ
unfolding find_need senders
pop_point_need (negsuc index) n = []
pop_point_need (pos index) n = elim (find_need (pos index) n.index_queue) [
  | none ↦ []
  | some x ↦ senders n x.queue
]

pub is_empty {ℓ} : {A : Type ℓ} → List A → Bool
is_empty [] = true
is_empty (x ∷ xs) = false

-- Empty: `id_lock` stays taken for reading.
pub empty : NeedPiece → Bool × NeedPiece
unfolding is_empty
empty n =
    let answer = is_empty n.index_queue || is_empty n.id_queue in
    elim (rdlock n.id_lock) [
      | none ↦ (answer, n)
      | some held ↦ (answer, record n { id_lock = held })
    ]

-- A method that takes `id_lock` for writing, changes the table of ids and unlocks.
with_wrlock : (List (ℤ × PeerStatus) → List (ℤ × PeerStatus)) → NeedPiece → NeedPiece
with_wrlock change n = elim (wrlock n.id_lock) [
  | none ↦ n
  | some held ↦ record n { id_queue = change n.id_queue; id_lock = unlock held }
]

unfoldable pub socket_map_id : ℤ → NeedPiece → NeedPiece
unfolding with_wrlock peer_status_new emplace_key
socket_map_id id n = with_wrlock (emplace_key id peer_status_new) n

unfoldable pub clear_socket : ℤ → NeedPiece → NeedPiece
unfolding with_wrlock erase_key
clear_socket id n = with_wrlock (erase_key id) n

-- The methods that look up a status by RetSocketStatus and set a bit of it.
set_status : ℤ → (PeerStatus → PeerStatus) → NeedPiece → NeedPiece
unfolding with_wrlock update_key
set_status id f n = with_wrlock (update_key id f) n

pub am_choke : ℤ → NeedPiece → NeedPiece
unfolding set_status
am_choke id n = set_status id (λ s. record s { am_choke = true }) n

pub am_un_choke : ℤ → NeedPiece → NeedPiece
unfolding set_status
am_un_choke id n = set_status id (λ s. record s { am_choke = false }) n

pub am_interested : ℤ → NeedPiece → NeedPiece
unfolding set_status
am_interested id n = set_status id (λ s. record s { am_interested = true }) n

pub am_un_interested : ℤ → NeedPiece → NeedPiece
unfolding set_status
am_un_interested id n = set_status id (λ s. record s { am_interested = false }) n

pub pr_choke : ℤ → NeedPiece → NeedPiece
unfolding set_status
pr_choke id n = set_status id (λ s. record s { peer_choke = true }) n

pub pr_interested : ℤ → NeedPiece → NeedPiece
unfolding set_status
pr_interested id n = set_status id (λ s. record s { peer_interested = true }) n

pub pr_un_interested : ℤ → NeedPiece → NeedPiece
unfolding set_status
pr_un_interested id n = set_status id (λ s. record s { peer_interested = false }) n

-- PrUnChoke, up to its call of SendReq: with whether that call is made.
pub pr_un_choke : ℤ → NeedPiece → Bool × NeedPiece
unfolding with_wrlock update_key find_key
pr_un_choke id n = elim (wrlock n.id_lock) [
  | none ↦ (false, n)
  | some held ↦ elim (find_key id n.id_queue) [
    | none ↦ (false, record n { id_lock = unlock held })
    | some status ↦ (
      true,
      record n {
        id_queue = update_key id (λ s. record s { peer_choke = false }) n.id_queue;
        id_lock = unlock held;
      },
    )
  ]
]

erase_index : ℤ → List Need → List Need
erase_index index [] = []
erase_index index (x ∷ xs) = if eq_ℤ index x.index then xs else x ∷ erase_index index xs

unfoldable pub clear_index : ℤ → NeedPiece → NeedPiece
unfolding erase_index
clear_index (negsuc index) n = n
clear_index (pos index) n = record n { index_queue = erase_index (pos index) n.index_queue }

pub update_index : ℤ → (Need → Need) → List Need → List Need
update_index index f [] = []
update_index index f (x ∷ xs) = if eq_ℤ index x.index then f x ∷ xs else x ∷ update_index index f xs

-- `index_status= 0` and `index_status|= 0x02`
abbrev pub clear_status : Need → Need
clear_status x = record x { read = false; write = false }

abbrev pub set_write : Need → Need
set_write x = record x { write = true }

unfoldable pub un_lock_index : ℤ → NeedPiece → NeedPiece
unfolding update_index
un_lock_index (negsuc index) n = n
un_lock_index (pos index) n = record n {
  index_queue = update_index (pos index) clear_status n.index_queue;
}

-- SetIndexW: takes the write bit of a piece, when nobody has it.
unfoldable pub set_index_w : ℤ → NeedPiece → Bool × NeedPiece
unfolding find_need update_index
set_index_w (negsuc index) n = (false, n)
set_index_w (pos index) n = elim (find_need (pos index) n.index_queue) [
  | none ↦ (false, n)
  | some x ↦
      if x.write
      then (false, n)
      else (true, record n { index_queue = update_index (pos index) set_write n.index_queue })
]
