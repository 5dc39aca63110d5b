-- ===== src/Swarm/DownSpeed.antt =====
-- DownSpeed of BitTorrent/CszDownSpeed.cpp and BitTorrent/CszBitTorrent.h: the queue of the peers with their
-- statuses and what each has sent since the last round, behind a read-write lock.
pub mod Order
pub mod Choice
pub mod Locking
pub mod Status
pub mod Table
pub mod Totals
mod Examples
use socket_template.Base.{
  sort, ℕ, zero, suc, ◌+◌, ◌-◌, ◌*◌, ◌/◌, ◌%◌, ◌^◌, Bool, true, false, ◌&&◌, ◌||◌, Option, none,
  some, List, [], ◌∷◌, map, ltb, leb, ◌==◌, not, if◌then◌else◌, ℤ, eq_ℤ, RwLock, wrlock, rdlock,
  unlock,
}
use socket_template.Swarm.{PeerStatus, peer_status_new}

-- DownSpeed::DataType
pub record Speed : Type 0 where
  pub status : PeerStatus
  pub socket : ℤ
  pub total : ℕ

pub record DownSpeed : Type 0 where
  pub queue : List Speed
  pub lock : RwLock

-- A method that takes the write lock, changes the queue and unlocks.
with_wrlock : (List Speed → List Speed) → DownSpeed → DownSpeed
with_wrlock change d = elim (wrlock d.lock) [
  | none ↦ d
  | some held ↦ record d { queue = change d.queue; lock = unlock held }
]

pub push_back : Speed → List Speed → List Speed
push_back x [] = x ∷ []
push_back x (y ∷ ys) = y ∷ push_back x ys

pub add_socket : ℤ → DownSpeed → DownSpeed
unfolding with_wrlock push_back peer_status_new
add_socket socket d =
    with_wrlock (push_back (record { status = peer_status_new; socket = socket; total = 0 })) d

-- The loops that look for a socket and change the first entry of it.
pub update_first : ℤ → (Speed → Speed) → List Speed → List Speed
update_first socket f [] = []
update_first socket f (x ∷ xs) =
    if eq_ℤ socket x.socket then f x ∷ xs else x ∷ update_first socket f xs

is_empty : List Speed → Bool
is_empty [] = true
is_empty (x ∷ xs) = false

-- AddTotal(socket, speed). The early return of an empty queue does not unlock.
unfoldable pub add_total : ℤ → ℕ → DownSpeed → DownSpeed
unfolding update_first is_empty
add_total socket speed d = elim (wrlock d.lock) [
  | none ↦ d
  | some held ↦ if is_empty d.queue then record d { lock = held } else record d {
    queue = update_first socket (λ x. record x { total = (x.total + speed) % 2 ^ 32 }) d.queue;
    lock = unlock held;
  }
]

-- AddTotal(queue)
pub add_totals : List (ℤ × ℕ) → DownSpeed → DownSpeed
unfolding add_total
add_totals [] d = d
add_totals ((socket, speed) ∷ rest) d = add_totals rest (add_total socket speed d)

-- The loop of RetSocket: `count` sockets are in the result already.
pub ret_sockets : ℕ → List Speed → List ℤ
ret_sockets count [] = []
ret_sockets count (x ∷ xs) =
    let count' = if x.status.peer_interested then count + 1 else count in
    let rest = if count' == 5 then [] else ret_sockets count' xs in
    if x.status.peer_interested then x.socket ∷ rest else rest

pub ret_socket : DownSpeed → List ℤ × DownSpeed
unfolding ret_sockets
ret_socket d = elim (rdlock d.lock) [
  | none ↦ ([], d)
  | some held ↦ (ret_sockets 0 d.queue, record d { lock = unlock held })
]

pub is_among : ℤ → List ℤ → Bool
is_among socket [] = false
is_among socket (x ∷ xs) = eq_ℤ socket x || is_among socket xs

pub check_socket : ℤ → DownSpeed → Bool × DownSpeed
unfolding is_among ret_socket
check_socket socket d = let (check, d') = ret_socket d in (is_among socket check, d')

pub erase_first : ℤ → List Speed → List Speed
erase_first socket [] = []
erase_first socket (x ∷ xs) = if eq_ℤ x.socket socket then xs else x ∷ erase_first socket xs

pub clear_socket : ℤ → DownSpeed → DownSpeed
unfolding with_wrlock erase_first
clear_socket socket d = with_wrlock (erase_first socket) d

set_status : ℤ → (PeerStatus → PeerStatus) → DownSpeed → DownSpeed
unfolding with_wrlock update_first
set_status socket f d = with_wrlock (update_first socket (λ x. record x { status = f x.status })) d

pub am_choke : ℤ → DownSpeed → DownSpeed
unfolding set_status
am_choke socket d = set_status socket (λ s. record s { am_choke = true }) d

pub am_un_choke : ℤ → DownSpeed → DownSpeed
unfolding set_status
am_un_choke socket d = set_status socket (λ s. record s { am_choke = false }) d

pub am_interested : ℤ → DownSpeed → DownSpeed
unfolding set_status
am_interested socket d = set_status socket (λ s. record s { am_interested = true }) d

pub am_un_interested : ℤ → DownSpeed → DownSpeed
unfolding set_status
am_un_interested socket d = set_status socket (λ s. record s { am_interested = false }) d

pub pr_choke : ℤ → DownSpeed → DownSpeed
unfolding set_status
pr_choke socket d = set_status socket (λ s. record s { peer_choke = true }) d

pub pr_un_choke : ℤ → DownSpeed → DownSpeed
unfolding set_status
pr_un_choke socket d = set_status socket (λ s. record s { peer_choke = false }) d

pub pr_interested : ℤ → DownSpeed → DownSpeed
unfolding set_status
pr_interested socket d = set_status socket (λ s. record s { peer_interested = true }) d

pub pr_un_interested : ℤ → DownSpeed → DownSpeed
unfolding set_status
pr_un_interested socket d = set_status socket (λ s. record s { peer_interested = false }) d

-- DSComp (BitTorrent/CszMicro.hpp)
pub ds_comp : Speed → Speed → Bool
ds_comp a b =
    if a.status.peer_interested && not b.status.peer_interested
    then true
    else if not a.status.peer_interested && b.status.peer_interested
    then false
    else ltb b.total a.total

-- The loop of CalculateSpeed: the pairs that it collects.
collect : ℕ → List Speed → List (Bool × ℤ)
collect unchoke_count [] = []
collect unchoke_count (x ∷ xs) =
    if x.status.peer_interested && ltb 0 unchoke_count
    then (false, x.socket) ∷ collect (unchoke_count - 1) xs
    else (false, x.socket) ∷ collect unchoke_count xs

sum_totals : ℕ → List Speed → ℕ
sum_totals speed [] = speed
sum_totals speed (x ∷ xs) = sum_totals ((speed + x.total) % 2 ^ 32) xs

-- The calls of PeerManager that CalculateSpeed makes.
pub data Command : Type 0 where
  choke : ℤ → Command
  unchoke : ℤ → Command

command : Bool × ℤ → Command
command (true, socket) = choke socket
command (false, socket) = unchoke socket

pub reset : Speed → Speed
reset x = record x { total = 0 }

-- With the calls, and the speed that is printed; `none` when the lock is not had.
pub calculate_speed : DownSpeed → DownSpeed × Option (List Command × ℕ)
unfolding ds_comp collect sum_totals command reset
calculate_speed d = elim (wrlock d.lock) [
  | none ↦ (d, none)
  | some held ↦
      let sorted = sort ds_comp d.queue in
      (
        record d { queue = map reset sorted; lock = unlock held },
        some (map command (collect 4 sorted), sum_totals 0 sorted / 1024),
      )
]
