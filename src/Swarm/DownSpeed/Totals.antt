-- ===== src/Swarm/DownSpeed/Totals.antt =====
-- AddTotal and CheckSocket of BitTorrent/CszDownSpeed.cpp when the lock is free.
use socket_template.Base.{
  ℕ, ◌+◌, ◌%◌, ◌^◌, ◌≡◌, refl, none, some, List, [], ◌∷◌, ℤ, unlocked, find_key, arith,
}
use socket_template.Swarm.DownSpeed.{
  Speed, DownSpeed, update_first, add_total, check_socket, ret_socket,
}
use socket_template.Swarm.DownSpeed.Table.{table}

abbrev pub counted : ℕ → Speed → Speed
counted speed x = record x { total = (x.total + speed) % 2 ^ 32 }

add_total_queue :
    (socket : ℤ) (speed : ℕ) (q : List Speed) (u : Speed)
    → find_key socket (table q) ≡ some u
    → add_total socket speed (record { queue = q; lock = unlocked })
      ≡ record { queue = update_first socket (counted speed) q; lock = unlocked }
unfolding add_total find_key table
add_total_queue socket speed [] u e = let no : none ≡ some u = e in ground arith
add_total_queue socket speed (x ∷ xs) u e = refl

-- With its socket in the queue, AddTotal gives the lock back.
pub add_total-there :
    (socket : ℤ) (speed : ℕ) (d : DownSpeed) (u : Speed)
    → d.lock ≡ unlocked
    → find_key socket (table d.queue) ≡ some u
    → add_total socket speed d
      ≡ record { queue = update_first socket (counted speed) d.queue; lock = unlocked }
add_total-there socket speed d u free e =
    let same : d ≡ record { queue = d.queue; lock = unlocked } = ground arith in
    rw same (add_total_queue socket speed d.queue u e)

pub check_socket-free :
    (socket : ℤ) (d : DownSpeed) → d.lock ≡ unlocked → (check_socket socket d).1 ≡ d
unfolding check_socket ret_socket
check_socket-free socket d free = rw free (ground arith)
