-- ===== src/Wire/Frame/Shorter.antt =====
-- What a message read off a socket leaves to read (BitTorrent/CszSelectSwitch.cpp).
use socket_template.Base.{ℕ, ◌-◌, ◌<◌, List, [], ◌∷◌, length, length-drop, drop, arith}
use socket_template.Wire.Bytes.{ntohl_at}
use socket_template.Wire.Frame.{
  Frame, closed, keep_alive, choke, unchoke, interested, uninterested, task, ignored, read_body,
  read_id, next_frame,
}

abbrev pub Leaves : ℕ → Frame → Type 0
Leaves k closed = Unit
Leaves k (keep_alive rest) = length rest < k
Leaves k (choke rest) = length rest < k
Leaves k (unchoke rest) = length rest < k
Leaves k (interested rest) = length rest < k
Leaves k (uninterested rest) = length rest < k
Leaves k (task id buf rest) = length rest < k
Leaves k (ignored rest) = length rest < k

read_body-Leaves :
    (id size k : ℕ) (rest : List ℕ) → length rest < k → Leaves k (read_body id size rest)
unfolding read_body
read_body-Leaves id size k rest h = ground (arith, length-drop size rest)

read_id-Leaves : (len k : ℕ) (rest : List ℕ) → length rest < k → Leaves k (read_id len rest)
unfolding read_id
read_id-Leaves len k [] h = tt
read_id-Leaves len k (id ∷ rest) h = ground (arith, read_body-Leaves id (len - 1) k rest)

pub next_frame-Leaves : (input : List ℕ) → Leaves (length input) (next_frame input)
unfolding next_frame
next_frame-Leaves input =
    ground
      (arith, length-drop 4 input, read_id-Leaves (ntohl_at input 0) (length input) (drop 4 input))
