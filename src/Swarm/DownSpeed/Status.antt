-- ===== src/Swarm/DownSpeed/Status.antt =====
-- What the methods of DownSpeed that set a bit do to its queue, when its lock is free.
use socket_template.Base.{◌≡◌, true, false, ℤ, unlocked}
use socket_template.Swarm.{PeerStatus, peer_status_new}
use socket_template.Swarm.DownSpeed.{
  Speed, DownSpeed, push_back, erase_first, add_socket, clear_socket, update_first, set_status,
  am_choke, am_un_choke, am_interested, am_un_interested, pr_choke, pr_un_choke, pr_interested,
  pr_un_interested,
}

abbrev pub on_status : (PeerStatus → PeerStatus) → Speed → Speed
on_status f x = record x { status = f x.status }

-- A method applies `f` to the status of the socket.
abbrev pub SetsSocket : (ℤ → DownSpeed → DownSpeed) → (PeerStatus → PeerStatus) → Type 0
SetsSocket method f =
    (socket : ℤ) (d : DownSpeed)
    → d.lock ≡ unlocked
    → method socket d
      ≡ record { queue = update_first socket (on_status f) d.queue; lock = unlocked }

set_status-SetsSocket : (f : PeerStatus → PeerStatus) → SetsSocket (λ i d. set_status i f d) f
unfolding set_status
set_status-SetsSocket f i d free = rw free

pub am_choke-SetsSocket : SetsSocket am_choke (λ s. record s { am_choke = true })
unfolding am_choke
am_choke-SetsSocket = set_status-SetsSocket (λ s. record s { am_choke = true })

pub am_un_choke-SetsSocket : SetsSocket am_un_choke (λ s. record s { am_choke = false })
unfolding am_un_choke
am_un_choke-SetsSocket = set_status-SetsSocket (λ s. record s { am_choke = false })

pub am_interested-SetsSocket : SetsSocket am_interested (λ s. record s { am_interested = true })
unfolding am_interested
am_interested-SetsSocket = set_status-SetsSocket (λ s. record s { am_interested = true })

pub am_un_interested-SetsSocket :
    SetsSocket am_un_interested (λ s. record s { am_interested = false })
unfolding am_un_interested
am_un_interested-SetsSocket = set_status-SetsSocket (λ s. record s { am_interested = false })

pub pr_choke-SetsSocket : SetsSocket pr_choke (λ s. record s { peer_choke = true })
unfolding pr_choke
pr_choke-SetsSocket = set_status-SetsSocket (λ s. record s { peer_choke = true })

pub pr_un_choke-SetsSocket : SetsSocket pr_un_choke (λ s. record s { peer_choke = false })
unfolding pr_un_choke
pr_un_choke-SetsSocket = set_status-SetsSocket (λ s. record s { peer_choke = false })

pub pr_interested-SetsSocket : SetsSocket pr_interested (λ s. record s { peer_interested = true })
unfolding pr_interested
pr_interested-SetsSocket = set_status-SetsSocket (λ s. record s { peer_interested = true })

pub pr_un_interested-SetsSocket :
    SetsSocket pr_un_interested (λ s. record s { peer_interested = false })
unfolding pr_un_interested
pr_un_interested-SetsSocket = set_status-SetsSocket (λ s. record s { peer_interested = false })

pub add_socket-free :
    (socket : ℤ) (d : DownSpeed)
    → d.lock ≡ unlocked
    → add_socket socket d ≡ record {
      queue = push_back (record { status = peer_status_new; socket = socket; total = 0 }) d.queue;
      lock = unlocked;
    }
unfolding add_socket
add_socket-free socket d free = rw free

pub clear_socket-free :
    (socket : ℤ) (d : DownSpeed)
    → d.lock ≡ unlocked
    → clear_socket socket d ≡ record { queue = erase_first socket d.queue; lock = unlocked }
unfolding clear_socket
clear_socket-free socket d free = rw free
