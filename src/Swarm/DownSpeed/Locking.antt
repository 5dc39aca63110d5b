-- ===== src/Swarm/DownSpeed/Locking.antt =====
-- The lock of DownSpeed.
use socket_template.Base.{ℕ, ◌≡◌, refl, none, [], ℤ, unlocked, writing}
use socket_template.Swarm.DownSpeed.{DownSpeed, add_socket, add_total, ret_socket, calculate_speed}

-- AddTotal while the queue is empty returns with the write lock held: afterwards no peer is added or counted, none
-- is found, and CalculateSpeed does nothing.
pub add_total_empty :
    (d : DownSpeed) (socket : ℤ) (speed : ℕ)
    → d.lock ≡ unlocked
    → d.queue ≡ []
    → (d' : DownSpeed) × (add_total socket speed d ≡ d')
      × ((s : ℤ) → add_socket s d' ≡ d')
      × ((s : ℤ) (n : ℕ) → add_total s n d' ≡ d')
      × (ret_socket d' ≡ ([], d'))
      × (calculate_speed d' ≡ (d', none))
unfolding add_total add_socket ret_socket calculate_speed
add_total_empty d socket speed free none_left =
    (record d { lock = writing }, rw (free, none_left), λ s. refl, λ s n. refl, refl, refl)
