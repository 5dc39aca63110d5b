-- ===== src/Swarm/DownSpeed/Examples.antt =====
-- DownSpeed: runs, and the theorems at concrete inputs.
use socket_template.Base.{
  sort, ◌≤◌, ◌≡◌, refl, List, [], ◌∷◌, ◌++◌, min, length, All, pos, unlocked,
}
use mathlib.Core.List.{Perm}
use socket_template.Swarm.DownSpeed.{
  Speed, DownSpeed, add_socket, add_total, pr_interested, ret_socket, calculate_speed,
}
use socket_template.Swarm.DownSpeed.Choice.{interested, sockets, ret_socket-calculate_speed}

abbrev nobody : DownSpeed
nobody = record { queue = []; lock = unlocked }

abbrev three : DownSpeed
three = pr_interested (pos 9) (
    pr_interested (pos 7) (
      add_total (pos 9) 30 (
        add_total (pos 7) 10
          (add_socket (pos 9) (add_socket (pos 8) (add_socket (pos 7) nobody))))))

-- After a round the faster of the two interested peers comes first.
three_run : (ret_socket (calculate_speed three).0).0 ≡ pos 9 ∷ pos 7 ∷ []
unfolding sort ret_socket calculate_speed pr_interested add_total add_socket
three_run = refl

three_free : three.lock ≡ unlocked
unfolding pr_interested add_total add_socket
three_free = refl

ret_socket-calculate_speed_example :
    (top : List Speed) × (rest : List Speed) × ((ret_socket (calculate_speed three).0).0
      ≡ sockets top)
    × (length top ≡ min 5 (length (top ++ rest)))
    × Perm (top ++ rest) (interested three.queue)
    × All (λ x. All (λ y. y.total ≤ x.total) rest) top
ret_socket-calculate_speed_example = ret_socket-calculate_speed three three_free
