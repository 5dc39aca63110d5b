-- ===== src/Swarm/PeerManager/Reach/Examples.antt =====
-- A run of three peers, to which the theorem of the reachable states applies.
use socket_template.Base.{arith, ◌≡◌, refl, false, pos}
use socket_template.Swarm.{peer_status_new}
use socket_template.Swarm.NeedPiece.{can_send}
use socket_template.Swarm.PeerManager.{Peer, Swarm}
use socket_template.Swarm.PeerManager as Manager
use socket_template.Swarm.PeerManager.Agreement.{IsValid}
use socket_template.Swarm.PeerManager.Closing.{close_socket-can_send}
use socket_template.Swarm.PeerManager.Reach.{Reachable, swarm_new, Reachable-IsValid}

abbrev reached : Swarm
reached =
    (Manager.pr_un_choke 1000 false (pos 8)
      (Manager.am_interested (pos 8)
        (Manager.add_socket (pos 8) (Manager.add_socket (pos 7) swarm_new))).1).1

reached-Reachable : Reachable reached
unfolding Manager.add_socket
reached-Reachable = Reachable.pr_un_choke 1000 false (pos 8) _ (
    Reachable.am_interested (pos 8) _ (
      Reachable.add_socket (pos 8) _ refl (omega arith)
        (Reachable.add_socket (pos 7) _ refl (omega arith) Reachable.start)))

Reachable-IsValid_example : IsValid reached
Reachable-IsValid_example = Reachable-IsValid reached reached-Reachable

abbrev two_peers : Swarm
two_peers = Manager.add_socket (pos 8) (Manager.add_socket (pos 7) swarm_new)

two_peers-Reachable : Reachable two_peers
unfolding Manager.add_socket
two_peers-Reachable =
    Reachable.add_socket (pos 8) _ refl (omega arith)
      (Reachable.add_socket (pos 7) _ refl (omega arith) Reachable.start)

abbrev second : Peer
second = record { status = peer_status_new; id = pos 1; expire = 0 }

close_socket-can_send_example :
    can_send (Manager.close_socket (pos 8) two_peers).needs (pos 1) ≡ false
unfolding Manager.add_socket
close_socket-can_send_example =
    close_socket-can_send (pos 8) second two_peers refl
      (Reachable-IsValid two_peers two_peers-Reachable)
