-- ===== src/Client/Examples.antt =====
-- Handlers: runs, and the theorems at concrete inputs.
use socket_template.Base.{
  ℕ, ◌≡◌, ◌<◌, emplace_key, refl, true, false, some, List, [], ◌∷◌, ℤ, pos, find_key, arith,
}
use socket_template.BitField.{BitField, set_parameter, new}
use socket_template.BitField.Fill as Field
use socket_template.BitField.Fill.{has_piece}
use socket_template.BitField.Progress.{set_parameter-IsValid}
use socket_template.Swarm.PeerManager as Manager
use socket_template.Swarm.{peer_status_new}
use socket_template.Swarm.NeedPiece.{Need, find_need}
use socket_template.Swarm.NeedPiece.Push.{Has}
use socket_template.Swarm.PeerManager.{Peer}
use socket_template.Swarm.PeerManager.Agreement.{IsValid}
use socket_template.Swarm.PeerManager.Reach.{Reachable, swarm_new, Reachable-IsValid}
use socket_template.Client.{Client, Result, Message, recv_have, choke, unchoke, have, bit_field}
use socket_template.Client.Handlers.{handle_all, handle_all-IsValid}
use socket_template.Client.Have.{recv_have-missing}

abbrev field : BitField
field = set_parameter new (0 ∷ 0 ∷ []) 10

field-IsValid : Field.IsValid field
field-IsValid = (set_parameter-IsValid 1 10 (omega arith)).0

abbrev client : Client
client = record { bit_field = field; swarm = Manager.add_socket (pos 7) swarm_new }

client-IsValid : IsValid client.swarm
unfolding find_key
client-IsValid =
    Reachable-IsValid client.swarm
      (Reachable.add_socket (pos 7) _ refl (omega arith) Reachable.start)

abbrev messages : List (ℕ × ℤ × Message)
messages =
    (1000, pos 7, unchoke)
    ∷ (1010, pos 7, have (pos 9))
    ∷ (1020, pos 8, bit_field (255 ∷ 255 ∷ []))
    ∷ (1030, pos 7, choke)
    ∷ []

handle_all-IsValid_example :
    (out : Result) × (handle_all false messages client ≡ some out)
    × (out.1.bit_field ≡ field)
    × IsValid out.1.swarm
unfolding set_parameter new
handle_all-IsValid_example =
    handle_all-IsValid false messages client (tt, (omega arith, (tt, (tt, tt)))) field-IsValid
      client-IsValid

abbrev peer : Peer
peer = record { status = peer_status_new; id = pos 0; expire = 0 }

recv_have-missing_example :
    (out : Result) × (recv_have (pos 7) (pos 9) client ≡ some out)
    × ((q : Peer) × (find_key (pos 7) out.1.swarm.peer_list ≡ some q)
        × (q.status.am_interested ≡ true)
        × (q.id ≡ pos 0))
    × ((x : Need) × (find_need (pos 9) out.1.swarm.needs.index_queue ≡ some x)
        × Has (pos 7, pos 0) x.queue)
recv_have-missing_example =
    recv_have-missing (pos 7) 9 peer client field-IsValid nine
      ((set_parameter-IsValid 1 10 (omega arith)).1 9) there client-IsValid
  where
    nine : 9 < field.total
    nine = unfold set_parameter new in omega arith

    there : find_key (pos 7) client.swarm.peer_list ≡ some peer
    there = unfold Manager.add_socket find_key emplace_key in refl
