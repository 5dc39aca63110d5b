-- ===== src/Swarm/PeerManager/UnChoke.antt =====
-- PrUnChoke of BitTorrent/CszPeerManager.cpp keeps the three objects in agreement.
use socket_template.Base.{
  ℕ, ◌≡◌, refl, ap, ◌∙◌, Bool, false, some, Option-cases, inl, inr, ℤ, unlocked, find_key,
  update_key, arith,
}
use socket_template.Swarm.{PeerStatus}
use socket_template.Swarm.DownSpeed.{Speed, DownSpeed, update_first}
use socket_template.Swarm.DownSpeed.Table.{table, table-update_first}
use socket_template.Swarm.DownSpeed.Status.{on_status}
use socket_template.Swarm.PeerManager.{Peer, Swarm, set_in_peer}
use socket_template.Swarm.DownSpeed as DownSpeed
use socket_template.Swarm.NeedPiece.Status.{pr_un_choke-SetsId}
use socket_template.Swarm.DownSpeed.Status.{pr_un_choke-SetsSocket}
use socket_template.Swarm.PeerManager.{pr_un_choke, send_req}
use socket_template.Swarm.PeerManager.Agreement.{IsValid, SameTables, SameTables-IsValid}
use socket_template.Swarm.PeerManager.Asking.{send_req-SameTables}
use socket_template.Swarm.PeerManager.Changed.{RespectsFlags, Changed, Changed-IsValid}

un_choke : PeerStatus → PeerStatus
un_choke t = record t { peer_choke = false }

un_choke-RespectsFlags : RespectsFlags un_choke
unfolding un_choke
un_choke-RespectsFlags a b e = ground arith

module _ (now : ℕ) (game_end : Bool) (i : ℤ) (p : Peer) (s : Swarm)
    (at : find_key i s.peer_list ≡ some p) (v : IsValid s) where
  -- The state before SendReq is called, and the one that it would leave if it did nothing.
  before : Swarm
  before = record s {
    peer_list = update_key i (set_in_peer un_choke) s.peer_list;
    needs = record s.needs {
      id_queue = update_key p.id un_choke s.needs.id_queue;
      id_lock = unlocked;
    };
  }

  after : Swarm
  unfolding before
  after = record before { speeds = DownSpeed.pr_un_choke i s.speeds }

  after-Changed : Changed un_choke i p s after
  unfolding before after un_choke
  after-Changed = record {
    peers = refl;
    cur_id = refl;
    ids = refl;
    id_lock = refl;
    queue =
        ap (λ (d : DownSpeed). table d.queue) (pr_un_choke-SetsSocket i s.speeds v.speeds_free)
        ∙ table-update_first (on_status un_choke) (λ x. refl) i s.speeds.queue;
    lock = ap (λ (d : DownSpeed). d.lock) (pr_un_choke-SetsSocket i s.speeds v.speeds_free);
  }

  pr_un_choke_state : (pr_un_choke now game_end i s).1 ≡ record (send_req now game_end before).1 {
    speeds = DownSpeed.pr_un_choke i (send_req now game_end before).1.speeds;
  }
  unfolding before un_choke pr_un_choke
  pr_un_choke_state =
      let ((t, et, ft), shown) = v.agree i p at in
      let told = pr_un_choke-SetsId p.id s.needs t v.ids_free et in rw (pr_un_choke, at, told)

  sent-SameTables : SameTables after (record (send_req now game_end before).1 {
    speeds = DownSpeed.pr_un_choke i (send_req now game_end before).1.speeds;
  })
  unfolding before after
  sent-SameTables =
      let h = send_req-SameTables now game_end before in
      record {
        peers = h.peers;
        cur_id = h.cur_id;
        speeds = ap (DownSpeed.pr_un_choke i) h.speeds;
        id_queue = h.id_queue;
        id_lock = h.id_lock;
      }

  known-IsValid : IsValid (pr_un_choke now game_end i s).1
  known-IsValid = rw pr_un_choke_state (
      SameTables-IsValid after _ sent-SameTables
        (Changed-IsValid un_choke un_choke-RespectsFlags s after i p at v after-Changed))

pub pr_un_choke-IsValid :
    (now : ℕ) (game_end : Bool) (i : ℤ) (s : Swarm)
    → IsValid s
    → IsValid (pr_un_choke now game_end i s).1
pr_un_choke-IsValid now game_end i s v = elim (Option-cases (find_key i s.peer_list)) [
  | inl e ↦ unfold pr_un_choke in rw (pr_un_choke, e) v
  | inr (p, e) ↦ known-IsValid now game_end i p s e v
]
