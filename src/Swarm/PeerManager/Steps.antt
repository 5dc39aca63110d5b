-- ===== src/Swarm/PeerManager/Steps.antt =====
-- The methods of BitTorrent/CszPeerManager.cpp keep the three objects in agreement.
use socket_template.Base.{
  ℕ, ◌≡◌, refl, ap, ◌∙◌, Bool, true, false, some, Option-cases, Bool-cases, inl, inr, ℤ, List,
  unlocked, find_key, update_key, arith,
}
use socket_template.Swarm.{PeerStatus}
use socket_template.Swarm.DownSpeed.{Speed, DownSpeed, update_first}
use socket_template.Swarm.DownSpeed.Table.{table, table-update_first}
use socket_template.Swarm.DownSpeed.Status.{on_status}
use socket_template.Swarm.NeedPiece.{NeedPiece}
use socket_template.Swarm.PeerManager.{Peer, Swarm}
use socket_template.Swarm.DownSpeed as DownSpeed
use socket_template.Swarm.NeedPiece as NeedPiece
use socket_template.Wire as Wire
use socket_template.Swarm.NeedPiece.{pop_need}
use socket_template.Swarm.NeedPiece.Status.{
  SetsId, am_choke-SetsId, am_un_choke-SetsId, am_interested-SetsId, am_un_interested-SetsId,
  pr_choke-SetsId, pr_interested-SetsId, pr_un_interested-SetsId,
}
use socket_template.Swarm.DownSpeed.Status.{
  SetsSocket, am_choke-SetsSocket, am_un_choke-SetsSocket, am_interested-SetsSocket,
  am_un_interested-SetsSocket, pr_choke-SetsSocket, pr_interested-SetsSocket,
  pr_un_interested-SetsSocket,
}
use socket_template.Swarm.PeerManager.{
  change_status, am_status, pr_status, am_choke, am_un_choke, am_interested, am_un_interested,
  pr_choke, pr_interested, pr_un_interested,
}
use socket_template.Swarm.PeerManager.Agreement.{IsValid}
use socket_template.Swarm.PeerManager.Changed.{RespectsFlags, Changed, Changed-IsValid}

module _ (f : PeerStatus → PeerStatus) (respects : RespectsFlags f)
    (in_speeds : ℤ → DownSpeed → DownSpeed) (sets_socket : SetsSocket in_speeds f) where
  sets_queue :
      (i : ℤ) (d : DownSpeed)
      → d.lock ≡ unlocked
      → (table (in_speeds i d).queue ≡ update_key i (on_status f) (table d.queue))
        × ((in_speeds i d).lock ≡ unlocked)
  sets_queue i d free = (
    ap (λ (d : DownSpeed). table d.queue) (sets_socket i d free)
        ∙ table-update_first (on_status f) (λ x. refl) i d.queue,
    ap (λ (d : DownSpeed). d.lock) (sets_socket i d free),
  )

  module _ (in_needs : ℤ → NeedPiece → NeedPiece) (sets_id : SetsId in_needs f) where
    change_status-Changed :
        (i : ℤ) (p : Peer) (s : Swarm)
        → IsValid s
        → Changed f i p s (change_status f in_needs in_speeds i p s)
    unfolding change_status
    change_status-Changed i p s v = record {
      peers = refl;
      cur_id = refl;
      ids = ap (λ (n : NeedPiece). n.id_queue) (sets_id p.id s.needs v.ids_free);
      id_lock = ap (λ (n : NeedPiece). n.id_lock) (sets_id p.id s.needs v.ids_free);
      queue = (sets_queue i s.speeds v.speeds_free).0;
      lock = (sets_queue i s.speeds v.speeds_free).1;
    }

    change_status-IsValid :
        (i : ℤ) (p : Peer) (s : Swarm)
        → find_key i s.peer_list ≡ some p
        → IsValid s
        → IsValid (change_status f in_needs in_speeds i p s)
    change_status-IsValid i p s e v =
        Changed-IsValid f respects s (change_status f in_needs in_speeds i p s) i p e v
          (change_status-Changed i p s v)

    am_status-IsValid :
        (already : PeerStatus → Bool) (message : List ℕ) (i : ℤ) (s : Swarm)
        → IsValid s
        → IsValid (am_status already f in_needs in_speeds message i s).1
    unfolding am_status
    am_status-IsValid already message i s v = elim (Option-cases (find_key i s.peer_list)) [
      | inl e ↦ rw (am_status, e) v
      | inr (p, e) ↦ elim (Bool-cases (already p.status)) [
        | inl yet ↦ rw (am_status, e, yet) v
        | inr not_yet ↦ rw (am_status, e, not_yet) (change_status-IsValid i p s e v)
      ]
    ]

    pr_status-IsValid :
        (i : ℤ) (s : Swarm) → IsValid s → IsValid (pr_status f in_needs in_speeds i s)
    unfolding pr_status
    pr_status-IsValid i s v = elim (Option-cases (find_key i s.peer_list)) [
      | inl e ↦ rw (pr_status, e) v
      | inr (p, e) ↦ rw (pr_status, e) (change_status-IsValid i p s e v)
    ]

pub am_choke-IsValid : (i : ℤ) (s : Swarm) → IsValid s → IsValid (am_choke i s).1
unfolding am_choke
am_choke-IsValid =
    am_status-IsValid (λ t. record t { am_choke = true }) (λ a b e. ground arith) DownSpeed.am_choke
      am_choke-SetsSocket NeedPiece.am_choke am_choke-SetsId _ Wire.choke

pub am_un_choke-IsValid : (i : ℤ) (s : Swarm) → IsValid s → IsValid (am_un_choke i s).1
unfolding am_un_choke
am_un_choke-IsValid =
    am_status-IsValid (λ t. record t { am_choke = false }) (λ a b e. ground arith)
      DownSpeed.am_un_choke am_un_choke-SetsSocket NeedPiece.am_un_choke am_un_choke-SetsId _
      Wire.unchoke

pub am_interested-IsValid : (i : ℤ) (s : Swarm) → IsValid s → IsValid (am_interested i s).1
unfolding am_interested
am_interested-IsValid =
    am_status-IsValid (λ t. record t { am_interested = true }) (λ a b e. ground arith)
      DownSpeed.am_interested am_interested-SetsSocket NeedPiece.am_interested am_interested-SetsId
      _ Wire.interested

pub am_un_interested-IsValid : (i : ℤ) (s : Swarm) → IsValid s → IsValid (am_un_interested i s).1
unfolding am_un_interested
am_un_interested-IsValid =
    am_status-IsValid (λ t. record t { am_interested = false }) (λ a b e. ground arith)
      DownSpeed.am_un_interested am_un_interested-SetsSocket NeedPiece.am_un_interested
      am_un_interested-SetsId _ Wire.uninterested

pub pr_choke-IsValid : (i : ℤ) (s : Swarm) → IsValid s → IsValid (pr_choke i s)
unfolding pr_choke
pr_choke-IsValid =
    pr_status-IsValid (λ t. record t { peer_choke = true }) (λ a b e. ground arith)
      DownSpeed.pr_choke pr_choke-SetsSocket NeedPiece.pr_choke pr_choke-SetsId

pub pr_interested-IsValid : (i : ℤ) (s : Swarm) → IsValid s → IsValid (pr_interested i s)
unfolding pr_interested
pr_interested-IsValid =
    pr_status-IsValid (λ t. record t { peer_interested = true }) (λ a b e. ground arith)
      DownSpeed.pr_interested pr_interested-SetsSocket NeedPiece.pr_interested pr_interested-SetsId

pub pr_un_interested-IsValid : (i : ℤ) (s : Swarm) → IsValid s → IsValid (pr_un_interested i s)
unfolding pr_un_interested
pr_un_interested-IsValid =
    pr_status-IsValid (λ t. record t { peer_interested = false }) (λ a b e. ground arith)
      DownSpeed.pr_un_interested pr_un_interested-SetsSocket NeedPiece.pr_un_interested
      pr_un_interested-SetsId
