-- ===== src/Client/Download/Done.antt =====
-- The write bit of its piece and the agreement of the peers when DPiece of BitTorrent/CszSelectSwitch.cpp is done.
use socket_template.Base.{
  ℕ, ◌≡◌, refl, Bool, true, some, Bool-cases, inl, inr, List, ℤ, pos, to_i32, length,
}
use socket_template.Wire.Frame.{piece_fields}
use socket_template.Torrent.{accepts_slice}
use socket_template.Swarm.NeedPiece.{Need, judge, find_need, set_index_w}
use socket_template.Swarm.NeedPiece.Locking.{Unlocked, Free, judge-Free}
use socket_template.Swarm.PeerManager.{Swarm, clear_piece_status, update_expire}
use socket_template.Swarm.PeerManager.Agreement.{IsValid}
use socket_template.Swarm.PeerManager.Asking.{clear_piece_status-IsValid}
use socket_template.Swarm.PeerManager.Kept.{Mild, clear_piece_status-Mild, update_expire-Mild}
use socket_template.Client.{Client}
use socket_template.Client.Sound.{Mild-IsSound}
use socket_template.Client.Download.{World, Node, with_swarm, d_piece}
use socket_template.Client.Download.Sound.{IsReady, renewed-Ready}
use socket_template.Client.Download.Unlocked.{IsDone, Done, IsDone-map, stored-Done, locked-Ready}

module _ (socket : ℤ) (k : ℕ) (w : World) (reached : w.reaches socket ≡ true) where
  -- DPiece does nothing more than to change when the peer expires, or to clear its status.
  untouched-IsDone :
      (c : Client) (s : Swarm)
      → IsReady socket k c
      → Mild c.swarm s
      → IsValid s
      → Unlocked k c.swarm.needs.index_queue
      → IsDone (Unlocked k) (record c { swarm = s })
  untouched-IsDone c s h m v u = record {
    field = h.field;
    sound = Mild-IsSound c.bit_field c.swarm s m v h.sound;
    queue = rw m.1 u;
  }

  d_piece-Done :
      (buf input : List ℕ) (n : Node) (index begin : ℕ) (bytes : List ℕ)
      → piece_fields buf ≡ some (index, begin, bytes)
      → to_i32 index ≡ pos k
      → IsReady socket k n.client
      → Unlocked k n.client.swarm.needs.index_queue
      → Done (Unlocked k) (d_piece w socket buf input n)
  unfolding d_piece
  d_piece-Done buf input n index begin bytes fields at h u =
      let n1 = with_swarm (update_expire (w.clock 0) socket) n in
      let h1 = renewed-Ready socket k (w.clock 0) n h in
      let u1 : Unlocked k n1.client.swarm.needs.index_queue =
        rw ((update_expire-Mild (w.clock 0) socket n.client.swarm).1) u in
      elim (Bool-cases (accepts_slice w.info (pos k) (to_i32 begin) (length bytes))) [
        | inr wrong ↦
            rw (d_piece, fields, at, wrong)
              (untouched-IsDone n1.client n1.client.swarm h1 ((λ j e. e), refl) h1.sound.peers u1)
        | inl right ↦ elim (Bool-cases (set_index_w (pos k) n1.client.swarm.needs).0) [
          | inr busy ↦
              rw (d_piece, fields, at, right, busy)
                (untouched-IsDone n1.client (clear_piece_status socket n1.client.swarm) h1
                  (clear_piece_status-Mild socket n1.client.swarm)
                  (clear_piece_status-IsValid socket n1.client.swarm h1.sound.peers) u1)
          | inl taken ↦
              rw (d_piece, fields, at, right, taken)
                (IsDone-map (Free k) (Unlocked k) _ (λ q f x e. (f x e).1)
                  (stored-Done socket k w reached (to_i32 begin) bytes input _ _ refl
                    (locked-Ready socket k w reached n1 h1)))
        ]
      ]

  -- DPiece on a slice of piece `k` of the torrent, from a peer that is in the table and that a send reaches, whatever the peer sends behind it, in a state where
  -- the field is valid, the peers are in agreement, every needed piece has one entry and is missing, and nobody has the write bit of
  -- the piece: if no access is out of bounds, all of that holds again when DPiece is done, whichever way it ends.
  pub d_piece-IsDone :
      (buf input : List ℕ) (n n' : Node) (index begin : ℕ) (bytes : List ℕ)
      → piece_fields buf ≡ some (index, begin, bytes)
      → to_i32 index ≡ pos k
      → IsReady socket k n.client
      → Unlocked k n.client.swarm.needs.index_queue
      → d_piece w socket buf input n ≡ some n'
      → IsDone (Unlocked k) n'.client
  d_piece-IsDone buf input n n' index begin bytes fields at h u e =
      rw e at (d_piece-Done buf input n index begin bytes fields at h u)

  taken-Done :
      (buf input : List ℕ) (n : Node) (index begin : ℕ) (bytes : List ℕ)
      → piece_fields buf ≡ some (index, begin, bytes)
      → to_i32 index ≡ pos k
      → accepts_slice w.info (pos k) (to_i32 begin) (length bytes) ≡ true
      → (set_index_w (pos k) (update_expire (w.clock 0) socket n.client.swarm).needs).0 ≡ true
      → IsReady socket k n.client
      → Done (Free k) (d_piece w socket buf input n)
  unfolding d_piece
  taken-Done buf input n index begin bytes fields at right taken h =
      let n1 = with_swarm (update_expire (w.clock 0) socket) n in
      let h1 = renewed-Ready socket k (w.clock 0) n h in
      rw (d_piece, fields, at, right, taken)
        (stored-Done socket k w reached (to_i32 begin) bytes input _ _ refl
          (locked-Ready socket k w reached n1 h1))

  -- When DPiece on a slice of piece `k`, from a peer that is in the table and that a send reaches, in such a state passed its tests and took the write bit, then
  -- afterwards, if no access is out of bounds, the piece has no entry among the needed ones, or PopNeed's test of the two bits and
  -- the time of the entry (`judge`) says yes at any time. Whether a peer of the entry is unchoked and free is not part of that test.
  pub d_piece-judge :
      (buf input : List ℕ) (n n' : Node) (index begin : ℕ) (bytes : List ℕ)
      → piece_fields buf ≡ some (index, begin, bytes)
      → to_i32 index ≡ pos k
      → accepts_slice w.info (pos k) (to_i32 begin) (length bytes) ≡ true
      → (set_index_w (pos k) (update_expire (w.clock 0) socket n.client.swarm).needs).0 ≡ true
      → IsReady socket k n.client
      → d_piece w socket buf input n ≡ some n'
      → (x : Need) → find_need (pos k) n'.client.swarm.needs.index_queue ≡ some x
      → (now : ℕ) (game_end : Bool) → judge now game_end x ≡ true
  d_piece-judge buf input n n' index begin bytes fields at right taken h e x there =
      let done : IsDone (Free k) n'.client =
        rw e at (taken-Done buf input n index begin bytes fields at right taken h) in
      judge-Free k n'.client.swarm.needs.index_queue x done.queue there
