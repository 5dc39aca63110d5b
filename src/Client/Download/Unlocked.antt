-- ===== src/Client/Download/Unlocked.antt =====
-- DPiece of BitTorrent/CszSelectSwitch.cpp from its first slice to its end: the write bit of its piece is given back.
use socket_template.Base.{
  ℕ, zero, suc, ◌≡◌, ap, sym, ◌∙◌, Bool, true, false, Option, none, some, Option-cases, Bool-cases,
  inl, inr, List, length, ℤ, pos, negsuc, find_key, arith,
}
use socket_template.BitField.{BitField, check_bit_field}
use socket_template.BitField.Fill as Field
use socket_template.BitField.Fill.{has_piece}
use socket_template.BitField.Answers.{check_bit_field-answers}
use socket_template.Swarm.NeedPiece.{Need, find_need, set_index_w, un_lock_index}
use socket_template.Swarm.NeedPiece.Locking.{Free, un_lock_index-Free}
use socket_template.Swarm.NeedPiece.Indices.{need_piece-Distinct}
use socket_template.Swarm.NeedPiece.Status.{set_index_w-SameIds, un_lock_index-SameIds}
use socket_template.Swarm.NeedPiece.Entries.{
  find_need-Entries, set_index_w-Entries, un_lock_index-Entries,
}
use socket_template.Swarm.PeerManager.{Swarm, clear_piece_status}
use socket_template.Swarm.PeerManager.Asking.{clear_piece_status-IsValid}
use socket_template.Swarm.PeerManager.Closing.{close_socket-IsValid}
use socket_template.Swarm.PeerManager.Reach.{needs-IsValid}
use socket_template.Swarm.PeerManager.Kept.{clear_piece_status-Mild}
use socket_template.Swarm.PeerManager.Kept.Closing.{close_socket-queue}
use socket_template.Client.{Client}
use socket_template.Client.Sound.{IsMissing, IsSound, Mild-IsSound}
use socket_template.Client.Download.{
  World, Node, with_swarm, store_slice, add_speed, lock_piece, give_up, ask_rest, rounds_left,
  finish_piece, drop_slice, first_slice,
}
use socket_template.Client.Download.Sound.{IsReady}
use socket_template.Client.Download.Rounds.{
  ReadyEnd, store_slice-Ready, add_speed-Ready, lock_piece-Ready,
}

-- The field is valid, the peers are in agreement, no needed piece is here, and the queue has the property.
pub record IsDone (P : List Need → Type 0) (c : Client) : Type 0 where
  pub field : Field.IsValid c.bit_field
  pub sound : IsSound c.bit_field c.swarm
  pub queue : P c.swarm.needs.index_queue

abbrev pub Done : (List Need → Type 0) → Option Node → Type 0
Done P none = Unit
Done P (some n) = IsDone P n.client

pub IsDone-map :
    (P Q : List Need → Type 0) (o : Option Node)
    → ((q : List Need) → P q → Q q)
    → Done P o
    → Done Q o
IsDone-map P Q none f h = tt
IsDone-map P Q (some n) f h = record {
  field = h.field;
  sound = h.sound;
  queue = f n.client.swarm.needs.index_queue h.queue;
}

unlocked-IsSound :
    (f : BitField) (k : ℕ) (s : Swarm)
    → IsSound f s
    → IsSound f (record s { needs = un_lock_index (pos k) s.needs })
unlocked-IsSound f k s h = record {
  peers =
      needs-IsValid s (un_lock_index (pos k) s.needs) (un_lock_index-SameIds (pos k) s.needs)
        h.peers;
  distinct = (need_piece-Distinct s.needs h.distinct).4 (pos k);
  missing = un_lock_index-Entries (IsMissing f) s.needs (pos k) h.missing;
}

module _ (socket : ℤ) (k : ℕ) where
  give_up-IsDone :
      (n : Node)
      → IsReady socket k n.client
      → IsDone (Free k) (with_swarm (give_up socket (pos k)) n).client
  unfolding give_up
  give_up-IsDone n h =
      let s = n.client.swarm in
      let s' : Swarm = record s { needs = un_lock_index (pos k) s.needs } in
      let free = unlocked-IsSound n.client.bit_field k s h.sound in
      let same = close_socket-queue socket s' in
      record {
        field = h.field;
        sound = record {
          peers = close_socket-IsValid socket s' free.peers;
          distinct = rw same free.distinct;
          missing = rw same free.missing;
        };
        queue = rw same (un_lock_index-Free k s.needs);
      }

  drop_slice-IsDone :
      (n : Node)
      → IsReady socket k n.client
      → IsDone (Free k) (with_swarm (drop_slice socket (pos k)) n).client
  unfolding drop_slice
  drop_slice-IsDone n h =
      let s = clear_piece_status socket n.client.swarm in
      let sound =
        Mild-IsSound n.client.bit_field n.client.swarm s
          (clear_piece_status-Mild socket n.client.swarm)
          (clear_piece_status-IsValid socket n.client.swarm h.sound.peers) h.sound in
      record {
        field = h.field;
        sound = unlocked-IsSound n.client.bit_field k s sound;
        queue = un_lock_index-Free k s.needs;
      }

  -- The piece is here: it is not needed any more.
  cleared-IsDone :
      (n : Node)
      → check_bit_field n.client.bit_field (pos k) ≡ some true
      → IsReady socket k n.client
      → IsDone (Free k) (with_swarm (clear_piece_status socket) n).client
  cleared-IsDone n here h =
      let s = n.client.swarm in
      let marked : true ≡ has_piece n.client.bit_field.prefix_and_bit_field k =
        check_bit_field-answers n.client.bit_field k true h.field here in
      let gone : find_need (pos k) s.needs.index_queue ≡ none =
        find_need-Entries (IsMissing n.client.bit_field) (pos k) s.needs.index_queue
          (λ m. both (marked ∙ m)) h.sound.missing in
      let m = clear_piece_status-Mild socket s in
      record {
        field = h.field;
        sound =
            Mild-IsSound n.client.bit_field s (clear_piece_status socket s) m
              (clear_piece_status-IsValid socket s h.sound.peers) h.sound;
        queue = λ x e. nothing (sym (ap (find_need (pos k)) m.1 ∙ gone) ∙ e);
      }
    where
      both : true ≡ false → ⊥
      both e = cc

      nothing : {x : Need} → none ≡ some x → (x.read ≡ false) × (x.write ≡ false)
      nothing e = absurd (ground arith)

  module _ (w : World) (reached : w.reaches socket ≡ true) where
    finish_piece-Done :
        (input : List ℕ) (n : Node)
        → IsReady socket k n.client
        → Done (Free k) (finish_piece w socket (pos k) input n)
    unfolding finish_piece ask_rest
    finish_piece-Done input n h = elim (Option-cases (find_key socket n.client.swarm.peer_list)) [
      | inl lost ↦ rw (finish_piece, lost) (give_up-IsDone n h)
      | inr (p, there) ↦
          let asked = ask_rest w socket (pos k) n in
          let end =
            lock_piece w socket (pos k) (suc (length input)) 1 (rounds_left w (pos k)) (pos 0) input
              asked in
          let ready : ReadyEnd w socket k reached end =
            lock_piece-Ready w socket k reached (suc (length input)) 1 (rounds_left w (pos k))
              (pos 0) input asked h in
          elim (Option-cases end) [
            | inl out ↦ rw (finish_piece, there, out) tt
            | inr ((pos zero, n'), e) ↦
                rw (finish_piece, there, e) (give_up-IsDone n' (rw e at ready))
            | inr ((negsuc code, n'), e) ↦
                rw (finish_piece, there, e) (give_up-IsDone n' (rw e at ready))
            | inr ((pos (suc code), n'), e) ↦
                elim (Option-cases (check_bit_field n'.client.bit_field (pos k))) [
                  | inl out ↦ rw (finish_piece, there, e, out) tt
                  | inr (true, here) ↦
                      rw (finish_piece, there, e, here) (cleared-IsDone n' here (rw e at ready))
                  | inr (false, absent) ↦
                      rw (finish_piece, there, e, absent) (give_up-IsDone n' (rw e at ready))
                ]
          ]
    ]

    -- The write bit is taken.
    pub locked-Ready :
        (n : Node)
        → IsReady socket k n.client
        → IsReady socket k
            (with_swarm
              (λ s. record s { needs = (set_index_w (pos k) n.client.swarm.needs).1 })
              n).client
    locked-Ready n h =
        let s = n.client.swarm in
        let needs = (set_index_w (pos k) s.needs).1 in
        record {
          field = h.field;
          in_torrent = h.in_torrent;
          sound = record {
            peers = needs-IsValid s needs (set_index_w-SameIds (pos k) s.needs) h.sound.peers;
            distinct = (need_piece-Distinct s.needs h.sound.distinct).5 (pos k);
            missing =
                set_index_w-Entries (IsMissing n.client.bit_field) s.needs (pos k) h.sound.missing;
          };
          present = h.present;
        }

    pub stored-Done :
        (begin : ℤ) (bytes input : List ℕ) (n : Node) (r : Option (Bool × Node))
        → store_slice w (pos k) begin bytes n ≡ r
        → IsReady socket k n.client
        → Done (Free k) (first_slice w socket (pos k) begin bytes input n)
    unfolding first_slice
    stored-Done begin bytes input n none e h = rw (first_slice, e) tt
    stored-Done begin bytes input n (some (wrote, n')) e h =
        let h' : IsReady socket k n'.client =
          rw e at (store_slice-Ready w socket k reached begin bytes n h) in
        elim (Bool-cases wrote) [
          | inl success ↦
              rw (first_slice, e, success)
                (finish_piece-Done input (with_swarm (add_speed socket (length bytes)) n')
                  (add_speed-Ready w socket k reached (length bytes) n' h'))
          | inr failure ↦ rw (first_slice, e, failure) (drop_slice-IsDone n' h')
        ]
