-- ===== src/Client/Download/Rounds.antt =====
-- The rounds of _LockPiece (BitTorrent/CszSelectSwitch.cpp), each with what Write completes, keep a client ready for the next one.
use socket_template.Base.{
  ℕ, zero, suc, ◌+◌, ◌≡◌, ◌≢◌, refl, ap, sym, ◌∙◌, Bool, true, false, ◌||◌, ◌==◌, Option, none,
  some, Option-cases, Bool-cases, inl, inr, List, ◌++◌, length, get_or, ℤ, pos, negsuc, eq_ℤ,
  to_i32, find_key, arith,
}
use socket_template.Torrent.{to_u64}
use socket_template.Wire.Frame.{
  Frame, closed, keep_alive, choke, unchoke, interested, uninterested, task, ignored, next_frame,
  piece_fields,
}
use socket_template.BitField.{BitField}
use socket_template.BitField.Fill.{has_piece, fill_bit_field-IsValid}
use socket_template.BitMemory.{write}
use socket_template.Swarm.NeedPiece.{clear_index}
use socket_template.Swarm.NeedPiece.Indices.{need_piece-Distinct}
use socket_template.Swarm.NeedPiece.Pop.Again.{Distinct}
use socket_template.Swarm.NeedPiece.Status.{clear_index-SameIds}
use socket_template.Swarm.NeedPiece.Entries.{Entries, clear_index-Entries}
use socket_template.Swarm.PeerManager.{update_expire, send_have}
use socket_template.Swarm.PeerManager.Closing.{send_have-IsValid}
use socket_template.Swarm.PeerManager.Reach.{needs-IsValid}
use socket_template.Swarm.PeerManager.Kept.Closing.{send_have-queue, send_have-reached}
use socket_template.Swarm.PeerManager.Speeds.{add_total-IsValid}
use socket_template.Client.{Client, Result, Message, fill, complete}
use socket_template.Client.Sound.{IsMissing}
use socket_template.Client.Download.{
  World, Node, Turn, ended, passed, stored, spoiled, with_swarm, lift, told, run_task, store_slice,
  add_speed, pass, take_slice, turn, lock_piece,
}
use socket_template.Client.Download.Sound.{
  IsReady, Ready, told-Ready, renewed-Ready, run_task-Ready,
}

-- A piece that is marked is not one of the other missing pieces.
still-IsMissing :
    (f f' : BitField) (k : ℕ)
    → ((m : ℕ)
        → has_piece f'.prefix_and_bit_field m ≡ ((k == m) || has_piece f.prefix_and_bit_field m))
    → (j : ℤ) → j ≢ pos k
    → IsMissing f j
    → IsMissing f' j
still-IsMissing f f' k marks (pos m) ne h = elim (Bool-cases (k == m)) [
  | inl e ↦ let same : m ≡ k = ground arith in absurd (ne (ap pos same))
  | inr e ↦ marks m ∙ both e
]
  where
    both : (k == m) ≡ false → ((k == m) || has_piece f.prefix_and_bit_field m) ≡ false
    both e = ground (arith, h)
still-IsMissing f f' k marks (negsuc m) ne h = tt

module _ (w : World) (socket : ℤ) (k : ℕ) (reached : w.reaches socket ≡ true) where
  abbrev ReadyResult : Option Result → Type 0
  ReadyResult none = Unit
  ReadyResult (some out) = IsReady socket k out.1

  complete-Ready : (c : Client) → IsReady socket k c → ReadyResult (complete w.reaches (pos k) c)
  unfolding complete fill
  complete-Ready c h =
      let (f, filled, valid, total, marks) =
        fill_bit_field-IsValid c.bit_field k h.field h.in_torrent in
      let s = (send_have w.reaches (pos k) c.swarm).1 in
      let same = send_have-queue w.reaches (pos k) c.swarm in
      let distinct : Distinct s.needs.index_queue = rw same h.sound.distinct in
      let missing : Entries (IsMissing c.bit_field) s.needs.index_queue = rw same h.sound.missing in
      rw (complete, fill, filled)
        (record {
          field = valid;
          in_torrent = rw total h.in_torrent;
          sound = record {
            peers =
                needs-IsValid s (clear_index (pos k) s.needs) (clear_index-SameIds (pos k) s.needs)
                  (send_have-IsValid w.reaches (pos k) c.swarm h.sound.peers);
            distinct = (need_piece-Distinct s.needs distinct).3 (pos k);
            missing =
                clear_index-Entries (IsMissing c.bit_field) (IsMissing f) k
                  (still-IsMissing c.bit_field f k marks) s.needs distinct missing;
          };
          present = λ lost.
              h.present (sym (send_have-reached w.reaches (pos k) socket c.swarm reached) ∙ lost);
        })

  complete_node-Ready :
      (n : Node)
      → IsReady socket k n.client
      → Ready socket k (lift n (complete w.reaches (pos k) n.client))
  unfolding lift
  complete_node-Ready n h = elim (Option-cases (complete w.reaches (pos k) n.client)) [
    | inl out ↦ rw out tt
    | inr (out, e) ↦ rw e (rw e at (complete-Ready n.client h))
  ]

  abbrev pub ReadySlice : Option (Bool × Node) → Type 0
  ReadySlice none = Unit
  ReadySlice (some out) = IsReady socket k out.1.client

  pub store_slice-Ready :
      (begin : ℤ) (bytes : List ℕ) (n : Node)
      → IsReady socket k n.client
      → ReadySlice (store_slice w (pos k) begin bytes n)
  unfolding store_slice
  store_slice-Ready begin bytes n h =
      elim (Option-cases (
        write w.info w.outside (pos k) (to_u64 begin) (some (λ i. get_or bytes i 0))
          (pos (length bytes)) n.memory)) [
            | inl out ↦ rw (store_slice, out) tt
            | inr ((writes, a), e) ↦
                let n' : Node = record n { memory = a.memory; written = n.written ++ writes } in
                elim (Bool-cases a.filled) [
                  | inr partial ↦ rw (store_slice, e, partial) h
                  | inl filled ↦
                      elim (Option-cases (lift n' (complete w.reaches (pos k) n.client))) [
                        | inl out ↦ rw (store_slice, e, filled, out) tt
                        | inr (n'', e') ↦
                            rw (store_slice, e, filled, e') (rw e' at (complete_node-Ready n' h))
                      ]
                ]
          ]

  pub add_speed-Ready :
      (len : ℕ) (n : Node)
      → IsReady socket k n.client
      → IsReady socket k (with_swarm (add_speed socket len) n).client
  unfolding add_speed
  add_speed-Ready len n h = elim (Option-cases (find_key socket n.client.swarm.peer_list)) [
    | inl lost ↦ absurd (h.present lost)
    | inr (p, there) ↦ record {
      field = h.field;
      in_torrent = h.in_torrent;
      sound = record {
        peers = add_total-IsValid socket len p n.client.swarm there h.sound.peers;
        distinct = h.sound.distinct;
        missing = h.sound.missing;
      };
      present = h.present;
    }
  ]

  abbrev ReadyTurn : Option Turn → Type 0
  ReadyTurn none = Unit
  ReadyTurn (some ended) = Unit
  ReadyTurn (some (passed rest n)) = IsReady socket k n.client
  ReadyTurn (some (stored rest n)) = IsReady socket k n.client
  ReadyTurn (some (spoiled n)) = IsReady socket k n.client

  pass-Ready : (rest : List ℕ) (o : Option Node) → Ready socket k o → ReadyTurn (pass rest o)
  unfolding pass
  pass-Ready rest none h = tt
  pass-Ready rest (some n) h = h

  take_slice-Ready :
      (now : ℕ) (buf rest : List ℕ) (n : Node)
      → IsReady socket k n.client
      → ReadyTurn (take_slice w now socket (pos k) buf rest n)
  unfolding take_slice
  take_slice-Ready now buf rest n h = elim (Option-cases (piece_fields buf)) [
    | inl out ↦ rw (take_slice, out) tt
    | inr ((i, begin, bytes), at) ↦
        let n' = with_swarm (update_expire now socket) n in
        let h' = renewed-Ready socket k now n h in
        elim (Bool-cases (eq_ℤ (pos k) (to_i32 i))) [
          | inr other ↦ rw (take_slice, at, other) h'
          | inl this ↦ elim (Option-cases (store_slice w (pos k) (to_i32 begin) bytes n')) [
            | inl out ↦ rw (take_slice, at, this, out) tt
            | inr ((wrote, n''), e) ↦
                let h'' : IsReady socket k n''.client =
                  rw e at (store_slice-Ready (to_i32 begin) bytes n' h') in
                elim (Bool-cases wrote) [
                  | inl success ↦
                      rw (take_slice, at, this, e, success) (add_speed-Ready (length bytes) n'' h'')
                  | inr failure ↦ rw (take_slice, at, this, e, failure) h''
                ]
          ]
        ]
  ]

  frame-Ready :
      (now : ℕ) (input : List ℕ) (f : Frame) (n : Node)
      → next_frame input ≡ f
      → IsReady socket k n.client
      → ReadyTurn (turn w now socket (pos k) input n)
  unfolding turn
  frame-Ready now input closed n e h = rw (turn, e) tt
  frame-Ready now input (ignored rest) n e h = rw (turn, e) h
  frame-Ready now input (keep_alive rest) n e h =
      rw (turn, e)
        (pass-Ready rest (told w now socket Message.keep_alive n)
          (told-Ready socket k w now Message.keep_alive n h))
  frame-Ready now input (choke rest) n e h =
      rw (turn, e)
        (pass-Ready rest (told w now socket Message.choke n)
          (told-Ready socket k w now Message.choke n h))
  frame-Ready now input (unchoke rest) n e h =
      rw (turn, e)
        (pass-Ready rest (told w now socket Message.unchoke n)
          (told-Ready socket k w now Message.unchoke n h))
  frame-Ready now input (interested rest) n e h =
      rw (turn, e)
        (pass-Ready rest (told w now socket Message.interested n)
          (told-Ready socket k w now Message.interested n h))
  frame-Ready now input (uninterested rest) n e h =
      rw (turn, e)
        (pass-Ready rest (told w now socket Message.uninterested n)
          (told-Ready socket k w now Message.uninterested n h))
  frame-Ready now input (task id buf rest) n e h = elim (Bool-cases (id == 7)) [
    | inl slice ↦ rw (turn, e, slice) (take_slice-Ready now buf rest n h)
    | inr other ↦
        rw (turn, e, other)
          (pass-Ready rest (run_task w now socket id buf n)
            (run_task-Ready socket k w now id buf n h))
  ]

  abbrev pub ReadyEnd : Option (ℤ × Node) → Type 0
  ReadyEnd none = Unit
  ReadyEnd (some out) = IsReady socket k out.1.client

  pub lock_piece-Ready :
      (fuel round left : ℕ) (ret : ℤ) (input : List ℕ) (n : Node)
      → IsReady socket k n.client
      → ReadyEnd (lock_piece w socket (pos k) fuel round left ret input n)
  unfolding lock_piece
  lock_piece-Ready fuel round zero ret input n h = h
  lock_piece-Ready zero round (suc left) ret input n h = h
  lock_piece-Ready (suc fuel) round (suc left) ret input n h =
      let kept = frame-Ready (w.clock round) input (next_frame input) n refl h in
      elim (Option-cases (turn w (w.clock round) socket (pos k) input n)) [
        | inl e ↦ rw (lock_piece, e) tt
        | inr (ended, e) ↦ rw (lock_piece, e) h
        | inr (passed rest n', e) ↦
            rw (lock_piece, e)
              (lock_piece-Ready fuel (round + 1) (suc left) ret rest n' (rw e at kept))
        | inr (stored rest n', e) ↦
            rw (lock_piece, e)
              (lock_piece-Ready fuel (round + 1) left (pos 1) rest n' (rw e at kept))
        | inr (spoiled n', e) ↦ rw (lock_piece, e) (rw e at kept)
      ]
