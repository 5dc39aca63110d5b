-- ===== src/Client/Download/Whole.antt =====
-- DPiece of BitTorrent/CszSelectSwitch.cpp when the peer sends every slice of the piece.
use socket_template.Base.{
  map, take, ◌++◌, ◌-◌, ℕ, suc, ◌^◌, ◌<◌, ◌≡◌, ◌≢◌, refl, ap, ◌∙◌, true, none, some, Option-cases,
  inl, inr, List, ◌∷◌, length, All, ℤ, pos, to_i32, find_key, arith,
}
use socket_template.Wire.Frame.{piece_fields}
use socket_template.Wire.{request}
use socket_template.Torrent.{accepts_slice, get_piece_bit, slice_requests}
use socket_template.BitField.{check_bit_field}
use socket_template.Swarm.NeedPiece.{set_index_w, un_lock_index}
use socket_template.Swarm.PeerManager.{Swarm, update_expire, clear_piece_status}
use socket_template.Swarm.PeerManager.Kept.{clear_piece_status-Mild}
use socket_template.Swarm.PeerManager.Kept.Closing.{close_socket-gone}
use socket_template.Client.Download.{
  World, Node, with_swarm, store_slice, add_speed, lock_piece, give_up, ask_rest, rounds_left,
  finish_piece, first_slice, d_piece,
}
use socket_template.Client.Download.Sound.{IsReady, renewed-Ready}
use socket_template.Client.Download.Rounds.{store_slice-Ready, add_speed-Ready, lock_piece-Ready}
use socket_template.Client.Download.Unlocked.{locked-Ready}
use socket_template.Client.Download.Complete.{
  Slice, IsSendable, send_slices, store_all, lock_piece-store_all, slices-length,
}

-- The state in which DPiece writes its slice
abbrev pub locked : World → ℤ → ℕ → Node → Node
locked w socket k n =
    let n1 = with_swarm (update_expire (w.clock 0) socket) n in
    with_swarm (λ s. record s { needs = (set_index_w (pos k) n1.client.swarm.needs).1 }) n1

-- The state behind that slice: it is counted, and the requests for the other slices of `count` are sent, as many as sends succeed.
abbrev pub behind : World → ℤ → ℕ → ℕ → List ℕ → Node → Node
behind w socket k count bytes n =
    let n' = with_swarm (add_speed socket (length bytes)) n in
    record n' {
      sent =
          n'.sent
          ++ map (λ x. (socket, request (pos k) (pos (x.0)) (x.1)))
              (take w.room (slice_requests w.info (pos k) (count - 1) 1 count));
    }

ask_rest-behind :
    (w : World) (socket : ℤ) (k count : ℕ) (bytes : List ℕ) (n : Node)
    → get_piece_bit w.info (pos k) ≡ pos count
    → ask_rest w socket (pos k) (with_swarm (add_speed socket (length bytes)) n)
      ≡ behind w socket k count bytes n
unfolding ask_rest
ask_rest-behind w socket k count bytes n e = rw (ask_rest, e)

-- What finish_piece does with a result of _LockPiece.
module _ (w : World) (socket : ℤ) (k : ℕ) (input : List ℕ) (n : Node) where
  finish_piece_marked :
      (n' : Node)
      → find_key socket n.client.swarm.peer_list ≢ none
      → lock_piece w socket
          (pos k)
          (suc (length input))
          1
          (rounds_left w (pos k))
          (pos 0)
          input
          (ask_rest w socket (pos k) n)
        ≡ some (pos 1, n')
      → check_bit_field n'.client.bit_field (pos k) ≡ some true
      → finish_piece w socket (pos k) input n ≡ some (with_swarm (clear_piece_status socket) n')
  unfolding finish_piece
  finish_piece_marked n' present end marked =
      elim (Option-cases (find_key socket n.client.swarm.peer_list)) [
        | inl lost ↦ absurd (present lost)
        | inr (p, there) ↦ rw (finish_piece, there, end, marked)
      ]

  -- With no slice left, the result is 0.
  finish_piece_nothing :
      get_piece_bit w.info (pos k) ≡ pos 1
      → find_key socket n.client.swarm.peer_list ≢ none
      → (n' : Node) × (finish_piece w socket (pos k) input n ≡ some n')
        × (n'.client.swarm ≡ give_up socket (pos k) n.client.swarm)
        × (n'.client.bit_field ≡ n.client.bit_field)
  unfolding finish_piece rounds_left lock_piece ask_rest
  finish_piece_nothing count present =
      elim (Option-cases (find_key socket n.client.swarm.peer_list)) [
        | inl lost ↦ absurd (present lost)
        | inr (p, there) ↦ (
          with_swarm (give_up socket (pos k)) (ask_rest w socket (pos k) n),
          rw (finish_piece, there, rounds_left, count),
          refl,
          refl,
        )
      ]

module _ (w : World) (socket : ℤ) (k : ℕ) (buf : List ℕ) (index begin : ℕ) (bytes : List ℕ)
    (n n3 : Node) (fields : piece_fields buf ≡ some (index, begin, bytes))
    (at : to_i32 index ≡ pos k)
    (right : accepts_slice w.info (pos k) (to_i32 begin) (length bytes) ≡ true)
    (taken : (set_index_w (pos k) (update_expire (w.clock 0) socket n.client.swarm).needs).0 ≡ true)
    (first : store_slice w (pos k) (to_i32 begin) bytes (locked w socket k n)
      ≡ some (true, n3)) where
  first_slice-finish_piece :
      (input : List ℕ)
      → first_slice w socket (pos k) (to_i32 begin) bytes input (locked w socket k n)
        ≡ finish_piece w socket (pos k) input (with_swarm (add_speed socket (length bytes)) n3)
  unfolding first_slice
  first_slice-finish_piece input = rw (first_slice, first)

  d_piece-finish_piece :
      (input : List ℕ)
      → d_piece w socket buf input n
        ≡ finish_piece w socket (pos k) input (with_swarm (add_speed socket (length bytes)) n3)
  unfolding d_piece
  d_piece-finish_piece input =
      rw (d_piece, fields, at, right, taken) (first_slice-finish_piece input)

  module _ (reached : w.reaches socket ≡ true) (h : IsReady socket k n.client) where
    counted-Ready : IsReady socket k (with_swarm (add_speed socket (length bytes)) n3).client
    counted-Ready = add_speed-Ready w socket k reached (length bytes) n3 (
        rw first at (
          store_slice-Ready w socket k reached (to_i32 begin) bytes (locked w socket k n) (
            locked-Ready socket k w reached (with_swarm (update_expire (w.clock 0) socket) n)
              (renewed-Ready socket k (w.clock 0) n h))))

    behind-Ready : (count : ℕ) → IsReady socket k (behind w socket k count bytes n3).client
    behind-Ready count = counted-Ready

    pub d_piece-store_all :
        (x : Slice) (xs : List Slice) (rest : List ℕ) (n4 : Node)
        → k < 2 ^ 31
        → All IsSendable (x ∷ xs)
        → get_piece_bit w.info (pos k) ≡ pos (suc (length (x ∷ xs)))
        → store_all w socket k 1 (x ∷ xs) (behind w socket k (suc (length (x ∷ xs))) bytes n3)
          ≡ some n4
        → check_bit_field n4.client.bit_field (pos k) ≡ some true
        → (d_piece w socket buf (send_slices k (x ∷ xs) rest) n
            ≡ some (with_swarm (clear_piece_status socket) n4))
          × (find_key socket (clear_piece_status socket n4.client.swarm).peer_list ≢ none)
    unfolding finish_piece rounds_left
    d_piece-store_all x xs rest n4 small sendable count kept marked =
        let input = send_slices k (x ∷ xs) rest in
        let total = suc (length (x ∷ xs)) in
        let n' = with_swarm (add_speed socket (length bytes)) n3 in
        let lt : length (x ∷ xs) < suc (length input) =
          omega (arith, slices-length w socket k small (x ∷ xs) rest sendable) in
        let left : rounds_left w (pos k) ≡ length (x ∷ xs) =
          rw (rounds_left, count) (omega arith) in
        let end : lock_piece w socket (pos k) (suc (length input)) 1 (rounds_left w (pos k)) (pos 0)
              input (behind w socket k total bytes n3)
            ≡ some (pos 1, n4) =
          rw left (
            lock_piece-store_all w socket k small (x ∷ xs) (suc (length input)) 1 (pos 0) rest
              (behind w socket k total bytes n3) n4 sendable lt kept) in
        let ready : IsReady socket k n4.client = rw end at (
          lock_piece-Ready w socket k reached (suc (length input)) 1 (rounds_left w (pos k)) (pos 0)
            input (behind w socket k total bytes n3) (behind-Ready total)) in
        (
          d_piece-finish_piece input
              ∙ finish_piece_marked w socket k input n' n4 counted-Ready.present
                  (rw (ask_rest-behind w socket k total bytes n3 count) end) marked,
          λ lost. ready.present ((clear_piece_status-Mild socket n4.client.swarm).0 socket lost),
        )

    -- DPiece on the only slice of a piece, when the slice is accepted and stored, with the write bit free: whatever comes behind it, the peer is
    -- closed, also when the slice completed the piece; the field is as the Write left it.
    pub d_piece_single :
        (input : List ℕ)
        → get_piece_bit w.info (pos k) ≡ pos 1
        → (n' : Node) × (d_piece w socket buf input n ≡ some n')
          × (find_key socket n'.client.swarm.peer_list ≡ none)
          × (n'.client.bit_field ≡ n3.client.bit_field)
    unfolding give_up
    d_piece_single input count =
        let m = with_swarm (add_speed socket (length bytes)) n3 in
        let s : Swarm = record m.client.swarm {
          needs = un_lock_index (pos k) m.client.swarm.needs;
        } in
        let (n', result, swarm, field) =
          finish_piece_nothing w socket k input m count counted-Ready.present in
        (
          n',
          d_piece-finish_piece input ∙ result,
          ap (λ (t : Swarm). find_key socket t.peer_list) swarm
              ∙ close_socket-gone socket s counted-Ready.sound.peers.distinct,
          field,
        )
