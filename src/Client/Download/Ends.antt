-- ===== src/Client/Download/Ends.antt =====
-- How _LockPiece ends (BitTorrent/CszSelectSwitch.cpp).
use socket_template.Base.{
  ℕ, zero, suc, ◌+◌, ◌<◌, ◌==◌, ◌≡◌, refl, Option, none, some, Option-cases, Bool-cases, inl, inr,
  List, length, ℤ, pos, arith,
}
use socket_template.Wire.Frame.{
  Frame, closed, keep_alive, choke, unchoke, interested, uninterested, task, ignored, next_frame,
}
use socket_template.Wire.Frame.Shorter.{Leaves, next_frame-Leaves}
use socket_template.Client.{Message}
use socket_template.Client.Download.{
  told, run_task, World, Node, Turn, ended, passed, stored, spoiled, pass, take_slice, turn,
  lock_piece,
}

-- Less than `k` is left to read behind a round.
abbrev Advances : ℕ → Option Turn → Type 0
Advances k none = Unit
Advances k (some ended) = Unit
Advances k (some (passed rest n)) = length rest < k
Advances k (some (stored rest n)) = length rest < k
Advances k (some (spoiled n)) = Unit

pass-Advances :
    (k : ℕ) (rest : List ℕ) (o : Option Node) → length rest < k → Advances k (pass rest o)
unfolding pass
pass-Advances k rest none h = tt
pass-Advances k rest (some n) h = h

module _ (w : World) (now : ℕ) (socket index : ℤ) (n : Node) (k : ℕ) where
  take_slice-Advances :
      (buf rest : List ℕ) → length rest < k → Advances k (take_slice w now socket index buf rest n)
  unfolding take_slice
  take_slice-Advances buf rest h = ground arith

  frame-Advances :
      (input : List ℕ) (f : Frame)
      → next_frame input ≡ f
      → Leaves k f
      → Advances k (turn w now socket index input n)
  unfolding turn
  frame-Advances input closed e h = rw (turn, e) tt
  frame-Advances input (keep_alive rest) e h =
      rw (turn, e) (pass-Advances k rest (told w now socket Message.keep_alive n) h)
  frame-Advances input (choke rest) e h =
      rw (turn, e) (pass-Advances k rest (told w now socket Message.choke n) h)
  frame-Advances input (unchoke rest) e h =
      rw (turn, e) (pass-Advances k rest (told w now socket Message.unchoke n) h)
  frame-Advances input (interested rest) e h =
      rw (turn, e) (pass-Advances k rest (told w now socket Message.interested n) h)
  frame-Advances input (uninterested rest) e h =
      rw (turn, e) (pass-Advances k rest (told w now socket Message.uninterested n) h)
  frame-Advances input (ignored rest) e h = rw (turn, e) h
  frame-Advances input (task id buf rest) e h = elim (Bool-cases (id == 7)) [
    | inl slice ↦ rw (turn, e, slice) (take_slice-Advances buf rest h)
    | inr other ↦ rw (turn, e, other) (pass-Advances k rest (run_task w now socket id buf n) h)
  ]

turn-Advances :
    (w : World) (now : ℕ) (socket index : ℤ) (input : List ℕ) (n : Node) (t : Turn)
    → turn w now socket index input n ≡ some t
    → Advances (length input) (some t)
turn-Advances w now socket index input n t e = rw e at (
    frame-Advances w now socket index n (length input) input (next_frame input) refl
      (next_frame-Leaves input))

-- The loop of _LockPiece ends when the peer sends nothing more: any two fuels above the number of bytes that it sends give
-- the same result, which is that of DPiece's call.
pub lock_piece_ends :
    (w : World) (socket index : ℤ) (fuel fuel' round left : ℕ) (ret : ℤ) (input : List ℕ) (n : Node)
    → length input < fuel
    → length input < fuel'
    → lock_piece w socket index fuel round left ret input n
      ≡ lock_piece w socket index fuel' round left ret input n
unfolding lock_piece
lock_piece_ends w socket index fuel fuel' round zero ret input n h h' = refl
lock_piece_ends w socket index zero fuel' round (suc left) ret input n h h' = absurd (omega arith)
lock_piece_ends w socket index (suc fuel) zero round (suc left) ret input n h h' =
    absurd (omega arith)
lock_piece_ends w socket index (suc fuel) (suc fuel') round (suc left) ret input n h h' =
    elim (Option-cases (turn w (w.clock round) socket index input n)) [
      | inl e ↦ rw (lock_piece, e)
      | inr (ended, e) ↦ rw (lock_piece, e)
      | inr (passed rest n', e) ↦
          let lt : length rest < length input =
            turn-Advances w (w.clock round) socket index input n (passed rest n') e in
          rw (lock_piece, e)
            (lock_piece_ends w socket index fuel fuel' (round + 1) (suc left) ret rest n'
              (omega arith) (omega arith))
      | inr (stored rest n', e) ↦
          let lt : length rest < length input =
            turn-Advances w (w.clock round) socket index input n (stored rest n') e in
          rw (lock_piece, e)
            (lock_piece_ends w socket index fuel fuel' (round + 1) left (pos 1) rest n'
              (omega arith) (omega arith))
      | inr (spoiled n', e) ↦ rw (lock_piece, e)
    ]
