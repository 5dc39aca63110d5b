-- ===== src/Client/Download/Complete.antt =====
-- A peer that sends the slices of a piece one after another, as DPiece of BitTorrent/CszSelectSwitch.cpp takes them.
use socket_template.Base.{
  ℕ, zero, suc, ◌+◌, ◌^◌, ◌<◌, ◌≤◌, ◌≡◌, refl, ap, ◌∙◌, true, false, Option, none, some,
  Option-cases, inl, inr, List, [], ◌∷◌, ◌++◌, length, All, ℤ, pos, eq_ℤ_refl, to_i32, arith,
}
use socket_template.Wire.{piece, piece_new}
use socket_template.Wire.Frame.RoundTrip.{next_frame-piece}
use socket_template.Wire.Frame.Shorter.{next_frame-Leaves}
use socket_template.Swarm.PeerManager.{update_expire}
use socket_template.Client.Download.{
  World, Node, with_swarm, store_slice, add_speed, stored, take_slice, turn, lock_piece,
}

-- Begin, first byte and the other bytes of a slice
abbrev pub Slice : Type 0
Slice = ℕ × ℕ × List ℕ

-- What the peer sends: a Piece for each slice, and then something else
unfoldable pub send_slices : ℕ → List Slice → List ℕ → List ℕ
send_slices k [] rest = rest
send_slices k ((begin, c, cs) ∷ xs) rest =
    piece piece_new (pos k) (pos begin) (c ∷ cs) ++ send_slices k xs rest

-- The slices given to Write one after another, each counted by DownSpeed; `none` if one is refused.
unfoldable pub store_all : World → ℤ → ℕ → ℕ → List Slice → Node → Option Node
store_all w socket k round [] n = some n
store_all w socket k round ((begin, c, cs) ∷ xs) n =
    elim (store_slice w (pos k) (pos begin) (c ∷ cs)
      (with_swarm (update_expire (w.clock round) socket) n)) [
        | none ↦ none
        | some (false, n') ↦ none
        | some (true, n') ↦
            store_all w socket k (round + 1) xs (with_swarm (add_speed socket (length (c ∷ cs))) n')
      ]

-- The numbers of a Piece are int32_t.
abbrev pub IsSendable : Slice → Type 0
IsSendable (begin, c, cs) = (begin < 2 ^ 31) × (length cs + 10 ≤ 2 ^ 31)

to_i32-pos : (n : ℕ) → n < 2 ^ 31 → to_i32 n ≡ pos n
to_i32-pos n h = ground arith

module _ (w : World) (socket : ℤ) (k : ℕ) (small : k < 2 ^ 31) where
  -- One Piece is one round.
  turn-piece :
      (now : ℕ) (x : Slice) (rest : List ℕ) (n n' : Node)
      → IsSendable x
      → store_slice w (pos k) (pos x.0) (x.1 ∷ x.2) (with_swarm (update_expire now socket) n)
        ≡ some (true, n')
      → turn w now socket (pos k) (piece piece_new (pos k) (pos x.0) (x.1 ∷ x.2) ++ rest) n
        ≡ some (stored rest (with_swarm (add_speed socket (length (x.1 ∷ x.2))) n'))
  unfolding turn take_slice
  turn-piece now (begin, c, cs) rest n n' (hb, hc) e =
      let (buf, read, fields, again, none_sent) = next_frame-piece k begin c cs rest small hb hc in
      rw (
        turn,
        read,
        take_slice,
        fields,
        to_i32-pos k small,
        to_i32-pos begin hb,
        eq_ℤ_refl (pos k),
        e,
      )

  -- The result of the loop, when it was `ret` before
  abbrev pub code : ℤ → List Slice → ℤ
  code ret [] = ret
  code ret (x ∷ xs) = pos 1

  code-one : (xs : List Slice) → code (pos 1) xs ≡ pos 1
  code-one [] = refl
  code-one (x ∷ xs) = refl

  pub lock_piece-store_all :
      (xs : List Slice) (fuel round : ℕ) (ret : ℤ) (rest : List ℕ) (n n' : Node)
      → All IsSendable xs
      → length xs < fuel
      → store_all w socket k round xs n ≡ some n'
      → lock_piece w socket (pos k) fuel round (length xs) ret (send_slices k xs rest) n
        ≡ some (code ret xs, n')
  unfolding lock_piece store_all send_slices
  lock_piece-store_all [] fuel round ret rest n n' h lt e = cc
  lock_piece-store_all (x ∷ xs) zero round ret rest n n' h lt e = absurd (omega arith)
  lock_piece-store_all ((begin, c, cs) ∷ xs) (suc fuel) round ret rest n n' h lt e =
      let before = with_swarm (update_expire (w.clock round) socket) n in
      elim (Option-cases (store_slice w (pos k) (pos begin) (c ∷ cs) before)) [
        | inl out ↦ let no : none ≡ some n' = rw (store_all, out) at e in absurd (ground arith)
        | inr ((false, m), refused) ↦
            let no : none ≡ some n' = rw (store_all, refused) at e in absurd (ground arith)
        | inr ((true, m), kept) ↦
            let m' = with_swarm (add_speed socket (length (c ∷ cs))) m in
            let e' : store_all w socket k (round + 1) xs m' ≡ some n' = rw (store_all, kept) at e in
            let first =
              turn-piece (w.clock round) (begin, c, cs) (send_slices k xs rest) n m h.0 kept in
            rw (lock_piece, first)
              (lock_piece-store_all xs fuel (round + 1) (pos 1) rest m' n' h.1 (omega arith) e'
                ∙ ap (λ i. some (i, n')) (code-one xs))
      ]

  -- Each of the slices has its bytes in the stream.
  pub slices-length :
      (xs : List Slice) (rest : List ℕ)
      → All IsSendable xs
      → length xs ≤ length (send_slices k xs rest)
  unfolding send_slices
  slices-length [] rest h = omega arith
  slices-length ((begin, c, cs) ∷ xs) rest h =
      let (buf, read, fields, again, none_sent) =
        next_frame-piece k begin c cs (send_slices k xs rest) small h.0.0 h.0.1 in
      let shorter : length (send_slices k xs rest)
          < length (piece piece_new (pos k) (pos begin) (c ∷ cs) ++ send_slices k xs rest) =
        rw read at (
          next_frame-Leaves
            (piece piece_new (pos k) (pos begin) (c ∷ cs) ++ send_slices k xs rest)) in
      omega (arith, slices-length xs rest h.1)
