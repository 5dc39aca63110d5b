-- ===== src/Swarm/NeedPiece/Pop.antt =====
-- Which piece PopNeed chooses.
pub mod Again
pub mod Held
pub mod Between
use socket_template.Base.{
  ℕ, zero, suc, ◌≤◌, ◌<◌, ◌≡◌, refl, ap, sym, ◌∙◌, Bool, true, false, ◌&&◌, List, [], ◌∷◌, length,
  All, if◌then◌else◌, not, Bool-cases, ◌⊎◌, inl, inr, ℤ, pos, arith,
}
use mathlib.Core.List.{Mem, mem-cons_of_mem}
use mathlib.Core.List.Perm
use socket_template.Swarm.NeedPiece.{Need, NeedPiece, is_empty, senders, judge, lock_read, pop_loop}

-- Is the piece free to ask for, with somebody to ask?
pub available : NeedPiece → ℕ → Bool → Need → Bool
available n now game_end x = judge now game_end x && not (is_empty (senders n x.queue))

-- Nothing when no piece is available, and otherwise an available piece that no fewer peers have than any other.
abbrev pub Chosen : NeedPiece → ℕ → Bool → List Need → ℤ × List ℤ → Type 0
Chosen n now game_end q out =
    ((out ≡ (pos 0, [])) × All (λ y. available n now game_end y ≡ false) q)
    ⊎ ((x : Need) × Mem x q
        × (available n now game_end x ≡ true)
        × (out ≡ (x.index, senders n x.queue))
        × All (λ y. available n now game_end y ≡ true → length x.queue ≤ length y.queue) q)

later :
    (n : NeedPiece) (now : ℕ) (game_end : Bool) (x : Need) (q : List Need) (out : ℤ × List ℤ)
    → available n now game_end x ≡ false
    → Chosen n now game_end q out
    → Chosen n now game_end (x ∷ q) out
later n now game_end x q out no_x (inl (e, h)) = inl (e, (no_x, h))
later n now game_end x q out no_x (inr (y, m, a, e, h)) =
    inr (y, mem-cons_of_mem x m, a, e, ((λ a'. cc), h))

List-cases : (xs : List ℤ) → (xs ≡ []) ⊎ ((s : ℤ) × (ss : List ℤ) × (xs ≡ s ∷ ss))
List-cases [] = inl refl
List-cases (s ∷ ss) = inr (s, ss, refl)

module _ (n : NeedPiece) (now : ℕ) (game_end : Bool) (x : Need) (xs : List Need) where
  pub pop_loop-available :
      available n now game_end x ≡ true
      → pop_loop n now game_end (x ∷ xs) ≡ ((x.index, senders n x.queue), lock_read now x ∷ xs)
  unfolding pop_loop available is_empty
  pop_loop-available a = elim (List-cases (senders n x.queue)) [
    | inl e ↦ absurd (none_there e)
    | inr (s, ss, e) ↦ let j : judge now game_end x ≡ true = ground arith in rw (j, e, pop_loop)
  ]
    where
      none_there : senders n x.queue ≡ [] → ⊥
      none_there e = let h = rw e at a in ground arith

  pub pop_loop-other :
      available n now game_end x ≡ false
      → pop_loop n now game_end (x ∷ xs)
        ≡ ((pop_loop n now game_end xs).0, x ∷ (pop_loop n now game_end xs).1)
  unfolding pop_loop available is_empty
  pop_loop-other a = elim (List-cases (senders n x.queue)) [
    | inl e ↦ elim (Bool-cases (judge now game_end x)) [
      | inl j ↦ rw (j, e, pop_loop)
      | inr j ↦ rw j
    ]
    | inr (s, ss, e) ↦
        let h = rw e at a in let j : judge now game_end x ≡ false = ground arith in rw j
  ]
