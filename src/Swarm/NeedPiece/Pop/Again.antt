-- ===== src/Swarm/NeedPiece/Pop/Again.antt =====
-- What PopNeed leaves of a piece that it chose.
use socket_template.Base.{
  ℕ, ◌+◌, ◌^◌, ◌<◌, ◌≡◌, ◌≢◌, refl, sym, ◌∙◌, Bool, true, false, List, [], ◌∷◌, All, All-map,
  insert, insert-All, Bool-cases, inl, inr, ℤ, sort, arith,
}
use socket_template.Swarm.NeedPiece.{Need, NeedPiece, np_comp, judge, lock_read, pop_loop}
use socket_template.Swarm.NeedPiece.Pop.{available, pop_loop-available, pop_loop-other}

-- No index twice.
unfoldable pub Distinct : List Need → Type 0
Distinct [] = Unit
Distinct (x ∷ xs) = All (λ y. y.index ≢ x.index) xs × Distinct xs

insert-Distinct :
    (x : Need) (xs : List Need)
    → All (λ y. y.index ≢ x.index) xs
    → Distinct xs
    → Distinct (insert np_comp x xs)
unfolding insert Distinct
insert-Distinct x [] h d = (tt, tt)
insert-Distinct x (y ∷ ys) h d = elim (Bool-cases (np_comp y x)) [
  | inl e ↦ rw e (
    insert-All np_comp (λ z. z.index ≢ y.index) x ys (λ p. h.0 (sym p)) d.0,
    insert-Distinct x ys h.1 d.1,
  )
  | inr e ↦ rw e (h, d)
]

pub sort-All : (P : Need → Type 0) (xs : List Need) → All P xs → All P (sort np_comp xs)
unfolding sort
sort-All P [] h = tt
sort-All P (x ∷ xs) h = insert-All np_comp P x (sort np_comp xs) h.0 (sort-All P xs h.1)

pub sort-Distinct : (xs : List Need) → Distinct xs → Distinct (sort np_comp xs)
unfolding sort Distinct
sort-Distinct [] d = tt
sort-Distinct (x ∷ xs) d =
    insert-Distinct x (sort np_comp xs) (sort-All _ xs d.0) (sort-Distinct xs d.1)

-- The entries of index `i` may not be asked for at `now'`.
abbrev pub Taken : ℤ → ℕ → List Need → Type 0
Taken i now' q = All (λ y. y.index ≡ i → judge now' false y ≡ false) q

-- The piece that is chosen is one of the queue.
pub pop_loop-index :
    (n : NeedPiece) (now : ℕ) (game_end : Bool) (q : List Need) (j : ℤ)
    → All (λ y. y.index ≢ j) q
    → (pop_loop n now game_end q).0.1 ≢ []
    → (pop_loop n now game_end q).0.0 ≢ j
pop_loop-index n now game_end [] j h found = absurd (found (unfold pop_loop in refl))
pop_loop-index n now game_end (x ∷ xs) j h found = elim (Bool-cases (available n now game_end x)) [
  | inl a ↦ rw (pop_loop-available n now game_end x xs a) h.0
  | inr a ↦
      let e = pop_loop-other n now game_end x xs a in
      rw e (pop_loop-index n now game_end xs j h.1 (rw e at found))
]

pub pop_loop_taken :
    (n : NeedPiece) (now : ℕ) (q : List Need) (j : ℤ)
    → All (λ y. y.index ≡ j → judge now false y ≡ false) q
    → (pop_loop n now false q).0.1 ≢ []
    → (pop_loop n now false q).0.0 ≢ j
pop_loop_taken n now [] j h found = absurd (found (unfold pop_loop in refl))
pop_loop_taken n now (x ∷ xs) j h found = elim (Bool-cases (available n now false x)) [
  | inl a ↦ rw (pop_loop-available n now false x xs a) (λ same. not_free a (h.0 same))
  | inr a ↦
      let e = pop_loop-other n now false x xs a in
      rw e (pop_loop_taken n now xs j h.1 (rw e at found))
]
  where
    not_free : available n now false x ≡ true → judge now false x ≡ false → ⊥
    not_free a f = unfold available in ground arith

pub lock_read-judge :
    (x : Need) (now now' : ℕ)
    → now < 2 ^ 32
    → now' < now + 120
    → judge now' false (lock_read now x) ≡ false
unfolding judge lock_read
lock_read-judge x now now' fits soon = ground arith

pub pop_loop-Taken :
    (n : NeedPiece) (now now' : ℕ) (game_end : Bool) (q : List Need) (i : ℤ)
    → Distinct q
    → now < 2 ^ 32
    → now' < now + 120
    → (pop_loop n now game_end q).0.1 ≢ []
    → (pop_loop n now game_end q).0.0 ≡ i
    → Taken i now' (pop_loop n now game_end q).1
unfolding pop_loop Distinct
pop_loop-Taken n now now' game_end [] i d fits soon found e = tt
pop_loop-Taken n now now' game_end (x ∷ xs) i d fits soon found e =
    elim (Bool-cases (available n now game_end x)) [
      | inl a ↦
          let out = pop_loop-available n now game_end x xs a in
          let e' : x.index ≡ i = rw out at e in
          rw out (
            (λ same. lock_read-judge x now now' fits soon),
            All-map (λ y differs same. absurd (differs (same ∙ sym e'))) xs d.0,
          )
      | inr a ↦
          let out = pop_loop-other n now game_end x xs a in
          let found' = rw out at found in
          let e' = rw out at e in
          rw out (
            (λ same. absurd (pop_loop-index n now game_end xs x.index d.0 found' (e' ∙ sym same))),
            pop_loop-Taken n now now' game_end xs i d.1 fits soon found' e',
          )
    ]
