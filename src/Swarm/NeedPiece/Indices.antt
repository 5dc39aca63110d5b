-- ===== src/Swarm/NeedPiece/Indices.antt =====
-- Each piece has one entry in the queue of NeedPiece.
use socket_template.Base.{
  ℕ, ◌≡◌, ◌≢◌, refl, sym, ◌∙◌, Bool, false, some, List, [], ◌∷◌, All, Option-cases, Bool-cases, inl,
  inr, ℤ, pos, negsuc, eq_ℤ, sort, arith,
}
use socket_template.Swarm.NeedPiece.{
  Need, NeedPiece, np_comp, lock_read, pop_loop, pop_need, push_into, push_need, push_needs,
  find_need, erase_index, clear_index, update_index, un_lock_index, clear_status, set_write,
  set_index_w,
}
use socket_template.Swarm.NeedPiece.Locking.{set_index_w-none, set_index_w_held, set_index_w_free}
use socket_template.Swarm.NeedPiece.Pop.{available, pop_loop-available, pop_loop-other}
use socket_template.Swarm.NeedPiece.Pop.Again.{Distinct, sort-Distinct}

abbrev Lacks : ℤ → List Need → Type 0
Lacks j q = All (λ y. y.index ≢ j) q

eq_ℤ_ne : (i j : ℤ) → eq_ℤ i j ≡ false → i ≢ j
eq_ℤ_ne i j e same = ground arith

push_into-Lacks :
    (i j : ℤ) (peer : ℤ × ℤ) (q : List Need) → i ≢ j → Lacks j q → Lacks j (push_into i peer q)
unfolding push_into
push_into-Lacks i j peer [] ne h = (ne, tt)
push_into-Lacks i j peer (x ∷ xs) ne h = elim (Bool-cases (eq_ℤ i x.index)) [
  | inl e ↦ rw e h
  | inr e ↦ rw e (h.0, push_into-Lacks i j peer xs ne h.1)
]

push_into-Distinct :
    (i : ℤ) (peer : ℤ × ℤ) (q : List Need) → Distinct q → Distinct (push_into i peer q)
unfolding push_into Distinct
push_into-Distinct i peer [] d = (tt, tt)
push_into-Distinct i peer (x ∷ xs) d = elim (Bool-cases (eq_ℤ i x.index)) [
  | inl e ↦ rw e d
  | inr e ↦ rw e (
    push_into-Lacks i x.index peer xs (eq_ℤ_ne i x.index e) d.0,
    push_into-Distinct i peer xs d.1,
  )
]

push_need-Distinct :
    (i s id : ℤ) (n : NeedPiece)
    → Distinct n.index_queue
    → Distinct (push_need i s id n).index_queue
unfolding push_need
push_need-Distinct (pos i) s id n d = push_into-Distinct (pos i) (s, id) n.index_queue d
push_need-Distinct (negsuc i) s id n d = d

push_needs-Distinct :
    (is : List ℤ) (s id : ℤ) (n : NeedPiece)
    → Distinct n.index_queue
    → Distinct (push_needs (some is) s id n).index_queue
unfolding push_needs
push_needs-Distinct [] s id n d = d
push_needs-Distinct (i ∷ is) s id n d =
    push_needs-Distinct is s id (push_need i s id n) (push_need-Distinct i s id n d)

erase_index-Lacks : (i j : ℤ) (q : List Need) → Lacks j q → Lacks j (erase_index i q)
unfolding erase_index
erase_index-Lacks i j [] h = tt
erase_index-Lacks i j (x ∷ xs) h = elim (Bool-cases (eq_ℤ i x.index)) [
  | inl e ↦ rw e h.1
  | inr e ↦ rw e (h.0, erase_index-Lacks i j xs h.1)
]

erase_index-Distinct : (i : ℤ) (q : List Need) → Distinct q → Distinct (erase_index i q)
unfolding erase_index Distinct
erase_index-Distinct i [] d = tt
erase_index-Distinct i (x ∷ xs) d = elim (Bool-cases (eq_ℤ i x.index)) [
  | inl e ↦ rw e d.1
  | inr e ↦ rw e (erase_index-Lacks i x.index xs d.0, erase_index-Distinct i xs d.1)
]

-- A change of an entry that keeps its index.
module _ (f : Need → Need) (keeps : (x : Need) → (f x).index ≡ x.index) where
  update_index-Lacks : (i j : ℤ) (q : List Need) → Lacks j q → Lacks j (update_index i f q)
  unfolding update_index
  update_index-Lacks i j [] h = tt
  update_index-Lacks i j (x ∷ xs) h = elim (Bool-cases (eq_ℤ i x.index)) [
    | inl e ↦ rw e ((λ same. h.0 (sym (keeps x) ∙ same)), h.1)
    | inr e ↦ rw e (h.0, update_index-Lacks i j xs h.1)
  ]

  update_index-Distinct : (i : ℤ) (q : List Need) → Distinct q → Distinct (update_index i f q)
  unfolding update_index Distinct
  update_index-Distinct i [] d = tt
  update_index-Distinct i (x ∷ xs) d = elim (Bool-cases (eq_ℤ i x.index)) [
    | inl e ↦ rw (e, keeps x) d
    | inr e ↦ rw e (update_index-Lacks i x.index xs d.0, update_index-Distinct i xs d.1)
  ]

module _ (n : NeedPiece) (now : ℕ) (game_end : Bool) where
  pop_loop-Lacks : (j : ℤ) (q : List Need) → Lacks j q → Lacks j (pop_loop n now game_end q).1
  pop_loop-Lacks j [] h = unfold pop_loop in tt
  pop_loop-Lacks j (x ∷ xs) h = elim (Bool-cases (available n now game_end x)) [
    | inl a ↦ rw (pop_loop-available n now game_end x xs a) (unfold lock_read in h)
    | inr a ↦ rw (pop_loop-other n now game_end x xs a) (h.0, pop_loop-Lacks j xs h.1)
  ]

  pop_loop-Distinct : (q : List Need) → Distinct q → Distinct (pop_loop n now game_end q).1
  unfolding Distinct
  pop_loop-Distinct [] d = unfold pop_loop in tt
  pop_loop-Distinct (x ∷ xs) d = elim (Bool-cases (available n now game_end x)) [
    | inl a ↦ rw (pop_loop-available n now game_end x xs a) (unfold lock_read in d)
    | inr a ↦
        rw (pop_loop-other n now game_end x xs a)
          (pop_loop-Lacks x.index xs d.0, pop_loop-Distinct xs d.1)
  ]

  pop_need-Distinct : Distinct n.index_queue → Distinct (pop_need now game_end n).1.index_queue
  unfolding pop_need
  pop_need-Distinct d =
      pop_loop-Distinct (sort np_comp n.index_queue) (sort-Distinct n.index_queue d)

clear_index-Distinct :
    (n : NeedPiece) (i : ℤ) → Distinct n.index_queue → Distinct (clear_index i n).index_queue
unfolding clear_index
clear_index-Distinct n (pos i) d = erase_index-Distinct (pos i) n.index_queue d
clear_index-Distinct n (negsuc i) d = d

un_lock_index-Distinct :
    (n : NeedPiece) (i : ℤ) → Distinct n.index_queue → Distinct (un_lock_index i n).index_queue
unfolding un_lock_index
un_lock_index-Distinct n (pos i) d =
    update_index-Distinct clear_status (λ x. refl) (pos i) n.index_queue d
un_lock_index-Distinct n (negsuc i) d = d

set_index_w-Distinct :
    (n : NeedPiece) (i : ℤ) → Distinct n.index_queue → Distinct (set_index_w i n).1.index_queue
set_index_w-Distinct n (negsuc i) d = unfold set_index_w in d
set_index_w-Distinct n (pos i) d = elim (Option-cases (find_need (pos i) n.index_queue)) [
  | inl e ↦ rw (set_index_w-none n i e) d
  | inr (x, e) ↦ elim (Bool-cases x.write) [
    | inl w ↦ rw (set_index_w_held n i x e w) d
    | inr w ↦
        rw (set_index_w_free n i x e w)
          (update_index-Distinct set_write (λ x. refl) (pos i) n.index_queue d)
  ]
]

-- Every method that changes the queue of pieces keeps it without a second entry for an index: PushNeed of one index or
-- of several, PopNeed at any time, ClearIndex, UnLockIndex and SetIndexW.
pub need_piece-Distinct :
    (n : NeedPiece)
    → Distinct n.index_queue
    → ((i s id : ℤ) → Distinct (push_need i s id n).index_queue)
      × ((is : List ℤ) (s id : ℤ) → Distinct (push_needs (some is) s id n).index_queue)
      × ((now : ℕ) (game_end : Bool) → Distinct (pop_need now game_end n).1.index_queue)
      × ((i : ℤ) → Distinct (clear_index i n).index_queue)
      × ((i : ℤ) → Distinct (un_lock_index i n).index_queue)
      × ((i : ℤ) → Distinct (set_index_w i n).1.index_queue)
need_piece-Distinct n d = (
  λ i s id. push_need-Distinct i s id n d,
  λ is s id. push_needs-Distinct is s id n d,
  λ now game_end. pop_need-Distinct n now game_end d,
  λ i. clear_index-Distinct n i d,
  λ i. un_lock_index-Distinct n i d,
  λ i. set_index_w-Distinct n i d,
)
