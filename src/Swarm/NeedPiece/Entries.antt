-- ===== src/Swarm/NeedPiece/Entries.antt =====
-- What the methods of NeedPiece (BitTorrent/CszNeedPiece.cpp) leave of the indices in the queue of pieces.
use socket_template.Base.{
  ℕ, ◌≡◌, refl, Bool, true, false, none, some, Option-cases, List, [], ◌∷◌, All, Bool-cases,
  find_key, update_key, erase_key, eq_ℤ_eq, ◌≢◌, map, subst, inl, inr, ℤ, pos, negsuc, eq_ℤ, sort,
  wrlock, arith,
}
use socket_template.Swarm.{PeerStatus}
use socket_template.Swarm.NeedPiece.{
  Need, NeedPiece, np_comp, lock_read, pop_loop, pop_need, push_into, push_need, push_needs,
  find_need, erase_index, clear_index, update_index, un_lock_index, clear_status, set_write,
  set_index_w, with_wrlock, set_status, am_interested, pr_choke, pr_interested, pr_un_interested,
  pr_un_choke, clear_socket,
}
use socket_template.Swarm.NeedPiece.Locking.{set_index_w-none, set_index_w_held, set_index_w_free}
use socket_template.Swarm.NeedPiece.Pop.{available, pop_loop-available, pop_loop-other}
use socket_template.Swarm.NeedPiece.Pop.Again.{Distinct, sort-All}

-- Every index of the queue has the property.
module _ (P : ℤ → Type 0) where
  abbrev pub Entries : List Need → Type 0
  Entries q = All (λ x. P x.index) q

  push_into-Entries :
      (i : ℤ) (peer : ℤ × ℤ) (q : List Need) → P i → Entries q → Entries (push_into i peer q)
  unfolding push_into
  push_into-Entries i peer [] p h = (p, tt)
  push_into-Entries i peer (x ∷ xs) p h = elim (Bool-cases (eq_ℤ i x.index)) [
    | inl e ↦ rw e h
    | inr e ↦ rw e (h.0, push_into-Entries i peer xs p h.1)
  ]

  pub push_need-Entries :
      (i : ℕ) (s id : ℤ) (n : NeedPiece)
      → P (pos i)
      → Entries n.index_queue
      → Entries (push_need (pos i) s id n).index_queue
  unfolding push_need
  push_need-Entries i s id n p h = push_into-Entries (pos i) (s, id) n.index_queue p h

  pub push_needs-Entries :
      (is : List ℕ) (s id : ℤ) (n : NeedPiece)
      → All (λ i. P (pos i)) is
      → Entries n.index_queue
      → Entries (push_needs (some (map pos is)) s id n).index_queue
  unfolding push_needs
  push_needs-Entries [] s id n p h = h
  push_needs-Entries (i ∷ is) s id n p h =
      push_needs-Entries is s id (push_need (pos i) s id n) p.1 (push_need-Entries i s id n p.0 h)

  update_index-Entries :
      (f : Need → Need) (i : ℤ) (q : List Need)
      → ((x : Need) → (f x).index ≡ x.index)
      → Entries q
      → Entries (update_index i f q)
  unfolding update_index
  update_index-Entries f i [] keeps h = tt
  update_index-Entries f i (x ∷ xs) keeps h = elim (Bool-cases (eq_ℤ i x.index)) [
    | inl e ↦ rw e (rw (keeps x) h.0, h.1)
    | inr e ↦ rw e (h.0, update_index-Entries f i xs keeps h.1)
  ]

  pub un_lock_index-Entries :
      (n : NeedPiece) (i : ℤ) → Entries n.index_queue → Entries (un_lock_index i n).index_queue
  unfolding un_lock_index
  un_lock_index-Entries n (pos i) h =
      update_index-Entries clear_status (pos i) n.index_queue (λ x. refl) h
  un_lock_index-Entries n (negsuc i) h = h

  pub set_index_w-Entries :
      (n : NeedPiece) (i : ℤ) → Entries n.index_queue → Entries (set_index_w i n).1.index_queue
  set_index_w-Entries n (negsuc i) h = unfold set_index_w in h
  set_index_w-Entries n (pos i) h = elim (Option-cases (find_need (pos i) n.index_queue)) [
    | inl e ↦ rw (set_index_w-none n i e) h
    | inr (x, e) ↦ elim (Bool-cases x.write) [
      | inl w ↦ rw (set_index_w_held n i x e w) h
      | inr w ↦
          rw (set_index_w_free n i x e w)
            (update_index-Entries set_write (pos i) n.index_queue (λ x. refl) h)
    ]
  ]

  pop_loop-Entries :
      (n : NeedPiece) (now : ℕ) (game_end : Bool) (q : List Need)
      → Entries q
      → Entries (pop_loop n now game_end q).1
  pop_loop-Entries n now game_end [] h = unfold pop_loop in tt
  pop_loop-Entries n now game_end (x ∷ xs) h = elim (Bool-cases (available n now game_end x)) [
    | inl a ↦ rw (pop_loop-available n now game_end x xs a) (unfold lock_read in h)
    | inr a ↦
        rw (pop_loop-other n now game_end x xs a) (h.0, pop_loop-Entries n now game_end xs h.1)
  ]

  pub pop_need-Entries :
      (n : NeedPiece) (now : ℕ) (game_end : Bool)
      → Entries n.index_queue
      → Entries (pop_need now game_end n).1.index_queue
  unfolding pop_need
  pop_need-Entries n now game_end h =
      pop_loop-Entries n now game_end (sort np_comp n.index_queue) (sort-All _ n.index_queue h)

  -- Nothing is found under an index without the property.
  pub find_need-Entries : (i : ℤ) (q : List Need) → (P i → ⊥) → Entries q → find_need i q ≡ none
  unfolding find_need
  find_need-Entries i [] p h = refl
  find_need-Entries i (x ∷ xs) p h = elim (Bool-cases (eq_ℤ x.index i)) [
    | inl e ↦ absurd (p (subst P (eq_ℤ_eq x.index i e) h.0))
    | inr e ↦ rw e (find_need-Entries i xs p h.1)
  ]

-- What ClearIndex leaves has another index.
module _ (P R : ℤ → Type 0) (i : ℕ) (still : (j : ℤ) → j ≢ pos i → P j → R j) where
  others-Entries : (q : List Need) → All (λ y. y.index ≢ pos i) q → Entries P q → Entries R q
  others-Entries [] d h = tt
  others-Entries (x ∷ xs) d h = (still x.index d.0 h.0, others-Entries xs d.1 h.1)

  erase_index-Entries :
      (q : List Need) → Distinct q → Entries P q → Entries R (erase_index (pos i) q)
  unfolding erase_index Distinct
  erase_index-Entries [] d h = tt
  erase_index-Entries (x ∷ xs) d h = elim (Bool-cases (eq_ℤ (pos i) x.index)) [
    | inl e ↦
        let same = eq_ℤ_eq (pos i) x.index e in rw e (others-Entries xs (rw (← same) at d.0) h.1)
    | inr e ↦
        rw e (still x.index (λ same. differ x.index e same) h.0, erase_index-Entries xs d.1 h.1)
  ]
    where
      differ : (j : ℤ) → eq_ℤ (pos i) j ≡ false → j ≡ pos i → ⊥
      differ j e same = ground arith

  pub clear_index-Entries :
      (n : NeedPiece)
      → Distinct n.index_queue
      → Entries P n.index_queue
      → Entries R (clear_index (pos i) n).index_queue
  unfolding clear_index
  clear_index-Entries n d h = erase_index-Entries n.index_queue d h

-- The methods on the ids leave the queue of pieces alone.
abbrev pub KeepsQueue : (ℤ → NeedPiece → NeedPiece) → Type 0
KeepsQueue f = (id : ℤ) (n : NeedPiece) → (f id n).index_queue ≡ n.index_queue

with_wrlock-queue :
    (change : List (ℤ × PeerStatus) → List (ℤ × PeerStatus)) (n : NeedPiece)
    → (with_wrlock change n).index_queue ≡ n.index_queue
unfolding with_wrlock
with_wrlock-queue change n = elim (Option-cases (wrlock n.id_lock)) [
  | inl e ↦ rw (with_wrlock, e)
  | inr (held, e) ↦ rw (with_wrlock, e)
]

set_status-KeepsQueue : (f : PeerStatus → PeerStatus) → KeepsQueue (λ id n. set_status id f n)
unfolding set_status
set_status-KeepsQueue f id n = with_wrlock-queue (update_key id f) n

pub clear_socket-KeepsQueue : KeepsQueue clear_socket
unfolding clear_socket
clear_socket-KeepsQueue id n = with_wrlock-queue (erase_key id) n

pub am_interested-KeepsQueue : KeepsQueue am_interested
unfolding am_interested
am_interested-KeepsQueue id n = set_status-KeepsQueue (λ s. record s { am_interested = true }) id n

pub pr_choke-KeepsQueue : KeepsQueue pr_choke
unfolding pr_choke
pr_choke-KeepsQueue id n = set_status-KeepsQueue (λ s. record s { peer_choke = true }) id n

pub pr_interested-KeepsQueue : KeepsQueue pr_interested
unfolding pr_interested
pr_interested-KeepsQueue id n =
    set_status-KeepsQueue (λ s. record s { peer_interested = true }) id n

pub pr_un_interested-KeepsQueue : KeepsQueue pr_un_interested
unfolding pr_un_interested
pr_un_interested-KeepsQueue id n =
    set_status-KeepsQueue (λ s. record s { peer_interested = false }) id n

pub pr_un_choke-KeepsQueue : KeepsQueue (λ id n. (pr_un_choke id n).1)
unfolding pr_un_choke
pr_un_choke-KeepsQueue id n = elim (Option-cases (wrlock n.id_lock)) [
  | inl e ↦ rw (pr_un_choke, e)
  | inr (held, e) ↦ elim (Option-cases (find_key id n.id_queue)) [
    | inl lost ↦ rw (pr_un_choke, e, lost)
    | inr (t, there) ↦ rw (pr_un_choke, e, there)
  ]
]
