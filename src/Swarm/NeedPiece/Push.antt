-- ===== src/Swarm/NeedPiece/Push.antt =====
-- What PushNeed of BitTorrent/CszNeedPiece.cpp leaves for an index.
use socket_template.Base.{
  ℕ, ◌≡◌, ◌⊎◌, refl, ◌∙◌, true, false, some, Bool-cases, inl, inr, List, [], ◌∷◌, ℤ, pos, eq_ℤ,
  eq_ℤ_refl, arith,
}
use socket_template.Swarm.NeedPiece.{Need, NeedPiece, push_pair, push_into, push_need, find_need}

-- A socket with its id is in the queue of a piece.
abbrev pub Has : ℤ × ℤ → List (ℤ × ℤ) → Type 0
Has peer [] = ⊥
Has peer (x ∷ xs) = (peer ≡ x) ⊎ Has peer xs

push_pair-Has : (peer : ℤ × ℤ) (q : List (ℤ × ℤ)) → Has peer (push_pair peer q)
unfolding push_pair
push_pair-Has peer [] = inl refl
push_pair-Has peer (x ∷ xs) = inr (push_pair-Has peer xs)

eq_ℤ_sym : (a b : ℤ) → eq_ℤ a b ≡ eq_ℤ b a
eq_ℤ_sym a b = ground arith

push_into-Has :
    (index : ℤ) (peer : ℤ × ℤ) (q : List Need)
    → (x : Need) × (find_need index (push_into index peer q) ≡ some x) × Has peer x.queue
unfolding push_into find_need
push_into-Has index peer [] =
    let x : Need = record {
      index = index;
      read = false;
      write = false;
      expire = 0;
      queue = peer ∷ [];
    } in
    (x, rw (eq_ℤ_refl index) refl, inl refl)
push_into-Has index peer (x ∷ xs) = elim (Bool-cases (eq_ℤ index x.index)) [
  | inl here ↦
      let back : eq_ℤ x.index index ≡ true = eq_ℤ_sym x.index index ∙ here in
      (
        record x { queue = push_pair peer x.queue },
        rw (here, back) refl,
        push_pair-Has peer x.queue,
      )
  | inr away ↦
      let back : eq_ℤ x.index index ≡ false = eq_ℤ_sym x.index index ∙ away in
      let (y, found, has) = push_into-Has index peer xs in (y, rw (away, back) found, has)
]

pub push_need-Has :
    (n : ℕ) (socket id : ℤ) (needs : NeedPiece)
    → (x : Need) × (find_need (pos n) (push_need (pos n) socket id needs).index_queue ≡ some x)
      × Has (socket, id) x.queue
unfolding push_need
push_need-Has n socket id needs = push_into-Has (pos n) (socket, id) needs.index_queue
