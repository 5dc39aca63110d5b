-- ===== src/Swarm/NeedPiece/Locking/Owned.antt =====
-- A write bit that SetIndexW gave, through the calls of NeedPiece that follow (BitTorrent/CszNeedPiece.cpp).
use socket_template.Base.{
  ℕ, ◌≡◌, ◌≢◌, refl, sym, ap, ◌∙◌, true, false, none, some, List, [], ◌∷◌, Option-cases, Bool-cases,
  inl, inr, ℤ, pos, negsuc, eq_ℤ, eq_ℤ_eq, arith,
}
use socket_template.Swarm.NeedPiece as Needs
use socket_template.Swarm.NeedPiece.{
  Need, NeedPiece, push_pair, push_into, find_need, erase_index, update_index, clear_status,
  set_write,
}
use socket_template.Swarm.NeedPiece.Locking.{
  find_need-update_index, set_index_w-none, set_index_w_held, set_index_w_free,
}

-- The calls after SetIndexW of `i`, without PopNeed and without UnLockIndex and ClearIndex of `i`. What changes the peers alone leaves
-- the queue of pieces as it is.
pub data Owned (i : ℤ) (n : NeedPiece) : NeedPiece → Type 0 where
  here : Owned i n n
  peers : (m m' : NeedPiece) → m'.index_queue ≡ m.index_queue → Owned i n m → Owned i n m'
  push_need : (j s id : ℤ) (m : NeedPiece) → Owned i n m → Owned i n (Needs.push_need j s id m)
  set_index_w : (j : ℤ) (m : NeedPiece) → Owned i n m → Owned i n (Needs.set_index_w j m).1
  un_lock_index :
      (j : ℤ) (m : NeedPiece) → j ≢ i → Owned i n m → Owned i n (Needs.un_lock_index j m)
  clear_index : (j : ℤ) (m : NeedPiece) → j ≢ i → Owned i n m → Owned i n (Needs.clear_index j m)

module _ (i : ℤ) where
  abbrev HasWrite : List Need → Type 0
  HasWrite q = (x : Need) × (find_need i q ≡ some x) × (x.write ≡ true)

  write_of : (x y : Need) → some y ≡ some x → x.write ≡ true → y.write ≡ true
  write_of x y e w = ground arith

  push_into-HasWrite :
      (j : ℤ) (peer : ℤ × ℤ) (q : List Need) → HasWrite q → HasWrite (push_into j peer q)
  unfolding push_into find_need
  push_into-HasWrite j peer [] (x, e, w) = let no : none ≡ some x = e in absurd (ground arith)
  push_into-HasWrite j peer (y ∷ ys) (x, e, w) = elim (Bool-cases (eq_ℤ j y.index)) [
    | inl same ↦ elim (Bool-cases (eq_ℤ y.index i)) [
      | inl found ↦
          rw same
            (record y { queue = push_pair peer y.queue }, rw found, write_of x y (rw found at e) w)
      | inr away ↦ rw same (x, rw away (rw away at e), w)
    ]
    | inr other ↦ elim (Bool-cases (eq_ℤ y.index i)) [
      | inl found ↦ rw other (y, rw found, write_of x y (rw found at e) w)
      | inr away ↦
          let (z, e', w') = push_into-HasWrite j peer ys (x, rw away at e, w) in
          rw other (z, rw away e', w')
    ]
  ]

  update_index-HasWrite :
      (f : Need → Need) (j : ℤ) (q : List Need)
      → ((x : Need) → (f x).index ≡ x.index)
      → ((x : Need) → x.index ≡ j → x.index ≡ i → x.write ≡ true → (f x).write ≡ true)
      → HasWrite q
      → HasWrite (update_index j f q)
  unfolding update_index find_need
  update_index-HasWrite f j [] keeps writes (x, e, w) =
      let no : none ≡ some x = e in absurd (ground arith)
  update_index-HasWrite f j (y ∷ ys) keeps writes (x, e, w) = elim (Bool-cases (eq_ℤ j y.index)) [
    | inl same ↦ elim (Bool-cases (eq_ℤ y.index i)) [
      | inl found ↦
          let at_i : eq_ℤ (f y).index i ≡ true = ap (λ k. eq_ℤ k i) (keeps y) ∙ found in
          rw same (
            f y,
            rw at_i,
            writes y (sym (eq_ℤ_eq j y.index same)) (eq_ℤ_eq y.index i found)
                (write_of x y (rw found at e) w),
          )
      | inr away ↦
          let not_i : eq_ℤ (f y).index i ≡ false = ap (λ k. eq_ℤ k i) (keeps y) ∙ away in
          rw same (x, rw not_i (rw away at e), w)
    ]
    | inr other ↦ elim (Bool-cases (eq_ℤ y.index i)) [
      | inl found ↦ rw other (y, rw found, write_of x y (rw found at e) w)
      | inr away ↦
          let (z, e', w') = update_index-HasWrite f j ys keeps writes (x, rw away at e, w) in
          rw other (z, rw away e', w')
    ]
  ]

  erase_index-HasWrite : (j : ℤ) (q : List Need) → j ≢ i → HasWrite q → HasWrite (erase_index j q)
  unfolding erase_index find_need
  erase_index-HasWrite j [] ne (x, e, w) = let no : none ≡ some x = e in absurd (ground arith)
  erase_index-HasWrite j (y ∷ ys) ne (x, e, w) = elim (Bool-cases (eq_ℤ y.index i)) [
    | inl found ↦ elim (Bool-cases (eq_ℤ j y.index)) [
      | inl same ↦ absurd (ne (eq_ℤ_eq j y.index same ∙ eq_ℤ_eq y.index i found))
      | inr other ↦ rw other (y, rw found, write_of x y (rw found at e) w)
    ]
    | inr away ↦ elim (Bool-cases (eq_ℤ j y.index)) [
      | inl same ↦ rw same (x, rw away at e, w)
      | inr other ↦
          let (z, e', w') = erase_index-HasWrite j ys ne (x, rw away at e, w) in
          rw other (z, rw away e', w')
    ]
  ]

  set_index_w-HasWrite :
      (j : ℤ) (m : NeedPiece)
      → HasWrite m.index_queue
      → HasWrite (Needs.set_index_w j m).1.index_queue
  set_index_w-HasWrite (negsuc j) m h = unfold Needs.set_index_w in h
  set_index_w-HasWrite (pos j) m h = elim (Option-cases (find_need (pos j) m.index_queue)) [
    | inl e ↦ rw (set_index_w-none m j e) h
    | inr (x, e) ↦ elim (Bool-cases x.write) [
      | inl w ↦ rw (set_index_w_held m j x e w) h
      | inr w ↦
          rw (set_index_w_free m j x e w)
            (update_index-HasWrite set_write (pos j) m.index_queue (λ x. refl) (λ x a b c. refl) h)
    ]
  ]

  Owned-HasWrite : (n m : NeedPiece) → HasWrite n.index_queue → Owned i n m → HasWrite m.index_queue
  unfolding Needs.push_need Needs.un_lock_index Needs.clear_index
  Owned-HasWrite n m h here = h
  Owned-HasWrite n m h (peers k _ same b) = rw same (Owned-HasWrite n k h b)
  Owned-HasWrite n m h (push_need (pos j) s id k b) =
      push_into-HasWrite (pos j) (s, id) k.index_queue (Owned-HasWrite n k h b)
  Owned-HasWrite n m h (push_need (negsuc j) s id k b) = Owned-HasWrite n k h b
  Owned-HasWrite n m h (set_index_w j k b) = set_index_w-HasWrite j k (Owned-HasWrite n k h b)
  Owned-HasWrite n m h (un_lock_index (pos j) k ne b) =
      update_index-HasWrite clear_status (pos j) k.index_queue (λ x. refl)
        (λ x at_j at_i w. absurd (ne (sym at_j ∙ at_i))) (Owned-HasWrite n k h b)
  Owned-HasWrite n m h (un_lock_index (negsuc j) k ne b) = Owned-HasWrite n k h b
  Owned-HasWrite n m h (clear_index (pos j) k ne b) =
      erase_index-HasWrite (pos j) k.index_queue ne (Owned-HasWrite n k h b)
  Owned-HasWrite n m h (clear_index (negsuc j) k ne b) = Owned-HasWrite n k h b

taken-HasWrite :
    (n : NeedPiece) (i : ℕ)
    → (Needs.set_index_w (pos i) n).0 ≡ true
    → HasWrite (pos i) (Needs.set_index_w (pos i) n).1.index_queue
taken-HasWrite n i answered = elim (Option-cases (find_need (pos i) n.index_queue)) [
  | inl e ↦ absurd (refused (set_index_w-none n i e))
  | inr (x, e) ↦ elim (Bool-cases x.write) [
    | inl w ↦ absurd (refused (set_index_w_held n i x e w))
    | inr w ↦
        rw (set_index_w_free n i x e w) (
          set_write x,
          find_need-update_index set_write (λ x. refl) (pos i) n.index_queue x e,
          refl,
        )
  ]
]
  where
    refused : Needs.set_index_w (pos i) n ≡ (false, n) → ⊥
    refused e = let h = rw e at answered in ground arith

-- When SetIndexW of a piece answered yes, it answers no after any calls of PushNeed and SetIndexW, and of UnLockIndex and
-- ClearIndex for other pieces, whatever happens to the peers in between; and when UnLockIndex of that piece comes behind these, SetIndexW answers yes
-- again. PopNeed is not among these calls: it may take the bit away.
pub set_index_w-Owned :
    (n m : NeedPiece) (i : ℤ)
    → (Needs.set_index_w i n).0 ≡ true
    → Owned i (Needs.set_index_w i n).1 m
    → ((Needs.set_index_w i m).0 ≡ false)
      × ((Needs.set_index_w i (Needs.un_lock_index i m)).0 ≡ true)
set_index_w-Owned n m (negsuc i) answered owned = absurd (unfold Needs.set_index_w in ground arith)
set_index_w-Owned n m (pos i) answered owned =
    let (x, e, w) = Owned-HasWrite (pos i) _ m (taken-HasWrite n i answered) owned in
    let freed = find_need-update_index clear_status (λ x. refl) (pos i) _ _ e in
    (
      ap (λ r. r.0) (set_index_w_held m i x e w),
      (unfold Needs.un_lock_index in
          ap (λ r. r.0)
            (set_index_w_free (Needs.un_lock_index (pos i) m) i (clear_status x) freed refl)),
    )
