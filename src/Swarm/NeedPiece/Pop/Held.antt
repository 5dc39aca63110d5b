-- ===== src/Swarm/NeedPiece/Pop/Held.antt =====
-- An entry that may not be asked for, under each method of NeedPiece (BitTorrent/CszNeedPiece.cpp).
use socket_template.Base.{
  ℕ, ◌+◌, ◌^◌, ◌<◌, ◌≡◌, ◌≢◌, refl, sym, ◌∙◌, Bool, false, List, [], ◌∷◌, All, All-sort,
  Option-cases, Bool-cases, inl, inr, ℤ, pos, negsuc, eq_ℤ, eq_ℤ_eq, sort, subst, arith,
}
use socket_template.Swarm.NeedPiece as Needs
use socket_template.Swarm.NeedPiece.{
  Need, NeedPiece, np_comp, judge, lock_read, pop_loop, push_into, find_need, erase_index,
  update_index, clear_status, set_write,
}
use socket_template.Swarm.NeedPiece.Locking.{set_index_w-none, set_index_w_held, set_index_w_free}
use socket_template.Swarm.NeedPiece.Pop.{available, pop_loop-available, pop_loop-other}
use socket_template.Swarm.NeedPiece.Pop.Again.{Taken, lock_read-judge, sort-All}

eq_ℤ_ne : (i j : ℤ) → eq_ℤ i j ≡ false → i ≢ j
eq_ℤ_ne i j e same = ground arith

module _ (i : ℤ) (now' : ℕ) where
  abbrev pub Absent : List Need → Type 0
  Absent q = All (λ y. y.index ≢ i) q

  -- The piece has an entry, and none may be asked for at `now'`.
  pub record Held (q : List Need) : Type 0 where
    pub taken : Taken i now' q
    pub present : ¬ Absent q

  push_into_other :
      (j : ℤ) (peer : ℤ × ℤ) (q : List Need)
      → j ≢ i
      → Taken i now' q
      → Taken i now' (push_into j peer q)
  unfolding push_into judge
  push_into_other j peer [] ne h = ((λ same. absurd (ne same)), tt)
  push_into_other j peer (x ∷ xs) ne h = elim (Bool-cases (eq_ℤ j x.index)) [
    | inl e ↦ rw e h
    | inr e ↦ rw e (h.0, push_into_other j peer xs ne h.1)
  ]

  push_into_same :
      (peer : ℤ × ℤ) (q : List Need)
      → Taken i now' q
      → ¬ Absent q
      → Taken i now' (push_into i peer q)
  unfolding push_into judge
  push_into_same peer [] h present = absurd (present tt)
  push_into_same peer (x ∷ xs) h present = elim (Bool-cases (eq_ℤ i x.index)) [
    | inl e ↦ rw e h
    | inr e ↦ rw e (
      h.0,
      push_into_same peer xs h.1 (λ gone. present ((λ same. eq_ℤ_ne i x.index e (sym same)), gone)),
    )
  ]

  push_into-Absent : (j : ℤ) (peer : ℤ × ℤ) (q : List Need) → Absent (push_into j peer q) → Absent q
  unfolding push_into
  push_into-Absent j peer [] h = tt
  push_into-Absent j peer (x ∷ xs) h = elim (Bool-cases (eq_ℤ j x.index)) [
    | inl e ↦ rw e at h
    | inr e ↦ let h' = rw e at h in (h'.0, push_into-Absent j peer xs h'.1)
  ]

  pub push_need-Held :
      (j s id : ℤ) (m : NeedPiece)
      → Held m.index_queue
      → Held (Needs.push_need j s id m).index_queue
  unfolding Needs.push_need
  push_need-Held (negsuc j) s id m h = h
  push_need-Held (pos j) s id m h = record {
    taken = elim (Bool-cases (eq_ℤ (pos j) i)) [
      | inl e ↦
          subst (λ k. Taken i now' (push_into k (s, id) m.index_queue)) (sym (eq_ℤ_eq (pos j) i e))
            (push_into_same (s, id) m.index_queue h.taken h.present)
      | inr e ↦ push_into_other (pos j) (s, id) m.index_queue (eq_ℤ_ne (pos j) i e) h.taken
    ];
    present = λ gone. h.present (push_into-Absent (pos j) (s, id) m.index_queue gone);
  }

  module _ (f : Need → Need) (keeps : (x : Need) → (f x).index ≡ x.index) (j : ℤ)
      (held : (x : Need)
        → x.index ≡ j
        → (x.index ≡ i → judge now' false x ≡ false)
        → x.index ≡ i
        → judge now' false (f x) ≡ false) where
    update_index-Taken : (q : List Need) → Taken i now' q → Taken i now' (update_index j f q)
    unfolding update_index
    update_index-Taken [] h = tt
    update_index-Taken (x ∷ xs) h = elim (Bool-cases (eq_ℤ j x.index)) [
      | inl e ↦ rw e ((λ same. held x (sym (eq_ℤ_eq j x.index e)) h.0 (sym (keeps x) ∙ same)), h.1)
      | inr e ↦ rw e (h.0, update_index-Taken xs h.1)
    ]

    update_index-Absent : (q : List Need) → Absent (update_index j f q) → Absent q
    unfolding update_index
    update_index-Absent [] h = tt
    update_index-Absent (x ∷ xs) h = elim (Bool-cases (eq_ℤ j x.index)) [
      | inl e ↦ let h' = rw e at h in ((λ same. h'.0 (keeps x ∙ same)), h'.1)
      | inr e ↦ let h' = rw e at h in (h'.0, update_index-Absent xs h'.1)
    ]

    update_index-Held : (q : List Need) → Held q → Held (update_index j f q)
    update_index-Held q h = record {
      taken = update_index-Taken q h.taken;
      present = λ gone. h.present (update_index-Absent q gone);
    }

  set_write-judge : (x : Need) → judge now' false x ≡ false → judge now' false (set_write x) ≡ false
  unfolding judge
  set_write-judge x h = ground arith

  pub set_index_w-Held :
      (j : ℤ) (m : NeedPiece) → Held m.index_queue → Held (Needs.set_index_w j m).1.index_queue
  set_index_w-Held (negsuc j) m h = unfold Needs.set_index_w in h
  set_index_w-Held (pos j) m h = elim (Option-cases (find_need (pos j) m.index_queue)) [
    | inl e ↦ rw (set_index_w-none m j e) h
    | inr (x, e) ↦ elim (Bool-cases x.write) [
      | inl w ↦ rw (set_index_w_held m j x e w) h
      | inr w ↦ rw (set_index_w_free m j x e w) (
          update_index-Held set_write (λ x. refl) (pos j)
            (λ x there before same. set_write-judge x (before same)) m.index_queue h)
    ]
  ]

  pub un_lock_index-Held :
      (j : ℤ) (m : NeedPiece)
      → j ≢ i
      → Held m.index_queue
      → Held (Needs.un_lock_index j m).index_queue
  unfolding Needs.un_lock_index
  un_lock_index-Held (negsuc j) m ne h = h
  un_lock_index-Held (pos j) m ne h =
      update_index-Held clear_status (λ x. refl) (pos j)
        (λ x there before same. absurd (ne (sym there ∙ same))) m.index_queue h

  erase_index-Taken : (j : ℤ) (q : List Need) → Taken i now' q → Taken i now' (erase_index j q)
  unfolding erase_index
  erase_index-Taken j [] h = tt
  erase_index-Taken j (x ∷ xs) h = elim (Bool-cases (eq_ℤ j x.index)) [
    | inl e ↦ rw e h.1
    | inr e ↦ rw e (h.0, erase_index-Taken j xs h.1)
  ]

  erase_index-Absent : (j : ℤ) (q : List Need) → j ≢ i → Absent (erase_index j q) → Absent q
  unfolding erase_index
  erase_index-Absent j [] ne h = tt
  erase_index-Absent j (x ∷ xs) ne h = elim (Bool-cases (eq_ℤ j x.index)) [
    | inl e ↦ ((λ same. ne (eq_ℤ_eq j x.index e ∙ same)), rw e at h)
    | inr e ↦ let h' = rw e at h in (h'.0, erase_index-Absent j xs ne h'.1)
  ]

  pub clear_index-Held :
      (j : ℤ) (m : NeedPiece)
      → j ≢ i
      → Held m.index_queue
      → Held (Needs.clear_index j m).index_queue
  unfolding Needs.clear_index
  clear_index-Held (negsuc j) m ne h = h
  clear_index-Held (pos j) m ne h = record {
    taken = erase_index-Taken (pos j) m.index_queue h.taken;
    present = λ gone. h.present (erase_index-Absent (pos j) m.index_queue ne gone);
  }

  module _ (n : NeedPiece) (later : ℕ) (game_end : Bool) where
    pop_loop-kept :
        (q : List Need)
        → later < 2 ^ 32
        → now' < later + 120
        → Taken i now' q
        → Taken i now' (pop_loop n later game_end q).1
    pop_loop-kept [] fits soon h = unfold pop_loop in tt
    pop_loop-kept (x ∷ xs) fits soon h = elim (Bool-cases (available n later game_end x)) [
      | inl a ↦
          rw (pop_loop-available n later game_end x xs a)
            ((λ same. lock_read-judge x later now' fits soon), h.1)
      | inr a ↦ rw (pop_loop-other n later game_end x xs a) (h.0, pop_loop-kept xs fits soon h.1)
    ]

    pub pop_loop-Absent : (q : List Need) → Absent (pop_loop n later game_end q).1 → Absent q
    pop_loop-Absent [] h = tt
    pop_loop-Absent (x ∷ xs) h = elim (Bool-cases (available n later game_end x)) [
      | inl a ↦ unfold lock_read in rw (pop_loop-available n later game_end x xs a) at h
      | inr a ↦
          let h' = rw (pop_loop-other n later game_end x xs a) at h in
          (h'.0, pop_loop-Absent xs h'.1)
    ]

    pub pop_need-Held :
        later < 2 ^ 32
        → now' < later + 120
        → Held n.index_queue
        → Held (Needs.pop_need later game_end n).1.index_queue
    unfolding Needs.pop_need
    pop_need-Held fits soon h = record {
      taken =
          pop_loop-kept (sort np_comp n.index_queue) fits soon (sort-All _ n.index_queue h.taken);
      present = λ gone.
          h.present
            (All-sort np_comp _ n.index_queue (pop_loop-Absent (sort np_comp n.index_queue) gone));
    }
