-- ===== src/Swarm/NeedPiece/Locking.antt =====
-- The write bit of a piece, and the lock of the table of ids.
pub mod Owned
use socket_template.Base.{
  ℕ, ◌≡◌, refl, ap, ◌∙◌, Bool, true, false, Option, none, some, Option-cases, List, [], ◌∷◌,
  Bool-cases, inl, inr, ℤ, pos, negsuc, eq_ℤ, unlocked, reading, arith,
}
use socket_template.Swarm.NeedPiece.{
  Need, NeedPiece, judge, empty, socket_map_id, clear_socket, am_un_choke, pr_choke, pr_un_choke,
  pr_interested, find_need, update_index, un_lock_index, clear_status, set_write, set_index_w,
}

pub eq_ℤ_sym : (a b : ℤ) → eq_ℤ a b ≡ eq_ℤ b a
eq_ℤ_sym a b = ground arith

-- What is found after an update that keeps the index.
module _ (f : Need → Need) (keeps : (x : Need) → (f x).index ≡ x.index) where
  pub find_need-update_index :
      (i : ℤ) (q : List Need) (x : Need)
      → find_need i q ≡ some x
      → find_need i (update_index i f q) ≡ some (f x)
  unfolding find_need update_index
  find_need-update_index i [] x e = ground arith
  find_need-update_index i (y ∷ ys) x e = elim (Bool-cases (eq_ℤ y.index i)) [
    | inl here ↦
        let here' : eq_ℤ i y.index ≡ true = eq_ℤ_sym i y.index ∙ here in
        let there : some y ≡ some x = rw here at e in
        let here'' : eq_ℤ (f y).index i ≡ true = ap (λ j. eq_ℤ j i) (keeps y) ∙ here in
        rw (here', here'')
          (ap (λ (o : Option Need). elim o [ none ↦ none | some z ↦ some (f z) ]) there)
    | inr away ↦
        let away' : eq_ℤ i y.index ≡ false = eq_ℤ_sym i y.index ∙ away in
        rw (away', away) (find_need-update_index i ys x (rw away at e))
  ]

-- The three answers of SetIndexW.
module _ (n : NeedPiece) (i : ℕ) where
  pub set_index_w-none : find_need (pos i) n.index_queue ≡ none → set_index_w (pos i) n ≡ (false, n)
  unfolding set_index_w
  set_index_w-none e = rw (set_index_w, e)

  pub set_index_w_held :
      (x : Need)
      → find_need (pos i) n.index_queue ≡ some x
      → x.write ≡ true
      → set_index_w (pos i) n ≡ (false, n)
  unfolding set_index_w
  set_index_w_held x e w = rw (set_index_w, e, w)

  pub set_index_w_free :
      (x : Need)
      → find_need (pos i) n.index_queue ≡ some x
      → x.write ≡ false
      → set_index_w (pos i) n
        ≡ (true, record n { index_queue = update_index (pos i) set_write n.index_queue })
  unfolding set_index_w
  set_index_w_free x e w = rw (set_index_w, e, w)

-- Nobody has the write bit of the piece.
abbrev pub Unlocked : ℕ → List Need → Type 0
Unlocked i q = (x : Need) → find_need (pos i) q ≡ some x → x.write ≡ false

-- Nobody has been asked for it either.
abbrev pub Free : ℕ → List Need → Type 0
Free i q = (x : Need) → find_need (pos i) q ≡ some x → (x.read ≡ false) × (x.write ≡ false)

update_index-Free : (i : ℕ) (q : List Need) → Free i (update_index (pos i) clear_status q)
unfolding find_need update_index
update_index-Free i [] x e = let no : none ≡ some x = e in absurd (ground arith)
update_index-Free i (y ∷ ys) x e = elim (Bool-cases (eq_ℤ y.index (pos i))) [
  | inl here ↦
      let here' : eq_ℤ (pos i) y.index ≡ true = eq_ℤ_sym (pos i) y.index ∙ here in
      let found : some (clear_status y) ≡ some x = rw (here', here) at e in
      (ground arith, ground arith)
  | inr away ↦
      let away' : eq_ℤ (pos i) y.index ≡ false = eq_ℤ_sym (pos i) y.index ∙ away in
      update_index-Free i ys x (rw (away', away) at e)
]

pub un_lock_index-Free : (i : ℕ) (n : NeedPiece) → Free i (un_lock_index (pos i) n).index_queue
unfolding un_lock_index
un_lock_index-Free i n = update_index-Free i n.index_queue

pub judge-Free :
    (i : ℕ) (q : List Need) (x : Need)
    → Free i q
    → find_need (pos i) q ≡ some x
    → (now : ℕ) (game_end : Bool) → judge now game_end x ≡ true
unfolding judge
judge-Free i q x free e now game_end = rw ((free x e).0)

-- Empty leaves the table of ids locked for reading: afterwards no peer is added or removed and no status changes.
pub empty_lock :
    (n : NeedPiece)
    → n.id_lock ≡ unlocked
    → (n' : NeedPiece) × ((empty n).1 ≡ n')
      × ((id : ℤ) → socket_map_id id n' ≡ n')
      × ((id : ℤ) → clear_socket id n' ≡ n')
      × ((id : ℤ) → am_un_choke id n' ≡ n')
      × ((id : ℤ) → pr_choke id n' ≡ n')
      × ((id : ℤ) → pr_un_choke id n' ≡ (false, n'))
      × ((id : ℤ) → pr_interested id n' ≡ n')
unfolding empty socket_map_id clear_socket am_un_choke pr_choke pr_un_choke pr_interested
empty_lock n free = (
  record n { id_lock = reading 0 },
  rw free,
  λ id. refl,
  λ id. refl,
  λ id. refl,
  λ id. refl,
  λ id. refl,
  λ id. refl,
)
