-- ===== src/Swarm/DownSpeed/Table.antt =====
-- The queue of DownSpeed as a table from sockets to entries.
use socket_template.Base.{
  ◌≡◌, ◌≢◌, refl, ap, sym, ◌∙◌, true, false, none, some, List, [], ◌∷◌, Bool-cases, inl, inr, ℤ,
  eq_ℤ, eq_ℤ_ne, eq_ℤ_refl, find_key, update_key, erase_key, DistinctKeys, LacksKey,
  LacksKey-find_key, find_key-LacksKey, arith,
}
use socket_template.Swarm.DownSpeed.{Speed, update_first, erase_first, push_back}

unfoldable pub table : List Speed → List (ℤ × Speed)
table [] = []
table (x ∷ xs) = (x.socket, x) ∷ table xs

eq_ℤ_sym : (a b : ℤ) → eq_ℤ a b ≡ eq_ℤ b a
eq_ℤ_sym a b = ground arith

pub table-update_first :
    (f : Speed → Speed)
    → ((x : Speed) → (f x).socket ≡ x.socket)
    → (i : ℤ) (q : List Speed) → table (update_first i f q) ≡ update_key i f (table q)
unfolding table update_first update_key
table-update_first f keeps i [] = refl
table-update_first f keeps i (x ∷ xs) = elim (Bool-cases (eq_ℤ i x.socket)) [
  | inl here ↦
      let here' : eq_ℤ x.socket i ≡ true = eq_ℤ_sym x.socket i ∙ here in
      rw (here, here') (ap (λ (k : ℤ). (k, f x) ∷ table xs) (keeps x))
  | inr away ↦
      let away' : eq_ℤ x.socket i ≡ false = eq_ℤ_sym x.socket i ∙ away in
      rw (away, away', table-update_first f keeps i xs)
]

pub table-erase_first : (i : ℤ) (q : List Speed) → table (erase_first i q) ≡ erase_key i (table q)
unfolding table erase_first erase_key
table-erase_first i [] = refl
table-erase_first i (x ∷ xs) = elim (Bool-cases (eq_ℤ x.socket i)) [
  | inl here ↦ rw here
  | inr away ↦ rw (away, table-erase_first i xs)
]

pub find_key-push_back :
    (x : Speed) (q : List Speed)
    → find_key x.socket (table q) ≡ none
    → find_key x.socket (table (push_back x q)) ≡ some x
unfolding table push_back find_key
find_key-push_back x [] e = rw (eq_ℤ_refl x.socket)
find_key-push_back x (y ∷ ys) e = elim (Bool-cases (eq_ℤ y.socket x.socket)) [
  | inl here ↦ let no : some y ≡ none = rw here at e in ground arith
  | inr away ↦ rw away (find_key-push_back x ys (rw away at e))
]

pub find_key-push_back_ne :
    (x : Speed) (j : ℤ) (q : List Speed)
    → x.socket ≢ j
    → find_key j (table (push_back x q)) ≡ find_key j (table q)
unfolding table push_back find_key
find_key-push_back_ne x j [] ne = rw (eq_ℤ_ne x.socket j ne)
find_key-push_back_ne x j (y ∷ ys) ne = elim (Bool-cases (eq_ℤ y.socket j)) [
  | inl here ↦ rw here
  | inr away ↦ rw (away, find_key-push_back_ne x j ys ne)
]

push_back-LacksKey :
    (x : Speed) (j : ℤ) (q : List Speed)
    → x.socket ≢ j
    → LacksKey j (table q)
    → LacksKey j (table (push_back x q))
unfolding table push_back
push_back-LacksKey x j [] ne h = (ne, tt)
push_back-LacksKey x j (y ∷ ys) ne h = (h.0, push_back-LacksKey x j ys ne h.1)

pub push_back-DistinctKeys :
    (x : Speed) (q : List Speed)
    → find_key x.socket (table q) ≡ none
    → DistinctKeys (table q)
    → DistinctKeys (table (push_back x q))
unfolding table push_back DistinctKeys
push_back-DistinctKeys x [] e d = (tt, tt)
push_back-DistinctKeys x (y ∷ ys) e d =
    let lacks = LacksKey-find_key x.socket (table (y ∷ ys)) e in
    (
      push_back-LacksKey x y.socket ys (λ same. lacks.0 (sym same)) d.0,
      push_back-DistinctKeys x ys (find_key-LacksKey x.socket (table ys) lacks.1) d.1,
    )
