-- ===== src/Base/Table.antt =====
-- std::unordered_map with integer keys, as an association list: a key is looked up from the front.
use mathlib.Core.Path.{◌≡◌, refl, ap, sym, ◌∙◌}
use mathlib.Core.Logic.{◌≢◌, inl, inr}
use mathlib.Core.Bool.{true, false}
use mathlib.Core.List.{List, [], ◌∷◌}
use mathlib.Core.Option.{Option, none, some}
use native.Mathlib.Omega.{arith}
use socket_template.Base.Tests.{if◌then◌else◌, Bool-cases}
use socket_template.Base.Lists.{All}
use socket_template.Base.Int.{ℤ, pos, negsuc, eq_ℤ}

pub eq_ℤ_ne : (i j : ℤ) → i ≢ j → eq_ℤ i j ≡ false
eq_ℤ_ne (pos a) (pos b) h = elim (Bool-cases (eq_ℤ (pos a) (pos b))) [
  | inl e ↦ let same : a ≡ b = ground arith in absurd (h (ap pos same))
  | inr e ↦ e
]
eq_ℤ_ne (negsuc a) (negsuc b) h = elim (Bool-cases (eq_ℤ (negsuc a) (negsuc b))) [
  | inl e ↦ let same : a ≡ b = ground arith in absurd (h (ap negsuc same))
  | inr e ↦ e
]
eq_ℤ_ne (pos a) (negsuc b) h = refl
eq_ℤ_ne (negsuc a) (pos b) h = refl

pub eq_ℤ_eq : (i j : ℤ) → eq_ℤ i j ≡ true → i ≡ j
eq_ℤ_eq i j h = ground arith

pub eq_ℤ_refl : (i : ℤ) → eq_ℤ i i ≡ true
eq_ℤ_refl i = ground arith

module _ {ℓ} {V : Type ℓ} where
  unfoldable pub find_key : ℤ → List (ℤ × V) → Option V
  find_key i [] = none
  find_key i ((key, value) ∷ rest) = if eq_ℤ key i then some value else find_key i rest

  unfoldable pub update_key : ℤ → (V → V) → List (ℤ × V) → List (ℤ × V)
  update_key i f [] = []
  update_key i f ((key, value) ∷ rest) =
      if eq_ℤ key i then (key, f value) ∷ rest else (key, value) ∷ update_key i f rest

  unfoldable pub erase_key : ℤ → List (ℤ × V) → List (ℤ × V)
  erase_key i [] = []
  erase_key i ((key, value) ∷ rest) = if eq_ℤ key i then rest else (key, value) ∷ erase_key i rest

  -- `emplace` keeps the value of a key that is there.
  unfoldable pub emplace_key : ℤ → V → List (ℤ × V) → List (ℤ × V)
  unfolding find_key
  emplace_key i value q = elim (find_key i q) [ none ↦ (i, value) ∷ q | some old ↦ q ]

  pub find_key-update_key :
      (f : V → V) (i : ℤ) (q : List (ℤ × V)) (x : V)
      → find_key i q ≡ some x
      → find_key i (update_key i f q) ≡ some (f x)
  unfolding find_key update_key
  find_key-update_key f i [] x e = ground arith
  find_key-update_key f i ((key, y) ∷ ys) x e = elim (Bool-cases (eq_ℤ key i)) [
    | inl here ↦
        let there : some y ≡ some x = rw here at e in
        rw (here, here) (ap (λ (o : Option V). elim o [ none ↦ none | some z ↦ some (f z) ]) there)
    | inr away ↦ rw (away, away) (find_key-update_key f i ys x (rw away at e))
  ]

  pub find_key-update_key_ne :
      (f : V → V) (i j : ℤ) (q : List (ℤ × V))
      → i ≢ j
      → find_key j (update_key i f q) ≡ find_key j q
  unfolding find_key update_key
  find_key-update_key_ne f i j [] ne = refl
  find_key-update_key_ne f i j ((key, y) ∷ ys) ne = elim (Bool-cases (eq_ℤ key i)) [
    | inl here ↦
        let other : eq_ℤ key j ≡ false = eq_ℤ_ne key j (λ e. ne (sym (eq_ℤ_eq key i here) ∙ e)) in
        rw (here, other)
    | inr away ↦ rw (away, find_key-update_key_ne f i j ys ne)
  ]

  pub find_key-erase_key_ne :
      (i j : ℤ) (q : List (ℤ × V)) → i ≢ j → find_key j (erase_key i q) ≡ find_key j q
  unfolding find_key erase_key
  find_key-erase_key_ne i j [] ne = refl
  find_key-erase_key_ne i j ((key, y) ∷ ys) ne = elim (Bool-cases (eq_ℤ key i)) [
    | inl here ↦
        let other : eq_ℤ key j ≡ false = eq_ℤ_ne key j (λ e. ne (sym (eq_ℤ_eq key i here) ∙ e)) in
        rw (here, other)
    | inr away ↦ rw (away, find_key-erase_key_ne i j ys ne)
  ]

  -- No key twice.
  abbrev pub LacksKey : ℤ → List (ℤ × V) → Type 0
  LacksKey i q = All (λ e. e.0 ≢ i) q

  unfoldable pub DistinctKeys : List (ℤ × V) → Type 0
  DistinctKeys [] = Unit
  DistinctKeys ((key, value) ∷ rest) = LacksKey key rest × DistinctKeys rest

  pub find_key-LacksKey : (i : ℤ) (q : List (ℤ × V)) → LacksKey i q → find_key i q ≡ none
  unfolding find_key
  find_key-LacksKey i [] h = refl
  find_key-LacksKey i ((key, y) ∷ ys) h = rw (eq_ℤ_ne key i h.0) (find_key-LacksKey i ys h.1)

  pub LacksKey-find_key : (i : ℤ) (q : List (ℤ × V)) → find_key i q ≡ none → LacksKey i q
  unfolding find_key
  LacksKey-find_key i [] e = tt
  LacksKey-find_key i ((key, y) ∷ ys) e = elim (Bool-cases (eq_ℤ key i)) [
    | inl here ↦ let no : some y ≡ none = rw here at e in ground arith
    | inr away ↦ ((λ same. differ away same), LacksKey-find_key i ys (rw away at e))
  ]
    where
      differ : eq_ℤ key i ≡ false → key ≢ i
      differ away same = ground arith

  pub find_key-erase_key :
      (i : ℤ) (q : List (ℤ × V)) → DistinctKeys q → find_key i (erase_key i q) ≡ none
  unfolding find_key erase_key DistinctKeys
  find_key-erase_key i [] d = refl
  find_key-erase_key i ((key, y) ∷ ys) d = elim (Bool-cases (eq_ℤ key i)) [
    | inl here ↦ let same = eq_ℤ_eq key i here in rw here (find_key-LacksKey i ys (rw same at d.0))
    | inr away ↦ rw (away, away) (find_key-erase_key i ys d.1)
  ]

  update_key-LacksKey :
      (f : V → V) (i j : ℤ) (q : List (ℤ × V)) → LacksKey j q → LacksKey j (update_key i f q)
  unfolding update_key
  update_key-LacksKey f i j [] h = tt
  update_key-LacksKey f i j ((key, y) ∷ ys) h = elim (Bool-cases (eq_ℤ key i)) [
    | inl here ↦ rw here h
    | inr away ↦ rw away (h.0, update_key-LacksKey f i j ys h.1)
  ]

  pub update_key-DistinctKeys :
      (f : V → V) (i : ℤ) (q : List (ℤ × V)) → DistinctKeys q → DistinctKeys (update_key i f q)
  unfolding update_key DistinctKeys
  update_key-DistinctKeys f i [] d = tt
  update_key-DistinctKeys f i ((key, y) ∷ ys) d = elim (Bool-cases (eq_ℤ key i)) [
    | inl here ↦ rw here d
    | inr away ↦ rw away (update_key-LacksKey f i key ys d.0, update_key-DistinctKeys f i ys d.1)
  ]

  erase_key-LacksKey : (i j : ℤ) (q : List (ℤ × V)) → LacksKey j q → LacksKey j (erase_key i q)
  unfolding erase_key
  erase_key-LacksKey i j [] h = tt
  erase_key-LacksKey i j ((key, y) ∷ ys) h = elim (Bool-cases (eq_ℤ key i)) [
    | inl here ↦ rw here h.1
    | inr away ↦ rw away (h.0, erase_key-LacksKey i j ys h.1)
  ]

  pub erase_key-DistinctKeys :
      (i : ℤ) (q : List (ℤ × V)) → DistinctKeys q → DistinctKeys (erase_key i q)
  unfolding erase_key DistinctKeys
  erase_key-DistinctKeys i [] d = tt
  erase_key-DistinctKeys i ((key, y) ∷ ys) d = elim (Bool-cases (eq_ℤ key i)) [
    | inl here ↦ rw here d.1
    | inr away ↦ rw away (erase_key-LacksKey i key ys d.0, erase_key-DistinctKeys i ys d.1)
  ]

  pub emplace_key_new :
      (i : ℤ) (x : V) (q : List (ℤ × V)) → find_key i q ≡ none → emplace_key i x q ≡ (i, x) ∷ q
  unfolding emplace_key
  emplace_key_new i x q e = rw (emplace_key, e)

  pub cons-DistinctKeys :
      (i : ℤ) (x : V) (q : List (ℤ × V))
      → find_key i q ≡ none
      → DistinctKeys q
      → DistinctKeys ((i, x) ∷ q)
  unfolding DistinctKeys
  cons-DistinctKeys i x q e d = (LacksKey-find_key i q e, d)

  pub find_key-cons : (i : ℤ) (x : V) (q : List (ℤ × V)) → find_key i ((i, x) ∷ q) ≡ some x
  unfolding find_key
  find_key-cons i x q = rw (eq_ℤ_refl i)

  pub find_key-cons_ne :
      (i j : ℤ) (x : V) (q : List (ℤ × V)) → i ≢ j → find_key j ((i, x) ∷ q) ≡ find_key j q
  unfolding find_key
  find_key-cons_ne i j x q ne = rw (eq_ℤ_ne i j ne)

  pub find_key-update_key-none :
      (f : V → V) (i j : ℤ) (q : List (ℤ × V))
      → find_key j q ≡ none
      → find_key j (update_key i f q) ≡ none
  unfolding find_key update_key
  find_key-update_key-none f i j [] e = refl
  find_key-update_key-none f i j ((key, y) ∷ ys) e = elim (Bool-cases (eq_ℤ key j)) [
    | inl here ↦ let no : some y ≡ none = rw here at e in ground arith
    | inr away ↦ elim (Bool-cases (eq_ℤ key i)) [
      | inl here ↦ rw (here, away) (rw away at e)
      | inr other ↦ rw (other, away) (find_key-update_key-none f i j ys (rw away at e))
    ]
  ]
