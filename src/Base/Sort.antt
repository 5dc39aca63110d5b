-- ===== src/Base/Sort.antt =====
-- std::list::sort: stable, with the comparison that it is given.
use mathlib.Core.Path.{◌≡◌}
use mathlib.Core.Logic.{inl, inr}
use mathlib.Core.Bool.{Bool, true, false}
use mathlib.Core.List.{List, [], ◌∷◌, Perm}
use mathlib.Core.List.Perm
use socket_template.Base.Tests.{if◌then◌else◌, Bool-cases}
use socket_template.Base.Lists.{All, All-map, filter}

module _ {ℓ} {A : Type ℓ} (before : A → A → Bool) where
  unfoldable pub insert : A → List A → List A
  insert x [] = x ∷ []
  insert x (y ∷ ys) = if before y x then y ∷ insert x ys else x ∷ y ∷ ys

  unfoldable pub sort : List A → List A
  unfolding insert
  sort [] = []
  sort (x ∷ xs) = insert x (sort xs)

  -- Nobody stands in front of one who comes first in the order.
  unfoldable pub Sorted : List A → Type ℓ
  Sorted [] = Unit
  Sorted (x ∷ xs) = All (λ y. before y x ≡ false) xs × Sorted xs

  pub insert-All {κ} : (P : A → Type κ) (x : A) (xs : List A) → P x → All P xs → All P (insert x xs)
  unfolding insert
  insert-All P x [] p ps = (p, tt)
  insert-All P x (y ∷ ys) p ps = elim (Bool-cases (before y x)) [
    | inl e ↦ rw e (ps.0, insert-All P x ys p ps.1)
    | inr e ↦ rw e (p, (ps.0, ps.1))
  ]

  cons_if :
      (b : Bool) (x : A) (xs ys : List A)
      → Perm xs ys
      → Perm (if b then x ∷ xs else xs) (if b then x ∷ ys else ys)
  cons_if true x xs ys h = Perm.cons x h
  cons_if false x xs ys h = h

  swap_if :
      (a b : Bool) (x y : A) (ys : List A)
      → Perm
          (if b then y ∷ (if a then x ∷ ys else ys) else (if a then x ∷ ys else ys))
          (if a then x ∷ (if b then y ∷ ys else ys) else (if b then y ∷ ys else ys))
  swap_if true true x y ys = Perm.swap x y ys
  swap_if true false x y ys = Perm.refl _
  swap_if false true x y ys = Perm.refl _
  swap_if false false x y ys = Perm.refl _

  filter-insert-Perm :
      (p : A → Bool) (x : A) (xs : List A) → Perm (filter p (insert x xs)) (filter p (x ∷ xs))
  unfolding insert
  filter-insert-Perm p x [] = Perm.refl _
  filter-insert-Perm p x (y ∷ ys) = elim (Bool-cases (before y x)) [
    | inl e ↦ rw e (
        Perm.trans
          (cons_if (p y) y (filter p (insert x ys)) (filter p (x ∷ ys)) (filter-insert-Perm p x ys))
          (swap_if (p x) (p y) x y (filter p ys)))
    | inr e ↦ rw e (Perm.refl _)
  ]

  -- What a test picks out of the queue is the same before and after sorting, but for its order.
  pub filter-sort-Perm : (p : A → Bool) (xs : List A) → Perm (filter p (sort xs)) (filter p xs)
  unfolding sort
  filter-sort-Perm p [] = Perm.refl _
  filter-sort-Perm p (x ∷ xs) =
      Perm.trans (filter-insert-Perm p x (sort xs))
        (cons_if (p x) x (filter p (sort xs)) (filter p xs) (filter-sort-Perm p xs))

  insert-Perm : (x : A) (xs : List A) → Perm (insert x xs) (x ∷ xs)
  unfolding insert
  insert-Perm x [] = Perm.refl _
  insert-Perm x (y ∷ ys) = elim (Bool-cases (before y x)) [
    | inl e ↦ rw e (Perm.trans (Perm.cons y (insert-Perm x ys)) (Perm.swap x y ys))
    | inr e ↦ rw e (Perm.refl _)
  ]

  pub sort-Perm : (xs : List A) → Perm (sort xs) xs
  unfolding sort
  sort-Perm [] = Perm.refl _
  sort-Perm (x ∷ xs) = Perm.trans (insert-Perm x (sort xs)) (Perm.cons x (sort-Perm xs))

  module _ (asym : (a b : A) → before a b ≡ true → before b a ≡ false)
      (trans : (a b c : A) → before a b ≡ false → before b c ≡ false → before a c ≡ false) where
    insert-Sorted : (x : A) (xs : List A) → Sorted xs → Sorted (insert x xs)
    unfolding insert Sorted
    insert-Sorted x [] s = (tt, tt)
    insert-Sorted x (y ∷ ys) s = elim (Bool-cases (before y x)) [
      | inl e ↦ rw e (insert-All _ x ys (asym y x e) s.0, insert-Sorted x ys s.1)
      | inr e ↦ rw e ((e, All-map (λ z h. trans z y x h e) ys s.0), s)
    ]

    pub sort-Sorted : (xs : List A) → Sorted (sort xs)
    unfolding sort Sorted
    sort-Sorted [] = tt
    sort-Sorted (x ∷ xs) = insert-Sorted x (sort xs) (sort-Sorted xs)

  All-insert {κ} : (P : A → Type κ) (x : A) (xs : List A) → All P (insert x xs) → P x × All P xs
  unfolding insert
  All-insert P x [] h = (h.0, tt)
  All-insert P x (y ∷ ys) h = elim (Bool-cases (before y x)) [
    | inl e ↦ let h' = rw e at h in let (px, pys) = All-insert P x ys h'.1 in (px, (h'.0, pys))
    | inr e ↦ let h' = rw e at h in h'
  ]

  -- What holds of every element of the sorted list holds of every element.
  pub All-sort {κ} : (P : A → Type κ) (xs : List A) → All P (sort xs) → All P xs
  unfolding sort
  All-sort P [] h = tt
  All-sort P (x ∷ xs) h = let (p, ps) = All-insert P x (sort xs) h in (p, All-sort P xs ps)
