-- ===== src/Base/Slices.antt =====
-- `take` and `drop` of lists that were put together from parts.
use Prim.Native.Nat.{ℕ, zero, suc, ◌+◌, ◌-◌, ◌≤◌}
use mathlib.Core.Path.{◌≡◌, refl, ap}
use mathlib.Core.List.{List, [], ◌∷◌, ◌++◌}
use native.Mathlib.Omega.{arith}
use socket_template.Base.Lists.{length, take, drop, length-append, length-take, length-drop}

module _ {ℓ} {A : Type ℓ} where
  pub take_append_left : (n : ℕ) (xs ys : List A) → n ≤ length xs → take n (xs ++ ys) ≡ take n xs
  take_append_left zero xs ys h = refl
  take_append_left (suc n) [] ys h = absurd (omega arith)
  take_append_left (suc n) (x ∷ xs) ys h =
      ap (λ (zs : List A). x ∷ zs) (take_append_left n xs ys (omega arith))

  pub drop_append_left :
      (n : ℕ) (xs ys : List A) → n ≤ length xs → drop n (xs ++ ys) ≡ drop n xs ++ ys
  drop_append_left zero xs ys h = refl
  drop_append_left (suc n) [] ys h = absurd (omega arith)
  drop_append_left (suc n) (x ∷ xs) ys h = drop_append_left n xs ys (omega arith)

  pub drop_append_right :
      (n : ℕ) (xs ys : List A) → length xs ≤ n → drop n (xs ++ ys) ≡ drop (n - length xs) ys
  drop_append_right n [] ys h = let e : n - 0 ≡ n = omega arith in rw e
  drop_append_right zero (x ∷ xs) ys h = absurd (omega arith)
  drop_append_right (suc n) (x ∷ xs) ys h =
      let e : suc n - suc (length xs) ≡ n - length xs = omega arith in
      rw e (drop_append_right n xs ys (omega arith))

  pub drop-drop : (a b : ℕ) (xs : List A) → drop a (drop b xs) ≡ drop (a + b) xs
  drop-drop a zero xs = let e : a + 0 ≡ a = omega arith in rw e
  drop-drop zero (suc b) [] = let e : 0 + suc b ≡ suc b = omega arith in rw e
  drop-drop (suc a) (suc b) [] = let e : suc a + suc b ≡ suc (a + suc b) = omega arith in rw e
  drop-drop a (suc b) (x ∷ xs) =
      let e : a + suc b ≡ suc (a + b) = omega arith in rw e (drop-drop a b xs)

  pub take-drop-take :
      (n a b : ℕ) (xs : List A) → a + n ≤ b → take n (drop a (take b xs)) ≡ take n (drop a xs)
  take-drop-take n a zero xs h =
      let ea : a ≡ 0 = omega arith in let en : n ≡ 0 = omega arith in rw (ea, en)
  take-drop-take n a (suc b) [] h = refl
  take-drop-take zero zero (suc b) (x ∷ xs) h = refl
  take-drop-take (suc n) zero (suc b) (x ∷ xs) h =
      ap (λ (zs : List A). x ∷ zs) (take-drop-take n zero b xs (omega arith))
  take-drop-take n (suc a) (suc b) (x ∷ xs) h = take-drop-take n a b xs (omega arith)

  pub take_all : (n : ℕ) (xs : List A) → length xs ≤ n → take n xs ≡ xs
  take_all zero [] h = refl
  take_all zero (x ∷ xs) h = absurd (omega arith)
  take_all (suc n) [] h = refl
  take_all (suc n) (x ∷ xs) h = ap (λ (zs : List A). x ∷ zs) (take_all n xs (omega arith))

  -- Overwriting `m` elements from `at` on by the first `m` of `p`.
  abbrev pub copy : List A → ℕ → List A → ℕ → List A
  copy d at p m = take at d ++ (take m p ++ drop (at + m) d)

  abbrev pub slice : ℕ → ℕ → List A → List A
  slice at n b = take n (drop at b)

module _ {ℓ} {A : Type ℓ} (d p : List A) (at m : ℕ) where
  head_size : at ≤ length d → length (take at d) ≡ at
  head_size h = omega (arith, length-take at d)

  mid_size : m ≤ length p → length (take m p) ≡ m
  mid_size h = omega (arith, length-take m p)

  pub length-copy : at + m ≤ length d → m ≤ length p → length (copy d at p m) ≡ length d
  length-copy hd hp = omega (
    arith,
    length-append (take at d) (take m p ++ drop (at + m) d),
    length-append (take m p) (drop (at + m) d),
    length-take at d,
    length-take m p,
    length-drop (at + m) d,
  )

  pub slice_before :
      (a n : ℕ) → a + n ≤ at → at ≤ length d → slice a n (copy d at p m) ≡ slice a n d
  slice_before a n h hd =
      let size = head_size hd in
      rw
        (
          drop_append_left a (take at d) (take m p ++ drop (at + m) d) (omega arith),
          take_append_left n (drop a (take at d)) (take m p ++ drop (at + m) d)
              (omega (arith, length-drop a (take at d))),
        )
        (take-drop-take n a at d h)

  pub slice_same : at ≤ length d → m ≤ length p → slice at m (copy d at p m) ≡ take m p
  slice_same hd hp =
      let size = head_size hd in
      let mid = mid_size hp in
      let none_left : at - length (take at d) ≡ 0 = omega arith in
      rw
        (
          drop_append_right at (take at d) (take m p ++ drop (at + m) d) (omega arith),
          none_left,
          take_append_left m (take m p) (drop (at + m) d) (omega arith),
        )
        (take-drop-take m 0 m p (omega arith))

  pub slice_after :
      (a n : ℕ)
      → at + m ≤ a
      → at + m ≤ length d
      → m ≤ length p
      → slice a n (copy d at p m) ≡ slice a n d
  slice_after a n h hd hp =
      let size = head_size (omega arith) in
      let mid = mid_size hp in
      let back : a - length (take at d) - length (take m p) + (at + m) ≡ a = omega arith in
      rw (
        drop_append_right a (take at d) (take m p ++ drop (at + m) d) (omega arith),
        drop_append_right (a - length (take at d)) (take m p) (drop (at + m) d) (omega arith),
        drop-drop (a - length (take at d) - length (take m p)) (at + m) d,
        back,
      )
