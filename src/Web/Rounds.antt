-- ===== src/Web/Rounds.antt =====
-- One round of ReadBuf of Web/CszCacheRegio.cpp: what it takes, what it leaves, and whether the read behind it waits.
use socket_template.Base.{
  Bool-cases, true, ◌&&◌, ◌⊎◌, ℕ, zero, suc, ◌-◌, ◌<◌, ◌≤◌, ◌≡◌, refl, ap, Bool, false, List, [],
  ◌∷◌, ◌++◌, inl, inr, length, take, drop, if◌then◌else◌, arith,
}
use socket_template.Web.{
  Read, bytes, interrupted, failed, spent, waiting, Cache, Buffer, got, running, prepend, refill,
  read_buf,
}
use socket_template.Web.Lines.{stream, pending, IsSteady, Filled, add_cache-Filled, List-cases}

-- What a round takes and what is left to ask for
pub record Parts (n : ℕ) (xs ys : List ℕ) : Type 0 where
  pub front : take n xs ++ take (n - length xs) (drop n xs ++ ys) ≡ take n (xs ++ ys)
  pub back : drop (n - length xs) (drop n xs ++ ys) ≡ drop n (xs ++ ys)
  pub enough : n ≤ length (xs ++ ys) → n - length xs ≤ length (drop n xs ++ ys)
  pub short : length (xs ++ ys) < n → length (drop n xs ++ ys) < n - length xs
  pub beyond : n < length (xs ++ ys) → n - length xs < length (drop n xs ++ ys)
  pub within : length (xs ++ ys) ≤ n → length (drop n xs ++ ys) ≤ n - length xs

pub parts : (n : ℕ) (xs ys : List ℕ) → Parts n xs ys
parts zero [] ys = record {
  front = refl;
  back = refl;
  enough = λ h. h;
  short = λ h. absurd (omega arith);
  beyond = λ h. h;
  within = λ h. h;
}
parts zero (x ∷ xs) ys =
    let none_left : 0 - suc (length xs) ≡ 0 = omega arith in
    record {
      front = rw none_left;
      back = rw none_left;
      enough = λ h. omega arith;
      short = λ h. absurd (omega arith);
      beyond = λ h. omega arith;
      within = λ h. absurd (omega arith);
    }
parts (suc n) [] ys =
    let all_left : suc n - 0 ≡ suc n = omega arith in
    record {
      front = rw all_left;
      back = rw all_left;
      enough = λ h. rw all_left h;
      short = λ h. rw all_left h;
      beyond = λ h. rw all_left h;
      within = λ h. rw all_left h;
    }
parts (suc n) (x ∷ xs) ys =
    let ih = parts n xs ys in
    let one_less : suc n - suc (length xs) ≡ n - length xs = omega arith in
    record {
      front = rw one_less (ap (λ (l : List ℕ). x ∷ l) ih.front);
      back = rw one_less ih.back;
      enough = λ h. rw one_less (ih.enough (omega arith));
      short = λ h. rw one_less (ih.short (omega arith));
      beyond = λ h. rw one_less (ih.beyond (omega arith));
      within = λ h. rw one_less (ih.within (omega arith));
    }

pub refill-Filled :
    (n : ℕ) (c : Cache)
    → IsSteady c.reads
    → c.broken ≡ false
    → Filled (drop n c.unread ++ stream c.reads) (refill n c)
unfolding refill
refill-Filled n c h sound = elim (List-cases (drop n c.unread)) [
  | inl e ↦ rw (refill, e) (add_cache-Filled [] c.broken c.reads h)
  | inr (b, bs, e) ↦
      rw (refill, e)
        (record { same = refl; steady = h; ended = λ e. absurd (ground arith); sound = sound })
]

pub spent-nothing :
    (xs : List ℕ) (reads : List Read) → spent xs reads ≡ true → length (xs ++ stream reads) ≡ 0
unfolding spent stream
spent-nothing (x ∷ xs) reads e = absurd (ground arith)
spent-nothing [] [] e = refl
spent-nothing [] (interrupted ∷ reads) e = spent-nothing [] reads e
spent-nothing [] (bytes bs ∷ reads) e = absurd (ground arith)
spent-nothing [] (failed ∷ reads) e = absurd (ground arith)

pub spent-something :
    (xs : List ℕ) (reads : List Read)
    → IsSteady reads
    → spent xs reads ≡ false
    → 0 < length (xs ++ stream reads)
unfolding spent stream
spent-something (x ∷ xs) reads h e = omega arith
spent-something [] [] h e = absurd (ground arith)
spent-something [] (interrupted ∷ reads) h e = spent-something [] reads h e
spent-something [] (bytes [] ∷ reads) h e = absurd h
spent-something [] (bytes (b ∷ bs) ∷ reads) h e = omega arith
spent-something [] (failed ∷ reads) h e = absurd h

-- A peer that closes, or that sends more than what is asked for, lets no read wait.
pub goes_on :
    (stays : Bool) (n : ℕ) (c : Cache)
    → (stays ≡ false) ⊎ (n < length (pending c))
    → (stays && spent (drop n c.unread) c.reads) ≡ false
goes_on false n c h = refl
goes_on true n c (inl closes) = absurd (ground arith)
goes_on true n c (inr more) = elim (Bool-cases (spent (drop n c.unread) c.reads)) [
  | inr e ↦ e
  | inl e ↦
      let q = (parts n c.unread (stream c.reads)).beyond more in
      let nothing = spent-nothing (drop n c.unread) c.reads e in absurd (omega arith)
]

pub later_on :
    (stays : Bool) (n : ℕ) (c : Cache)
    → (stays ≡ false) ⊎ (n < length (pending c))
    → (stays ≡ false) ⊎ (n - length c.unread < length (drop n c.unread ++ stream c.reads))
later_on stays n c (inl closes) = inl closes
later_on stays n c (inr more) = inr ((parts n c.unread (stream c.reads)).beyond more)

pub if_sound :
    (b b' : Bool) (x y z : Buffer)
    → b ≡ false
    → b' ≡ false
    → (if b then x else if b' then y else z) ≡ z
if_sound b b' x y z e e' = rw (e, e')

pub if_waits :
    (b b' : Bool) (x y z : Buffer)
    → b ≡ false
    → b' ≡ true
    → (if b then x else if b' then y else z) ≡ y
if_waits b b' x y z e e' = rw (e, e')

pub read_buf-round :
    (stays : Bool) (fuel n : ℕ) (c : Cache)
    → c.broken ≡ false
    → (stays && spent (drop (suc n) c.unread) c.reads) ≡ false
    → read_buf stays (suc fuel) (suc n) c
      ≡ prepend
          (take (suc n) c.unread)
          (read_buf stays fuel (suc n - length c.unread) (refill (suc n) c))
unfolding read_buf
read_buf-round stays fuel n c e more = if_sound c.broken _ _ _ _ e more

pub read_buf-stop :
    (fuel n : ℕ) (c : Cache)
    → c.broken ≡ false
    → spent (drop (suc n) c.unread) c.reads ≡ true
    → read_buf true (suc fuel) (suc n) c ≡ waiting
unfolding read_buf
read_buf-stop fuel n c e end = if_waits c.broken _ _ _ _ e end

pub prepend-got :
    (bs : List ℕ) (r : Buffer) (rest : List ℕ) (c : Cache)
    → r ≡ got rest c
    → prepend bs r ≡ got (bs ++ rest) c
unfolding prepend
prepend-got bs r rest c e = rw e

pub prepend-waiting : (bs : List ℕ) (r : Buffer) → r ≡ waiting → prepend bs r ≡ waiting
unfolding prepend
prepend-waiting bs r e = rw e

pub prepend-running : (bs : List ℕ) (r : Buffer) → r ≡ running → prepend bs r ≡ running
unfolding prepend
prepend-running bs r e = rw e
