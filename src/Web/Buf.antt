-- ===== src/Web/Buf.antt =====
-- ReadBuf of Web/CszCacheRegio.cpp against the bytes that the peer sends.
use socket_template.Base.{
  Bool-cases, true, ◌⊎◌, ℕ, zero, suc, ◌-◌, ◌<◌, ◌≤◌, ◌≡◌, refl, ap, ◌∙◌, Bool, false, List, [],
  ◌++◌, inl, inr, length, take, drop, subst, arith,
}
use socket_template.Web.{spent, waiting, Cache, Buffer, got, running, refill, read_buf}
use socket_template.Web.Lines.{stream, pending, IsSteady, Filled, List-cases}
use socket_template.Web.Rounds.{
  parts, refill-Filled, spent-something, goes_on, later_on, read_buf-round, read_buf-stop,
  prepend-got, prepend-waiting, prepend-running,
}

-- The bytes asked for, and behind them what was pending
record IsGot (n : ℕ) (text : List ℕ) (r : Buffer) : Type 0 where
  pub left : Cache
  pub result : r ≡ got (take n text) left
  pub rest : pending left ≡ drop n text
  pub steady : IsSteady left.reads

module _ (stays : Bool) where
  round-IsGot :
      (fuel n : ℕ) (c : Cache)
      → c.broken ≡ false
      → (stays ≡ false) ⊎ (suc n < length (pending c))
      → IsGot
          (suc n - length c.unread)
          (drop (suc n) c.unread ++ stream c.reads)
          (read_buf stays fuel (suc n - length c.unread) (refill (suc n) c))
      → IsGot (suc n) (pending c) (read_buf stays (suc fuel) (suc n) c)
  round-IsGot fuel n c sound more g =
      let q = parts (suc n) c.unread (stream c.reads) in
      record {
        left = g.left;
        result =
            read_buf-round stays fuel n c sound (goes_on stays (suc n) c more)
            ∙ prepend-got _ _ _ _ g.result
            ∙ ap (λ (l : List ℕ). got l g.left) q.front;
        rest = g.rest ∙ q.back;
        steady = g.steady;
      }

  read_buf-IsGot :
      (fuel n : ℕ) (text : List ℕ) (c : Cache)
      → Filled text c
      → n ≤ length text
      → (stays ≡ false) ⊎ (n < length text)
      → n ≤ fuel
      → IsGot n text (read_buf stays fuel n c)
  unfolding read_buf
  read_buf-IsGot fuel zero text c f h more k = record {
    left = c;
    result = refl;
    rest = f.same;
    steady = f.steady;
  }
  read_buf-IsGot zero (suc n) text c f h more k = absurd (omega arith)
  read_buf-IsGot (suc fuel) (suc n) text c f h more k = elim (List-cases c.unread) [
    | inl e ↦ absurd (ends e)
    | inr (b, bs, e) ↦
        let q = parts (suc n) c.unread (stream c.reads) in
        let next = refill-Filled (suc n) c f.steady f.sound in
        let less : suc n - length c.unread ≤ fuel = rw e (omega arith) in
        let more' : (stays ≡ false) ⊎ (suc n < length (pending c)) = rw f.same more in
        subst (λ t. IsGot (suc n) t (read_buf stays (suc fuel) (suc n) c)) f.same
          (round-IsGot fuel n c f.sound more' (
            read_buf-IsGot fuel (suc n - length c.unread) (drop (suc n) c.unread ++ stream c.reads)
              (refill (suc n) c) next (q.enough (rw f.same h)) (later_on stays (suc n) c more')
              less))
  ]
    where
      ends : c.unread ≡ [] → ⊥
      ends e = let nothing : suc n ≤ 0 = rw (f.ended e) at h in omega arith

  first-IsGot :
      (n : ℕ) (c : Cache)
      → IsSteady c.reads
      → c.broken ≡ false
      → n ≤ length (pending c)
      → (stays ≡ false) ⊎ (n < length (pending c))
      → IsGot n (pending c) (read_buf stays (suc n) n c)
  unfolding read_buf
  first-IsGot zero c h sound k more = record { left = c; result = refl; rest = refl; steady = h }
  first-IsGot (suc n) c h sound k more =
      let q = parts (suc n) c.unread (stream c.reads) in
      round-IsGot (suc n) n c sound more (
        read_buf-IsGot (suc n) (suc n - length c.unread) (drop (suc n) c.unread ++ stream c.reads)
          (refill (suc n) c) (refill-Filled (suc n) c h sound) (q.enough k)
          (later_on stays (suc n) c more) (omega arith))

-- When the peer sends without an error but EINTR, the bytes asked for among them, and it either closes behind its last byte or has sent more than these,
-- and the last read before has not failed, then ReadBuf ends and gives just these bytes, and what is pending behind it is the rest: however
-- the text is cut into reads. One round more than bytes asked for is enough.
pub read_buf-take :
    (stays : Bool) (n : ℕ) (c : Cache)
    → IsSteady c.reads
    → c.broken ≡ false
    → n ≤ length (pending c)
    → (stays ≡ false) ⊎ (n < length (pending c))
    → (left : Cache) × (read_buf stays (suc n) n c ≡ got (take n (pending c)) left)
      × (pending left ≡ drop n (pending c))
      × IsSteady left.reads
read_buf-take stays n c h sound k more =
    let g = first-IsGot stays n c h sound k more in (g.left, g.result, g.rest, g.steady)

next-waiting :
    (fuel n : ℕ) (c : Cache)
    → IsSteady c.reads
    → c.broken ≡ false
    → (0 < length (drop (suc n) c.unread ++ stream c.reads)
        → read_buf true fuel (suc n - length c.unread) (refill (suc n) c) ≡ waiting)
    → read_buf true (suc fuel) (suc n) c ≡ waiting
next-waiting fuel n c h sound later = elim (Bool-cases (spent (drop (suc n) c.unread) c.reads)) [
  | inl end ↦ read_buf-stop fuel n c sound end
  | inr more ↦
      read_buf-round true fuel n c sound more
      ∙ prepend-waiting _ _ (later (spent-something (drop (suc n) c.unread) c.reads h more))
]

later-waiting :
    (fuel n : ℕ) (text : List ℕ) (c : Cache)
    → Filled text c
    → 0 < length text
    → length text ≤ n
    → n ≤ fuel
    → read_buf true fuel n c ≡ waiting
later-waiting fuel zero text c f some_left h k = absurd (omega arith)
later-waiting zero (suc n) text c f some_left h k = absurd (omega arith)
later-waiting (suc fuel) (suc n) text c f some_left h k = elim (List-cases c.unread) [
  | inl e ↦ absurd (ends e)
  | inr (b, bs, e) ↦
      let q = parts (suc n) c.unread (stream c.reads) in
      let less : suc n - length c.unread ≤ fuel = rw e (omega arith) in
      next-waiting fuel n c f.steady f.sound (λ more.
        later-waiting fuel (suc n - length c.unread) (drop (suc n) c.unread ++ stream c.reads)
          (refill (suc n) c) (refill-Filled (suc n) c f.steady f.sound) more
          (q.within (rw f.same h)) less)
]
  where
    ends : c.unread ≡ [] → ⊥
    ends e = let nothing : 0 < 0 = rw (f.ended e) at some_left in omega arith

-- When the peer sends without an error but EINTR, has sent no more than the bytes asked for, and keeps the connection, then ReadBuf waits for more and never
-- returns, also when all of the bytes are there.
read_buf_waits :
    (n : ℕ) (c : Cache)
    → IsSteady c.reads
    → c.broken ≡ false
    → 0 < n
    → length (pending c) ≤ n
    → read_buf true (suc n) n c ≡ waiting
read_buf_waits zero c h sound some_asked k = absurd (omega arith)
read_buf_waits (suc n) c h sound some_asked k =
    let q = parts (suc n) c.unread (stream c.reads) in
    next-waiting (suc n) n c h sound (λ more.
      later-waiting (suc n) (suc n - length c.unread) (drop (suc n) c.unread ++ stream c.reads)
        (refill (suc n) c) (refill-Filled (suc n) c h sound) more (q.within k) (omega arith))

-- When the peer closes, without an error but EINTR, before it has sent the bytes asked for, and the last read before has not failed, then ReadBuf is running after any number of rounds.
read_buf_closed :
    (fuel n : ℕ) (c : Cache)
    → IsSteady c.reads
    → c.broken ≡ false
    → length (pending c) < n
    → read_buf false fuel n c ≡ running
unfolding read_buf
read_buf_closed fuel zero c h sound k = absurd (omega arith)
read_buf_closed zero (suc n) c h sound k = refl
read_buf_closed (suc fuel) (suc n) c h sound k =
    let q = parts (suc n) c.unread (stream c.reads) in
    let next = refill-Filled (suc n) c h sound in
    read_buf-round false fuel n c sound refl
    ∙ prepend-running _ _ (
        read_buf_closed fuel (suc n - length c.unread) (refill (suc n) c) next.steady next.sound
          (rw next.same (q.short k)))
