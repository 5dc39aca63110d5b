-- ===== src/Web/Lines.antt =====
-- ReadLine of Web/CszCacheRegio.cpp against the bytes that the peer sends, however they are cut into reads.
use socket_template.Base.{
  ℕ, zero, suc, ◌≡◌, refl, ap, ◌∙◌, Bool, false, Bool-cases, inl, inr, List, [], ◌∷◌, ◌++◌, ◌⊎◌,
  ◌==◌, if◌then◌else◌, arith,
}
use socket_template.Web.{
  Read, bytes, interrupted, failed, Cache, fill_cache, add_cache, read_chars, read_line, cache_size,
}

-- What the reads give one after another
unfoldable pub stream : List Read → List ℕ
stream [] = []
stream (bytes bs ∷ reads) = bs ++ stream reads
stream (interrupted ∷ reads) = stream reads
stream (failed ∷ reads) = stream reads

-- All that is still to be read
abbrev pub pending : Cache → List ℕ
pending c = c.unread ++ stream c.reads

-- No error but EINTR, and no end before the last read.
abbrev pub IsSteady : List Read → Type 0
IsSteady [] = Unit
IsSteady (bytes [] ∷ reads) = ⊥
IsSteady (bytes (b ∷ bs) ∷ reads) = IsSteady reads
IsSteady (interrupted ∷ reads) = IsSteady reads
IsSteady (failed ∷ reads) = ⊥

-- The first line of a text, of `rounds` characters at most, and what is behind it: an end of line is dropped
unfoldable pub first_line : ℕ → List ℕ → List ℕ × List ℕ
first_line zero text = ([], text)
first_line (suc rounds) [] = ([], [])
first_line (suc rounds) (b ∷ text) =
    let (line, rest) = first_line rounds text in if b == b'\n' then ([], text) else (b ∷ line, rest)

-- AddCache leaves what is pending, without a mark, and nothing is unread behind it only at the end.
pub record Filled (text : List ℕ) (c : Cache) : Type 0 where
  pub same : pending c ≡ text
  pub steady : IsSteady c.reads
  pub ended : c.unread ≡ [] → text ≡ []
  pub sound : c.broken ≡ false

fill_cache-Filled :
    (reads : List Read) → IsSteady reads → Filled (stream reads) (fill_cache reads).1
unfolding fill_cache stream
fill_cache-Filled [] h = record { same = refl; steady = tt; ended = λ e. refl; sound = refl }
fill_cache-Filled (bytes [] ∷ reads) h = absurd h
fill_cache-Filled (bytes (b ∷ bs) ∷ reads) h = record {
  same = refl;
  steady = h;
  ended = λ e. absurd (ground arith);
  sound = refl;
}
fill_cache-Filled (interrupted ∷ reads) h = fill_cache-Filled reads h
fill_cache-Filled (failed ∷ reads) h = absurd h

pub add_cache-Filled :
    (unread : List ℕ) (broken : Bool) (reads : List Read)
    → IsSteady reads
    → Filled
        (unread ++ stream reads)
        (add_cache (record { unread = unread; broken = broken; reads = reads })).1
unfolding add_cache
add_cache-Filled [] broken reads h = fill_cache-Filled reads h
add_cache-Filled (b ∷ bs) broken reads h = record {
  same = refl;
  steady = h;
  ended = λ e. absurd (ground arith);
  sound = refl;
}

-- The line, what is pending behind it, and that the socket goes on as before
record IsLine (rounds : ℕ) (text : List ℕ) (r : List ℕ × Cache) : Type 0 where
  pub line : r.0 ≡ (first_line rounds text).0
  pub rest : pending r.1 ≡ (first_line rounds text).1
  pub steady : IsSteady r.1.reads

pub List-cases : (l : List ℕ) → (l ≡ []) ⊎ ((x : ℕ) × (xs : List ℕ) × (l ≡ x ∷ xs))
List-cases [] = inl refl
List-cases (x ∷ xs) = inr (x, xs, refl)

read_chars-IsLine :
    (rounds : ℕ) (c : Cache) → IsSteady c.reads → IsLine rounds (pending c) (read_chars rounds c)
unfolding read_chars first_line
read_chars-IsLine zero c h = record { line = refl; rest = refl; steady = h }
read_chars-IsLine (suc rounds) c h =
    let c' = (add_cache c).1 in
    let f = add_cache-Filled c.unread c.broken c.reads h in
    elim (List-cases c'.unread) [
      | inl e ↦
          let nothing : pending c ≡ [] = f.ended e in
          rw (read_chars, e)
            (record { line = rw nothing; rest = f.same ∙ rw nothing; steady = f.steady })
      | inr (b, bs, e) ↦
          let behind : Cache = record c' { unread = bs } in
          let same : b ∷ pending behind ≡ pending c = rw e at f.same in
          let ih = read_chars-IsLine rounds behind f.steady in
          elim (Bool-cases (b == b'\n')) [
            | inl end ↦ rw (← same) (
                rw (read_chars, e, end)
                  (record { line = rw end; rest = rw end; steady = f.steady }))
            | inr more ↦ rw (← same) (
                rw (read_chars, e, more)
                  (record {
                    line = rw more (ap (λ (l : List ℕ). b ∷ l) ih.line);
                    rest = rw more ih.rest;
                    steady = ih.steady;
                  }))
          ]
    ]

-- When a peer sends without an error but EINTR and has not closed before the last of its bytes, then ReadLine gives the first line of what is pending, of at most
-- 1024 characters and without its end of line, and what is pending behind it is the rest of that text: however the
-- text is cut into reads.
pub read_line-first_line :
    (c : Cache)
    → IsSteady c.reads
    → ((read_line c).0 ≡ (first_line cache_size (pending c)).0)
      × (pending (read_line c).1 ≡ (first_line cache_size (pending c)).1)
      × IsSteady (read_line c).1.reads
unfolding read_line
read_line-first_line c h = let r = read_chars-IsLine cache_size c h in (r.line, r.rest, r.steady)
