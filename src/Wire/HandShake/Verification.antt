-- ===== src/Wire/HandShake/Verification.antt =====
-- Which handshakes a peer accepts.
use socket_template.Base.{
  ℕ, ◌+◌, ◌≡◌, ◌≢◌, ◌↔◌, refl, ◌∙◌, ◌≤◌, Bool, true, false, ◌&&◌, Option, none, some, List, [], ◌∷◌,
  length, get_or, take, copy, slice, replicate, ◌==◌, length-copy, slice_before, slice_same,
  slice_after, ◌⊎◌, inl, inr, Bool-cases, arith,
}
use socket_template.Wire.HandShake.{new, unset, copy_given, set_parameter, eq_bytes, varification}

pub eq_bytes_iff : (xs ys : List ℕ) → (eq_bytes xs ys ≡ true) ↔ (xs ≡ ys)
unfolding eq_bytes
eq_bytes_iff [] [] = (λ _. refl, λ _. refl)
eq_bytes_iff [] (y ∷ ys) = (λ e. cc, λ e. cc)
eq_bytes_iff (x ∷ xs) [] = (λ e. cc, λ e. cc)
eq_bytes_iff (x ∷ xs) (y ∷ ys) = ground (arith, eq_bytes_iff xs ys)

-- A pointer that is null or to at least `n` bytes.
abbrev pub HasSize : ℕ → Option (List ℕ) → Type 0
HasSize n none = Unit
HasSize n (some p) = n ≤ length p

-- The array keeps its size, its protocol name and the hash of the torrent `info`.
record Holds (info d : List ℕ) : Type 0 where
  size : length d ≡ 68
  name : slice 0 20 d ≡ slice 0 20 new
  hash : slice 28 20 d ≡ take 20 info

copy-Holds :
    (info d p : List ℕ) (at n : ℕ)
    → Holds info d
    → n ≤ length p
    → at + n ≤ 68
    → 20 ≤ at
    → ((at + n ≤ 28) ⊎ (48 ≤ at))
    → Holds info (copy d at p n)
copy-Holds info d p at n h hp top name_end place = record {
  size = length-copy d p at n (omega (arith, h.size)) hp ∙ h.size;
  name = slice_before d p at n 0 20 (omega arith) (omega (arith, h.size)) ∙ h.name;
  hash = around place ∙ h.hash;
}
  where
    around : (at + n ≤ 28) ⊎ (48 ≤ at) → slice 28 20 (copy d at p n) ≡ slice 28 20 d
    around (inl before) = slice_after d p at n 28 20 before (omega (arith, h.size)) hp
    around (inr behind) = slice_before d p at n 28 20 behind (omega (arith, h.size))

copy_given-Holds :
    (info d : List ℕ) (p : Option (List ℕ)) (at n : ℕ)
    → Holds info d
    → HasSize n p
    → at + n ≤ 68
    → 20 ≤ at
    → ((at + n ≤ 28) ⊎ (48 ≤ at))
    → Holds info (copy_given d at p n)
unfolding copy_given
copy_given-Holds info d none at n h hp top name_end place = h
copy_given-Holds info d (some p) at n h hp top name_end place = elim (Bool-cases (unset (some p))) [
  | inl e ↦ rw (e) h
  | inr e ↦ rw (e) (copy-Holds info d p at n h hp top name_end place)
]

length-new : length new ≡ 68
unfolding new
length-new = refl

set_parameter-Holds :
    (reserved peer_id : Option (List ℕ)) (info : List ℕ)
    → HasSize 8 reserved
    → HasSize 20 peer_id
    → 20 ≤ length info
    → unset (some info) ≡ false
    → Holds info (set_parameter new reserved (some info) peer_id).0
unfolding set_parameter
set_parameter-Holds reserved peer_id info hr hp hi e = rw e (
    copy_given-Holds info _ peer_id 48 20
      (copy_given-Holds info _ reserved 20 8 first hr (omega arith) (omega arith)
        (inl (omega arith)))
      hp (omega arith) (omega arith) (inr (omega arith)))
  where
    first : Holds info (copy new 28 info 20)
    first = record {
      size = length-copy new info 28 20 (omega (arith, length-new)) hi ∙ length-new;
      name = slice_before new info 28 20 0 20 (omega arith) (omega (arith, length-new));
      hash = slice_same new info 28 20 (omega (arith, length-new)) hi;
    }

first_byte : (d : List ℕ) → slice 0 20 d ≡ slice 0 20 new → get_or d 0 0 ≡ 19
unfolding new
first_byte [] e = cc
first_byte (x ∷ xs) e = cc

-- Two peers that set their handshakes for torrents whose hashes do not begin with a zero byte: each
-- accepts the other's array exactly when the twenty bytes of the two hashes agree, whatever reserved
-- bytes and peer ids were given.
pub varification-set_parameter :
    (reserved reserved' peer_id peer_id' : Option (List ℕ)) (info info' : List ℕ)
    → HasSize 8 reserved
    → HasSize 8 reserved'
    → HasSize 20 peer_id
    → HasSize 20 peer_id'
    → 20 ≤ length info
    → 20 ≤ length info'
    → get_or info 0 0 ≢ 0
    → get_or info' 0 0 ≢ 0
    → (varification
          (set_parameter new reserved (some info) peer_id).0
          (set_parameter new reserved' (some info') peer_id').0
        ≡ true)
      ↔ (take 20 info' ≡ take 20 info)
unfolding varification unset
varification-set_parameter reserved reserved' peer_id peer_id' info info' hr hr' hp hp' hi hi' z
      z' =
    let a = set_parameter-Holds reserved peer_id info hr hp hi (ground arith) in
    let b = set_parameter-Holds reserved' peer_id' info' hr' hp' hi' (ground arith) in
    let start = first_byte (set_parameter new reserved' (some info') peer_id').0 b.name in
    let same = (eq_bytes_iff (slice 0 20 new) (slice 0 20 new)).1 refl in
    rw (start, a.name, b.name, a.hash, b.hash, same) (eq_bytes_iff (take 20 info') (take 20 info))

varification_other :
    (d str : List ℕ)
    → eq_bytes (slice 28 20 str) (slice 28 20 d) ≡ false
    → varification d str ≡ false
unfolding varification
varification_other d str e = elim (Bool-cases (get_or str 0 0 == 0)) [
  | inl z ↦ rw z
  | inr z ↦ rw (z, e) (and_false (eq_bytes (slice 0 20 str) (slice 0 20 d)))
]
  where
    and_false : (b : Bool) → (b && false) ≡ false
    and_false b = ground arith

no_hash : slice 28 20 new ≡ replicate 20 0
unfolding new
no_hash = refl

set_parameter_zero :
    (reserved peer_id : Option (List ℕ)) (info : List ℕ)
    → get_or info 0 0 ≡ 0
    → set_parameter new reserved (some info) peer_id ≡ (new, false)
unfolding set_parameter unset
set_parameter_zero reserved peer_id info e = ground arith

eq_bytes_ne : (xs ys : List ℕ) → xs ≢ ys → eq_bytes xs ys ≡ false
eq_bytes_ne xs ys other = elim (Bool-cases (eq_bytes xs ys)) [
  | inl e ↦ absurd (other ((eq_bytes_iff xs ys).0 e))
  | inr e ↦ e
]

-- A hash that begins with a zero byte is taken for none: SetParameter fails and leaves the array as
-- it was, so that a peer which sends just this hash is refused, unless the hash is all zeros.
pub varification_zero_hash :
    (reserved peer_id : Option (List ℕ)) (info str : List ℕ)
    → get_or info 0 0 ≡ 0
    → slice 28 20 str ≡ take 20 info
    → take 20 info ≢ replicate 20 0
    → (set_parameter new reserved (some info) peer_id ≡ (new, false))
      × (varification (set_parameter new reserved (some info) peer_id).0 str ≡ false)
varification_zero_hash reserved peer_id info str e same other =
    let left = set_parameter_zero reserved peer_id info e in
    (left, rw left (varification_other new str (rw (same, no_hash) (eq_bytes_ne _ _ other))))
