-- ===== src/Wire/HandShake.antt =====
-- HandShake of BitTorrent/CszHandShake.cpp. The pointers that it is given are null or C arrays.
pub mod Verification
use socket_template.Base.{
  ℕ, zero, suc, ◌+◌, ◌*◌, ◌≡◌, ◌≢◌, ◌↔◌, refl, ap, ◌≤◌, ◌<◌, Bool, true, false, ◌&&◌, ◌||◌, Option,
  none, some, List, [], ◌∷◌, ◌++◌, All, length, get_or, take, drop, copy, slice, replicate, ◌==◌,
  not, if◌then◌else◌, length-append, length-take, length-drop, take-append, drop-append,
  append_assoc, ◌⊎◌, inl, inr, Bool-cases, arith,
}

-- "BitTorrent protocol"
abbrev protocol : List ℕ
protocol =
    0x42 ∷ 0x69 ∷ 0x74 ∷ 0x54 ∷ 0x6f ∷ 0x72 ∷ 0x72 ∷ 0x65 ∷ 0x6e ∷ 0x74 ∷ 0x20 ∷ 0x70 ∷ 0x72 ∷ 0x6f
    ∷ 0x74 ∷ 0x6f ∷ 0x63 ∷ 0x6f ∷ 0x6c ∷ []

pub new : List ℕ
new = 19 ∷ (protocol ++ replicate 48 0)

-- p == nullptr || *p == 0
pub unset : Option (List ℕ) → Bool
unset none = true
unset (some p) = get_or p 0 0 == 0

-- memcpy(data + at, p, n), if the pointer is set
copy_given : List ℕ → ℕ → Option (List ℕ) → ℕ → List ℕ
unfolding unset
copy_given d at none n = d
copy_given d at (some p) n = if unset (some p) then d else copy d at p n

-- The array afterwards, and the result.
pub set_parameter : List ℕ → Option (List ℕ) → Option (List ℕ) → Option (List ℕ) → List ℕ × Bool
unfolding copy_given
set_parameter d reserved none peer_id = (d, false)
set_parameter d reserved (some info_hash) peer_id =
    if unset (some info_hash)
    then (d, false)
    else (copy_given (copy_given (copy d 28 info_hash 20) 20 reserved 8) 48 peer_id 20, true)

-- memcmp(a, b, n) == 0, on arrays of the same length
pub eq_bytes : List ℕ → List ℕ → Bool
eq_bytes [] [] = true
eq_bytes (x ∷ xs) (y ∷ ys) = (x == y) && eq_bytes xs ys
eq_bytes [] (y ∷ ys) = false
eq_bytes (x ∷ xs) [] = false

pub varification : List ℕ → List ℕ → Bool
unfolding eq_bytes
varification d str =
    if get_or str 0 0 == 0
    then false
    else eq_bytes (slice 0 20 str) (slice 0 20 d) && eq_bytes (slice 28 20 str) (slice 28 20 d)
