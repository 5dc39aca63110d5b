-- ===== src/Wire/Bytes.antt =====
-- htonl, htons and ntohl on bytes: numbers in network order, most significant byte first.
use socket_template.Base.{
  ℕ, ◌+◌, ◌*◌, ◌/◌, ◌%◌, ◌^◌, ◌<◌, ◌≡◌, List, [], ◌∷◌, All, length, get_or, refl, arith,
}

-- The four bytes that `htonl` leaves in memory.
unfoldable pub htonl : ℕ → List ℕ
htonl x = x / 2 ^ 24 % 256 ∷ x / 2 ^ 16 % 256 ∷ x / 2 ^ 8 % 256 ∷ x % 256 ∷ []

unfoldable pub htons : ℕ → List ℕ
htons x = x / 2 ^ 8 % 256 ∷ x % 256 ∷ []

-- ntohl(*(int32_t*)(buf + at))
unfoldable pub ntohl_at : List ℕ → ℕ → ℕ
ntohl_at b at =
    get_or b at 0 * 2 ^ 24
    + get_or b (at + 1) 0 * 2 ^ 16
    + get_or b (at + 2) 0 * 2 ^ 8
    + get_or b (at + 3) 0

pub length-htonl : (x : ℕ) → length (htonl x) ≡ 4
unfolding htonl
length-htonl x = refl

pub bytes-htonl : (x : ℕ) → All (λ b. b < 256) (htonl x)
unfolding htonl
bytes-htonl x = omega arith

pub htonl_value :
    (x : ℕ)
    → x < 2 ^ 32
    → x / 2 ^ 24 % 256 * 2 ^ 24 + x / 2 ^ 16 % 256 * 2 ^ 16 + x / 2 ^ 8 % 256 * 2 ^ 8 + x % 256 ≡ x
htonl_value x h = omega arith

pub ntohl_at-htonl : (x : ℕ) → x < 2 ^ 32 → ntohl_at (htonl x) 0 ≡ x
unfolding htonl ntohl_at
ntohl_at-htonl x h = htonl_value x h
