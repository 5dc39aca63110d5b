-- ===== src/Torrent/Cut.antt =====
-- A piece cut in slices: the requests of TorrentFile's users against the tests of SelectSwitch::DPiece.
use socket_template.Base.{
  ℕ, zero, suc, ◌+◌, ◌-◌, ◌*◌, ◌%◌, ◌≤◌, ◌<◌, ◌≡◌, refl, true, false, ◌&&◌, List, [], ◌∷◌, All,
  length, ltb, ◌==◌, if◌then◌else◌, ℤ, pos, to_i32, to_u32, ◌^◌, eq_ℤ, Bool-cases, le→ltb, inl, inr,
  ◌⊎◌, arith,
}
use socket_template.Torrent.{
  Info, slice_size, get_piece_length, get_index_end, get_piece_bit, check_end_slice,
  check_end_slice_at, accepts_slice, slice_requests, piece_requests,
}
use socket_template.Torrent.Pieces.{size_of}

-- The requests follow one another from `a` up to `b`, each of one byte up to a slice.
abbrev pub Covers : ℕ → List (ℕ × ℤ) → ℕ → Type 0
Covers a [] b = a ≡ b
Covers a ((begin, size) ∷ rs) b =
    (begin ≡ a)
    × (size ≡ pos (size_of size))
    × (0 < size_of size)
    × (size_of size ≤ slice_size)
    × Covers (a + size_of size) rs b

-- An int that does not overflow
pub to_i32_behind :
    (x : ℕ) → x + slice_size < 2 ^ 31 → to_i32 (to_u32 (pos x) + slice_size) ≡ pos (x + slice_size)
to_i32_behind x h = ground arith

-- A piece of `size` bytes in `count` slices, the last of `left` bytes.
pub record Cut (t : Info) (i size count left : ℕ) : Type 0 where
  pub length_is : get_piece_length t (pos i) ≡ pos size
  pub bits : get_piece_bit t (pos i) ≡ pos count
  pub some_slice : 0 < count
  pub some_left : 0 < left
  pub left_fits : left ≤ slice_size
  pub sum : (count - 1) * slice_size + left ≡ size
  pub whole : slice_size ≤ size
  pub fits : count * slice_size < 2 ^ 31
  pub end :
      (check_end_slice t (pos i) ≡ (true, pos left))
      ⊎ ((check_end_slice t (pos i) ≡ (false, pos 0)) × (left ≡ slice_size))

-- The length in the request for slice `k`.
module _ (t : Info) (i size count left : ℕ) (c : Cut t i size count left) where
  request_size :
      (k : ℕ)
      → (if (k + 1 == count) && (check_end_slice t (pos i)).0
          then (check_end_slice t (pos i)).1
          else pos slice_size)
        ≡ pos (if k + 1 == count then left else slice_size)
  request_size k = elim c.end [
    | inl e ↦ rw e (ground arith)
    | inr (e, full) ↦ rw (e, full) (ground arith)
  ]

  slice_requests-Covers :
      (rounds k : ℕ)
      → k + suc rounds ≡ count
      → Covers (k * slice_size) (slice_requests t (pos i) (suc rounds) k count) size
  unfolding slice_requests
  slice_requests-Covers zero k e =
      let final : (k + 1 == count) ≡ true = ground arith in
      rw (request_size k, final) (refl, refl, c.some_left, c.left_fits, omega (arith, c.sum))
  slice_requests-Covers (suc rounds) k e =
      let before : (k + 1 == count) ≡ false = ground arith in
      let next : k * slice_size + slice_size ≡ (k + 1) * slice_size = omega arith in
      rw (request_size k, before)
        (
          refl,
          refl,
          omega arith,
          omega arith,
          rw next (slice_requests-Covers rounds (k + 1) (omega arith)),
        )

  is_end : (check_end_slice t (pos i)).0 ≡ eq_ℤ (pos i) (get_index_end t)
  unfolding check_end_slice
  is_end = ground arith

  check_end_slice_at-last :
      (k : ℕ)
      → k < count
      → eq_ℤ (pos i) (get_index_end t) ≡ true
      → check_end_slice_at t (pos i) (pos (k * slice_size))
        ≡ (true, pos (if k + 1 == count then left else slice_size))
  unfolding check_end_slice_at
  check_end_slice_at-last k h e =
      let long : ltb size slice_size ≡ false = ground (arith, c.whole) in
      let multiple : k * slice_size % slice_size ≡ 0 = omega arith in
      let behind : to_i32 (to_u32 (pos (k * slice_size)) + slice_size)
          ≡ pos (k * slice_size + slice_size) =
        to_i32_behind (k * slice_size) (omega (arith, c.fits)) in
      rw (c.length_is, e, long, multiple, behind)
        (elim (Bool-cases (k + 1 == count)) [
          | inl final ↦ elim (Bool-cases (left == slice_size)) [
            | inl full ↦
                let fits : ltb size (k * slice_size + slice_size) ≡ false = ground (arith, c.sum) in
                rw (fits, final) (ground arith)
            | inr part ↦
                let beyond : ltb size (k * slice_size + slice_size) ≡ true =
                  ground (arith, c.sum, c.left_fits) in
                let rest : size % slice_size ≡ left =
                  last_part k (ground arith) (ground (arith, c.left_fits)) in
                rw (beyond, final, rest)
          ]
          | inr before ↦
              let fits : ltb size (k * slice_size + slice_size) ≡ false =
                le→ltb _ _ (omega (arith, c.sum, more k h before)) in
              rw (fits, before)
        ])
    where
      last_part : (k : ℕ) → k + 1 ≡ count → left < slice_size → size % slice_size ≡ left
      last_part k e h = omega (arith, c.sum)

      more : (k : ℕ) → k < count → (k + 1 == count) ≡ false → k + 2 ≤ count
      more k h before = ground arith

  -- A slice that a request asked for passes the tests that DPiece makes of what arrives.
  accepts_slice-request :
      (k : ℕ)
      → k < count
      → accepts_slice t (pos i) (pos (k * slice_size)) (if k + 1 == count then left else slice_size)
        ≡ true
  unfolding accepts_slice
  accepts_slice-request k h = elim (Bool-cases (eq_ℤ (pos i) (get_index_end t))) [
    | inl e ↦ rw (check_end_slice_at-last k h e) (ground arith)
    | inr e ↦
        let full : left ≡ slice_size = full_left e c.end in
        rw (check_end_slice_at_other e, full) (ground arith)
  ]
    where
      full_left :
          eq_ℤ (pos i) (get_index_end t) ≡ false
          → (check_end_slice t (pos i) ≡ (true, pos left))
            ⊎ ((check_end_slice t (pos i) ≡ (false, pos 0)) × (left ≡ slice_size))
          → left ≡ slice_size
      full_left e (inl q) = cc (is_end)
      full_left e (inr q) = q.1

      check_end_slice_at_other :
          eq_ℤ (pos i) (get_index_end t) ≡ false
          → check_end_slice_at t (pos i) (pos (k * slice_size)) ≡ (false, pos 0)
      check_end_slice_at_other e = unfold check_end_slice_at in rw e

  abbrev Accepted : ℕ × ℤ → Type 0
  Accepted (begin, length) = accepts_slice t (pos i) (pos begin) (size_of length) ≡ true

  slice_requests-Accepted :
      (rounds k : ℕ) → k + rounds ≡ count → All Accepted (slice_requests t (pos i) rounds k count)
  unfolding slice_requests
  slice_requests-Accepted zero k e = tt
  slice_requests-Accepted (suc rounds) k e = (
    rw (request_size k) (accepts_slice-request k (omega arith)),
    slice_requests-Accepted rounds (k + 1) (omega arith),
  )

  pub piece_requests-both :
      Covers 0 (piece_requests t (pos i)) size × All Accepted (piece_requests t (pos i))
  unfolding piece_requests
  piece_requests-both = elim (Bool-cases (count == 1)) [
    | inl one ↦
        let single : count ≡ 1 = ground arith in
        let full : left ≡ slice_size = omega (arith, c.sum, c.whole, c.left_fits) in
        let exact : size ≡ slice_size = omega (arith, c.sum) in
        let final : (0 + 1 == count) ≡ true = ground arith in
        let first = rw (final, full) at (accepts_slice-request 0 c.some_slice) in
        rw (c.bits, single)
          (unfold slice_requests in
            ((refl, refl, omega arith, omega arith, omega arith), (first, tt)))
    | inr more ↦
        let before : (0 + 1 == count) ≡ false = ground arith in
        let first = rw before at (accepts_slice-request 0 c.some_slice) in
        let split : count - 1 ≡ suc (count - 2) = omega (arith, two more) in
        let covers = slice_requests-Covers (count - 2) 1 (omega (arith, two more)) in
        let accepted = slice_requests-Accepted (count - 1) 1 (omega (arith, two more)) in
        rw c.bits ((refl, refl, omega arith, omega arith, rw split covers), (first, accepted))
  ]
    where
      two : (count == 1) ≡ false → 2 ≤ count
      two more = ground (arith, c.some_slice)
