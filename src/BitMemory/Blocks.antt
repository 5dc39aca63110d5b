-- ===== src/BitMemory/Blocks.antt =====
-- The blocks of BitTorrent/CszBitMemory.cpp as one row of bytes.
use socket_template.Base.{
  ℕ, zero, suc, ◌+◌, ◌-◌, ◌*◌, ◌/◌, ◌%◌, ◌≤◌, ◌<◌, ◌≡◌, refl, ap, ◌∙◌, Option, none, some,
  Bool-cases, inl, inr, List, [], ◌∷◌, length, ltb, leb, ltb→lt, if◌then◌else◌, ◌&&◌, arith,
}
use socket_template.BitMemory.{Block, block_size, memcpy, store}

-- The byte at an offset of the piece, 0 beyond the blocks
unfoldable pub byte : List Block → ℕ → ℕ
byte [] k = 0
byte (b ∷ bs) k = if ltb k block_size then b k else byte bs (k - block_size)

-- `dst` holds `n` bytes of `src` from `at` on, and is `old` elsewhere.
abbrev pub Copied : ℕ → Block → ℕ → List Block → List Block → Type 0
Copied at src n old new =
    (length new ≡ length old)
    × ((k : ℕ) → byte new k ≡ (if leb at k && ltb k (at + n) then src (k - at) else byte old k))

-- The same of the blocks behind one more.
byte_later :
    (b : Block) (bs new : List Block) (base n : ℕ) (src : Block) (k : ℕ)
    → byte new (k - block_size) ≡ (
        if leb base (k - block_size) && ltb (k - block_size) (base + n)
        then src (k - block_size - base)
        else byte bs (k - block_size))
    → byte (b ∷ new) k ≡ (
        if leb (block_size + base) k && ltb k (block_size + base + n)
        then src (k - (block_size + base))
        else byte (b ∷ bs) k)
unfolding byte
byte_later b bs new base n src k h = elim (Bool-cases (ltb k block_size)) [
  | inl low ↦ ground arith
  | inr high ↦
      let e : k - block_size - base ≡ k - (block_size + base) = omega arith in
      let h' : byte new (k - block_size) ≡ (
          if leb base (k - block_size) && ltb (k - block_size) (base + n)
          then src (k - (block_size + base))
          else byte bs (k - block_size)) =
        rw e at h in
      ground arith
]

memcpy-Copied :
    (index at : ℕ) (src : Block) (n : ℕ) (bs : List Block)
    → index < length bs
    → at + n ≤ block_size
    → (new : List Block) × (memcpy index at src n bs ≡ some new)
      × Copied (index * block_size + at) src n bs new
unfolding memcpy byte
memcpy-Copied index at src n [] lt fits = absurd (omega arith)
memcpy-Copied zero at src n (b ∷ bs) lt fits =
    let now : Block =
      λ k. if leb at k then (if ltb k (at + n) then src (k - at) else b k) else b k in
    let stored : memcpy zero at src n (b ∷ bs) ≡ some (now ∷ bs) = ground arith in
    (now ∷ bs, stored, (refl, λ k. ground arith))
memcpy-Copied (suc index) at src n (b ∷ bs) lt fits =
    let (new, stored, (same, bytes)) = memcpy-Copied index at src n bs (omega arith) fits in
    let e : suc index * block_size + at ≡ block_size + (index * block_size + at) = omega arith in
    (
      b ∷ new,
      rw stored refl,
      (
        ap suc same,
        λ k. rw e (byte_later b bs new (index * block_size + at) n src k (bytes (k - block_size))),
      ),
    )

-- Two copies, the second where the first ends
Copied-trans :
    (at : ℕ) (src : Block) (a n : ℕ) (old mid new : List Block)
    → a ≤ n
    → Copied at src a old mid
    → Copied (at + a) (λ k. src (a + k)) (n - a) mid new
    → Copied at src n old new
Copied-trans at src a n old mid new le (l, h) (l', h') = (l' ∙ l, λ k. whole k (h k) (h' k))
  where
    whole :
        (k : ℕ)
        → byte mid k ≡ (if leb at k && ltb k (at + a) then src (k - at) else byte old k)
        → byte new k ≡ (
            if leb (at + a) k && ltb k (at + a + (n - a))
            then src (a + (k - (at + a)))
            else byte mid k)
        → byte new k ≡ (if leb at k && ltb k (at + n) then src (k - at) else byte old k)
    whole k e e' = elim (Bool-cases (leb (at + a) k)) [
      | inl behind ↦
          let same : a + (k - (at + a)) ≡ k - at = ground arith in
          let e'' : byte new k
              ≡ (if leb (at + a) k && ltb k (at + a + (n - a)) then src (k - at) else byte mid k) =
            rw same at e' in
          ground arith
      | inr front ↦ ground arith
    ]

-- The two copies of `store` at a boundary
store_across :
    (i at : ℕ) (src : Block) (n : ℕ) (bs : List Block)
    → at < block_size
    → block_size < at + n
    → n ≤ block_size
    → i + 1 < length bs
    → (new : List Block) × ((elim (memcpy i at src (block_size - at) bs)
          as (λ x. Option (List Block)) [
            | none ↦ none
            | some mid ↦
                memcpy (i + 1) 0 (λ k. src (block_size - at + k)) (n - (block_size - at)) mid
          ])
        ≡ some new)
      × Copied (i * block_size + at) src n bs new
store_across i at src n bs low across short below =
    let lhs = block_size - at in
    let (mid, stored, (same, bytes)) = memcpy-Copied i at src lhs bs (omega arith) (omega arith) in
    let below' : i + 1 < length mid = rw same below in
    let (new, stored', copied) =
      memcpy-Copied (i + 1) 0 (λ k. src (lhs + k)) (n - lhs) mid below' (omega arith) in
    let base : (i + 1) * block_size + 0 ≡ i * block_size + at + lhs = omega arith in
    let copied' : Copied (i * block_size + at + lhs) (λ k. src (lhs + k)) (n - lhs) mid new =
      rw base at copied in
    (
      new,
      rw stored stored',
      Copied-trans (i * block_size + at) src lhs n bs mid new (omega arith) (same, bytes) copied',
    )

-- A slice that is no longer than a block and lies within the blocks is stored, whether or not it crosses from one
-- block into the next: then the bytes of the piece from `begin` on are those of the slice, and the others are as before.
pub store-Copied :
    (begin : ℕ) (src : Block) (n : ℕ) (bs : List Block)
    → n ≤ block_size
    → 0 < n
    → begin + n ≤ length bs * block_size
    → (new : List Block) × (store begin src n bs ≡ some new) × Copied begin src n bs new
unfolding store
store-Copied begin src n bs short some_bytes fits =
    elim (Bool-cases (ltb block_size (begin % block_size + n))) [
      | inr within ↦
          let (new, stored, copied) =
            memcpy-Copied (begin / block_size) (begin % block_size) src n bs (omega arith)
              (ground arith) in
          (new, rw within stored, rw whole at copied)
      | inl across ↦
          let (new, stored, copied) =
            store_across (begin / block_size) (begin % block_size) src n bs (omega arith)
              (ltb→lt _ _ across) short (next_below (ltb→lt _ _ across)) in
          (new, rw across stored, rw whole at copied)
    ]
  where
    whole : begin / block_size * block_size + begin % block_size ≡ begin
    whole = omega arith

    next_below : block_size < begin % block_size + n → begin / block_size + 1 < length bs
    next_below over = omega arith
