-- ===== src/BitMemory/Bytes.antt =====
-- The bytes that BitTorrent/CszBitMemory.cpp gives to Sha1.
use socket_template.Base.{
  ℕ, zero, suc, ◌+◌, ◌-◌, ◌*◌, ◌≤◌, ◌<◌, ◌≡◌, refl, ap, sym, ◌∙◌, Bool-cases, inl, inr, List, [],
  ◌∷◌, ◌++◌, length, ltb, ltb→lt, ltb→le, arith,
}
use socket_template.BitMemory.{Block, block_size, read, sha1_data, take_blocks}
use socket_template.BitMemory.Blocks.{byte}

pub read_same : (f g : Block) (n : ℕ) → ((k : ℕ) → k < n → f k ≡ g k) → read f n ≡ read g n
unfolding read
read_same f g zero h = refl
read_same f g (suc n) h =
    rw
      (
        h 0 (omega arith),
        read_same (λ k. f (suc k)) (λ k. g (suc k)) n (λ k lt. h (suc k) (omega arith)),
      )
      refl

read-append : (f : Block) (a b : ℕ) → read f (a + b) ≡ read f a ++ read (λ k. f (a + k)) b
unfolding read
read-append f zero b =
    let e : 0 + b ≡ b = omega arith in
    rw e (read_same f (λ k. f (0 + k)) b (λ k lt. let e' : k ≡ 0 + k = omega arith in ap f e'))
read-append f (suc a) b =
    let e : suc a + b ≡ suc (a + b) = omega arith in
    rw e (
      ap (λ (l : List ℕ). f 0 ∷ l)
        (read-append (λ k. f (suc k)) a b
          ∙ ap (λ (l : List ℕ). read (λ k. f (suc k)) a ++ l)
              (read_same (λ k. f (suc (a + k))) (λ k. f (suc a + k)) b
                (λ k lt. let e' : suc (a + k) ≡ suc a + k = omega arith in ap f e'))))

byte_here : (b : Block) (bs : List Block) (k : ℕ) → k < block_size → byte (b ∷ bs) k ≡ b k
unfolding byte
byte_here b bs k lt = ground arith

byte_next : (b : Block) (bs : List Block) (k : ℕ) → byte (b ∷ bs) (block_size + k) ≡ byte bs k
unfolding byte
byte_next b bs k =
    let e : block_size + k - block_size ≡ k = omega arith in
    elim (Bool-cases (ltb (block_size + k) block_size)) [
      | inl low ↦ absurd (high (ltb→lt _ _ low))
      | inr high ↦ rw (high, e)
    ]
  where
    high : block_size + k < block_size → ⊥
    high lt = omega arith

-- A block, and what comes behind it
read-byte :
    (b : Block) (bs : List Block) (rest : ℕ)
    → read b block_size ++ read (byte bs) rest ≡ read (byte (b ∷ bs)) (block_size + rest)
read-byte b bs rest = sym (
    read-append (byte (b ∷ bs)) block_size rest
    ∙ ap (λ (l : List ℕ). l ++ read (λ k. byte (b ∷ bs) (block_size + k)) rest)
        (read_same (byte (b ∷ bs)) b block_size (λ k lt. byte_here b bs k lt))
    ∙ ap (λ (l : List ℕ). read b block_size ++ l)
        (read_same (λ k. byte (b ∷ bs) (block_size + k)) (byte bs) rest (λ k lt. byte_next b bs k)))

-- The data that Write gives to Sha1 are the first bytes of the piece.
pub sha1_data-read :
    (bs : List Block) (len : ℕ)
    → len ≤ length bs * block_size
    → sha1_data bs len ≡ read (byte bs) len
unfolding sha1_data byte
sha1_data-read [] len fits = let e : len ≡ 0 = omega arith in rw e (unfold read in refl)
sha1_data-read (b ∷ bs) len fits = elim (Bool-cases (ltb 0 len)) [
  | inr empty ↦ let e : len ≡ 0 = ground arith in rw e (unfold read in refl)
  | inl more ↦ elim (Bool-cases (ltb block_size len)) [
    | inl beyond ↦
        let e : len ≡ block_size + (len - block_size) = ground arith in
        rw (more, beyond)
          (ap (λ (l : List ℕ). read b block_size ++ l)
              (sha1_data-read bs (len - block_size) (omega arith))
            ∙ read-byte b bs (len - block_size)
            ∙ ap (λ (n : ℕ). read (byte (b ∷ bs)) n) (sym e))
    | inr last ↦
        rw (more, last)
          (read_same b (byte (b ∷ bs)) len
            (λ k lt. sym (byte_here b bs k (below k lt (ltb→le _ _ last)))))
  ]
]
  where
    below : (k : ℕ) → k < len → len ≤ block_size → k < block_size
    below k lt le = omega arith

pub take_blocks-length :
    (fresh : Block) (fuel len : ℕ)
    → len ≤ fuel
    → len ≤ length (take_blocks fresh fuel len) * block_size
unfolding take_blocks
take_blocks-length fresh zero len le = omega arith
take_blocks-length fresh (suc fuel) len le =
    let ih = take_blocks-length fresh fuel (len - block_size) (omega arith) in
    elim (Bool-cases (ltb 0 len)) [ inl more ↦ rw more (omega arith) | inr empty ↦ ground arith ]
