-- ===== src/Wire/Frame/RoundTrip.antt =====
-- What one side sends is what the other side's SelectSwitch reads, and the stream goes on behind it.
use socket_template.Base.{
  ℕ, suc, ◌+◌, ◌-◌, ◌%◌, ◌^◌, ◌≡◌, refl, ap, ◌∙◌, ◌≤◌, ◌<◌, false, some, List, [], ◌∷◌, ◌++◌,
  length, leb, ℤ, pos, negsuc, to_u32, length-append, take-append, drop-append, arith,
}
use socket_template.Wire.Bytes.{htonl, htonl_value}
use socket_template.Wire.{
  keep_alive, choke, unchoke, interested, uninterested, have, have_new, request, cancle, piece,
  piece_new,
}
use socket_template.Wire.Frame.{Frame, task, next_frame, have_index, request_fields, piece_fields}

-- A length, an id of a message with a body, and that body.
next_frame-task :
    (n id : ℕ) (payload rest : List ℕ)
    → 4 ≤ id
    → id < 10
    → length payload + 1 ≡ n
    → 1 < n
    → n ≤ 2 ^ 31
    → next_frame (htonl n ++ (id ∷ (payload ++ rest))) ≡ task id payload rest
unfolding next_frame htonl
next_frame-task n id payload rest lo hi e one max =
    let value = htonl_value n (omega arith) in
    let size : n - 1 ≡ length payload = omega arith in
    let enough : length (payload ++ rest) ≡ length payload + length rest =
      length-append payload rest in
    ground (arith, value, size, enough, take-append payload rest, drop-append payload rest)

to_u32-lt : (i : ℤ) → to_u32 i < 2 ^ 32
to_u32-lt (pos n) = omega arith
to_u32-lt (negsuc n) = omega arith

abbrev three : ℕ → ℕ → ℕ → List ℕ
three a b c = htonl a ++ (htonl b ++ (htonl c ++ []))

request-bytes :
    (i b s : ℤ) (rest : List ℕ)
    → request i b s ++ rest ≡ htonl 13 ++ (6 ∷ (three (to_u32 i) (to_u32 b) (to_u32 s) ++ rest))
unfolding request htonl
request-bytes i b s rest = refl

cancle-bytes :
    (i b s : ℤ) (rest : List ℕ)
    → cancle i b s ++ rest ≡ htonl 13 ++ (8 ∷ (three (to_u32 i) (to_u32 b) (to_u32 s) ++ rest))
unfolding cancle htonl
cancle-bytes i b s rest = refl

request_fields-three :
    (a b c : ℕ)
    → a < 2 ^ 32
    → b < 2 ^ 32
    → c < 2 ^ 32
    → request_fields (three a b c) ≡ some (a, b, c)
unfolding request_fields htonl
request_fields-three a b c ha hb hc =
    ground (arith, htonl_value a ha, htonl_value b hb, htonl_value c hc)

-- A Request is read back as one task for DRequest, with the index, begin and length it was made
-- with, as 32-bit patterns, and the bytes behind it stay to be read. A Cancle is read as a task for
-- DCancle with the same twelve bytes.
pub next_frame-request :
    (i b s : ℤ) (rest : List ℕ)
    → (buf : List ℕ) × (next_frame (request i b s ++ rest) ≡ task 6 buf rest)
      × (next_frame (cancle i b s ++ rest) ≡ task 8 buf rest)
      × (request_fields buf ≡ some (to_u32 i, to_u32 b, to_u32 s))
next_frame-request i b s rest =
    let buf = three (to_u32 i) (to_u32 b) (to_u32 s) in
    (
      buf,
      ap next_frame (request-bytes i b s rest)
          ∙ next_frame-task 13 6 buf rest (omega arith) (omega arith)
              (twelve (to_u32 i) (to_u32 b) (to_u32 s)) (omega arith) (omega arith),
      ap next_frame (cancle-bytes i b s rest)
          ∙ next_frame-task 13 8 buf rest (omega arith) (omega arith)
              (twelve (to_u32 i) (to_u32 b) (to_u32 s)) (omega arith) (omega arith),
      request_fields-three _ _ _ (to_u32-lt i) (to_u32-lt b) (to_u32-lt s),
    )
  where
    twelve : (a b c : ℕ) → length (three a b c) + 1 ≡ 13
    twelve a b c = unfold htonl in refl

-- A Have is read back as a task for DHave with its index, also when the object held another before.
pub next_frame-have :
    (i j : ℤ) (rest : List ℕ)
    → (buf : List ℕ) × (next_frame (have (have have_new j) i ++ rest) ≡ task 4 buf rest)
      × (have_index buf ≡ some (to_u32 i))
unfolding have have_new have_index next_frame htonl
next_frame-have i j rest =
    (htonl (to_u32 i), ground arith, ground (arith, htonl_value (to_u32 i) (to_u32-lt i)))

-- The four messages without a body and the keep-alive are read back as themselves.
pub next_frame-short :
    (rest : List ℕ)
    → (next_frame (keep_alive ++ rest) ≡ Frame.keep_alive rest)
      × (next_frame (choke ++ rest) ≡ Frame.choke rest)
      × (next_frame (unchoke ++ rest) ≡ Frame.unchoke rest)
      × (next_frame (interested ++ rest) ≡ Frame.interested rest)
      × (next_frame (uninterested ++ rest) ≡ Frame.uninterested rest)
unfolding next_frame keep_alive choke unchoke interested uninterested htonl
next_frame-short rest = (ground arith, ground arith, ground arith, ground arith, ground arith)

piece-bytes :
    (i b c : ℕ) (cs : List ℕ) (rest : List ℕ)
    → piece piece_new (pos i) (pos b) (c ∷ cs) ++ rest
      ≡ htonl (length (c ∷ cs) + 9)
        ++ (7 ∷ ((htonl (i % 2 ^ 32) ++ (htonl (b % 2 ^ 32) ++ (c ∷ cs))) ++ rest))
unfolding piece piece_new htonl
piece-bytes i b c cs rest =
    let long : leb
          (suc (
            suc
              (suc (suc (suc (suc (suc (suc (suc (suc (suc (suc (suc (suc (length cs)))))))))))))))
          13
        ≡ false =
      ground arith in
    let size : suc (
            suc (suc (suc (suc (suc (suc (suc (suc (suc (suc (suc (suc (suc (length cs))))))))))))))
          - 4
        ≡ suc (length cs) + 9 =
      omega arith in
    rw (long, size)

-- A Piece with a slice of at most 2 ^ 31 - 10 bytes is read back as a task for DPiece with its index,
-- its begin and exactly that slice; one made from a negative index or begin or an empty slice is
-- left as it was.
pub next_frame-piece :
    (i b c : ℕ) (cs rest : List ℕ)
    → i < 2 ^ 31
    → b < 2 ^ 31
    → length cs + 10 ≤ 2 ^ 31
    → (buf : List ℕ) × (next_frame (piece piece_new (pos i) (pos b) (c ∷ cs) ++ rest)
        ≡ task 7 buf rest)
      × (piece_fields buf ≡ some (i, b, c ∷ cs))
      × ((n : ℕ) (k : ℤ) (slice p : List ℕ)
          → (piece p (negsuc n) k slice ≡ p) × (piece p (pos i) (negsuc n) slice ≡ p))
      × (piece piece_new (pos i) (pos b) [] ≡ piece_new)
unfolding piece
next_frame-piece i b c cs rest hi hb hc = (
  htonl (i % 2 ^ 32) ++ (htonl (b % 2 ^ 32) ++ (c ∷ cs)),
  ap next_frame (piece-bytes i b c cs rest)
      ∙ next_frame-task (length (c ∷ cs) + 9) 7 _ rest (omega arith) (omega arith)
          (size (i % 2 ^ 32) (b % 2 ^ 32)) (omega arith) (omega arith),
  fields i b hi hb,
  λ n k slice p. (refl, refl),
  refl,
)
  where
    size : (x y : ℕ) → length (htonl x ++ (htonl y ++ (c ∷ cs))) + 1 ≡ length (c ∷ cs) + 9
    size x y = unfold htonl in omega arith

    fields :
        (x y : ℕ)
        → x < 2 ^ 31
        → y < 2 ^ 31
        → piece_fields (htonl (x % 2 ^ 32) ++ (htonl (y % 2 ^ 32) ++ (c ∷ cs)))
          ≡ some (x, y, c ∷ cs)
    fields x y hx hy = unfold piece_fields htonl in ground (arith, htonl_value x, htonl_value y)
