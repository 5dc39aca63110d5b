-- ===== src/Bencode/Leaves.antt =====
-- BInt::Decode and BStr::Decode on the numbers and texts that are encoded.
use socket_template.Base.{
  ℕ, suc, ◌+◌, ◌-◌, ◌%◌, ◌^◌, ◌≤◌, ◌<◌, ◌≡◌, ◌≢◌, refl, ap, sym, ◌∙◌, true, false, some, List, [],
  ◌∷◌, ◌++◌, All, All-map, length, take, drop, slice, ltb, ◌==◌, length-append, append_assoc,
  take-append, drop-append, drop_append_right, arith,
}
use socket_template.Bencode.Number.{
  digits, digits_cons, All-digits, length-digits-le, stoul, stoul-digits, value,
}
use socket_template.Bencode.{ok, find, first, decode_int, decode_str}
use socket_template.Bencode.Encode.{encode_text}

find_append :
    (c : ℕ) (xs ys : List ℕ) → All (λ x. x ≢ c) xs → find c (xs ++ (c ∷ ys)) ≡ some (length xs)
unfolding find
find_append c [] ys h = ground arith
find_append c (x ∷ xs) ys h = ground (arith, h.0, find_append c xs ys h.1)

digits-ne : (c n : ℕ) → 57 < c → All (λ x. x ≢ c) (digits n)
digits-ne c n h = All-map (λ x d e. omega arith) (digits n) (All-digits n)

decode_int_at :
    (s : List ℕ) (stop n : ℕ)
    → first s ≡ b'i'
    → find b'e' s ≡ some stop
    → stoul (slice 1 (stop - 1) s) ≡ value n
    → decode_int s ≡ ok n (drop (stop + 1) s)
unfolding decode_int
decode_int_at s stop n i e v =
    let starts : (first s == b'i') ≡ true = ground arith in rw (starts, e, decode_int, v)

decode_str_at :
    (c : ℕ) (cs : List ℕ) (mid num : ℕ)
    → find b':' (c ∷ cs) ≡ some mid
    → stoul (take mid (c ∷ cs)) ≡ value num
    → num + mid + 1 ≤ length (c ∷ cs)
    → num + mid + 1 < 2 ^ 64
    → decode_str (c ∷ cs) ≡ ok (slice (mid + 1) num (c ∷ cs)) (drop (num + mid + 1) (c ∷ cs))
unfolding decode_str
decode_str_at c cs mid num e v inside small =
    let kept : (num + mid + 1) % 2 ^ 64 ≡ num + mid + 1 = omega arith in
    let room : ltb (length (c ∷ cs)) (num + mid + 1) ≡ false = ground arith in
    rw (e, decode_str, v, decode_str, kept, room)

pub decode_int-digits :
    (n : ℕ) (rest : List ℕ)
    → n < 2 ^ 64
    → decode_int (b'i' ∷ (digits n ++ (b'e' ∷ rest))) ≡ ok n rest
unfolding find
decode_int-digits n rest h =
    let s = b'i' ∷ (digits n ++ (b'e' ∷ rest)) in
    let found = find_append b'e' (digits n) rest (digits-ne b'e' n (omega arith)) in
    let stop : find b'e' s ≡ some (suc (length (digits n))) = rw found in
    let size : suc (length (digits n)) - 1 ≡ length (digits n) = omega arith in
    let number : stoul (slice 1 (suc (length (digits n)) - 1) s) ≡ value n =
      rw (size, take-append (digits n) (b'e' ∷ rest)) (stoul-digits n h) in
    let after : drop (suc (length (digits n)) + 1) s ≡ rest = behind (digits n) in
    decode_int_at s (suc (length (digits n))) n refl stop number ∙ ap (ok n) after
  where
    behind : (ds : List ℕ) → drop (suc (length ds) + 1) (b'i' ∷ (ds ++ (b'e' ∷ rest))) ≡ rest
    behind ds =
        let e : suc (length ds) + 1 ≡ suc (length ds + 1) = omega arith in
        let one : length ds + 1 - length ds ≡ 1 = omega arith in
        rw (e, drop_append_right (length ds + 1) ds (b'e' ∷ rest) (omega arith), one)

pub decode_str-encode_text :
    (s rest : List ℕ) → length s < 2 ^ 62 → decode_str (encode_text s ++ rest) ≡ ok s rest
unfolding encode_text
decode_str-encode_text s rest h =
    let (c, cs, e, d, ds) = digits_cons (length s) in
    let whole : digits (length s) ++ (b':' ∷ s) ++ rest ≡ c ∷ (cs ++ (b':' ∷ (s ++ rest))) =
      rw (append_assoc (digits (length s)) (b':' ∷ s) rest, e) in
    let same : digits (length s) ++ (b':' ∷ (s ++ rest)) ≡ c ∷ (cs ++ (b':' ∷ (s ++ rest))) =
      rw e in
    let mid = length (digits (length s)) in
    let found =
      find_append b':' (digits (length s)) (s ++ rest) (digits-ne b':' (length s) (omega arith)) in
    let number : stoul (take mid (digits (length s) ++ (b':' ∷ (s ++ rest)))) ≡ value (length s) =
      rw (take-append (digits (length s)) (b':' ∷ (s ++ rest)))
        (stoul-digits (length s) (omega arith)) in
    let step =
      decode_str_at c (cs ++ (b':' ∷ (s ++ rest))) mid (length s)
        (ap (find b':') (sym same) ∙ found) (rw same at number)
        (omega (
          arith,
          ap length same,
          length-append (digits (length s)) (b':' ∷ (s ++ rest)),
          length-append s rest,
        ))
        (omega (arith, length-digits-le (length s))) in
    ap decode_str whole ∙ step ∙ (rw (← same) (parts (digits (length s))))
  where
    parts :
        (ds : List ℕ)
        → ok
            (slice (length ds + 1) (length s) (ds ++ (b':' ∷ (s ++ rest))))
            (drop (length s + length ds + 1) (ds ++ (b':' ∷ (s ++ rest))))
          ≡ ok s rest
    parts ds =
        let one : length ds + 1 - length ds ≡ 1 = omega arith in
        let more : length s + length ds + 1 - length ds ≡ suc (length s) = omega arith in
        rw (
          drop_append_right (length ds + 1) ds (b':' ∷ (s ++ rest)) (omega arith),
          one,
          drop_append_right (length s + length ds + 1) ds (b':' ∷ (s ++ rest)) (omega arith),
          more,
          take-append,
          drop-append,
        )
