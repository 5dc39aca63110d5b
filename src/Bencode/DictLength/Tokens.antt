-- ===== src/Bencode/DictLength/Tokens.antt =====
-- What GetDictLength makes of the tokens of an encoded value.
use socket_template.Base.{
  ℕ, suc, ◌+◌, ◌^◌, ◌≤◌, ◌<◌, ◌≡◌, refl, ap, sym, ◌∙◌, true, false, List, [], ◌∷◌, ◌++◌, All,
  length, leb, ◌==◌, length-append, append_assoc, arith,
}
use socket_template.Bencode.Number.{
  is_digit, digits, digits_cons, Digit, All-digits, read_digits_stop,
}
use socket_template.Bencode.{Value, Items, Entries, int, str, list, dict, nil, cons, end, entry}
use socket_template.Bencode.Encode.{
  encode_text, encode, encode_items, encode_entries, length-encode_text,
}
use socket_template.Bencode.DictLength.{ahead, digit_run, text_token, next_token}

-- No text is empty or longer than an int tells.
unfoldable mutual
  pub IsScannable : Value → Type 0
  IsScannable (int n) = Unit
  IsScannable (str s) = (0 < length s) × (length s < 2 ^ 31)
  IsScannable (list xs) = AllScannable xs
  IsScannable (dict es) = EntriesScannable es

  pub AllScannable : Items → Type 0
  AllScannable nil = Unit
  AllScannable (cons v xs) = IsScannable v × AllScannable xs

  pub EntriesScannable : Entries → Type 0
  EntriesScannable end = Unit
  EntriesScannable (entry k v es) =
      (0 < length k) × (length k < 2 ^ 31) × IsScannable v × EntriesScannable es

-- The rounds that the loop takes for a value.
unfoldable mutual
  pub tokens : Value → ℕ
  tokens (int n) = 1
  tokens (str s) = 1
  tokens (list xs) = suc (tokens_items xs + 1)
  tokens (dict es) = suc (tokens_entries es + 1)

  pub tokens_items : Items → ℕ
  tokens_items nil = 0
  tokens_items (cons v xs) = tokens v + tokens_items xs

  pub tokens_entries : Entries → ℕ
  tokens_entries end = 0
  tokens_entries (entry k v es) = suc (tokens v + tokens_entries es)

mutual
  unfolding tokens encode

  tokens-le : (v : Value) → tokens v ≤ length (encode v)
  tokens-le (int n) = omega arith
  tokens-le (str s) = omega (arith, length-encode_text s)
  tokens-le (list xs) =
      omega (arith, tokens_items-le xs, length-append (encode_items xs) (b'e' ∷ []))
  tokens-le (dict es) =
      omega (arith, tokens_entries-le es, length-append (encode_entries es) (b'e' ∷ []))

  tokens_items-le : (xs : Items) → tokens_items xs ≤ length (encode_items xs)
  tokens_items-le nil = omega arith
  tokens_items-le (cons v xs) =
      omega (arith, tokens-le v, tokens_items-le xs, length-append (encode v) (encode_items xs))

  pub tokens_entries-le : (es : Entries) → tokens_entries es ≤ length (encode_entries es)
  tokens_entries-le end = omega arith
  tokens_entries-le (entry k v es) = omega (
    arith,
    length-encode_text k,
    tokens-le v,
    tokens_entries-le es,
    length-append (encode_text k) (encode v ++ encode_entries es),
    length-append (encode v) (encode_entries es),
  )

digit_run-append :
    (ds : List ℕ) (c : ℕ) (rest : List ℕ)
    → All Digit ds
    → is_digit c ≡ false
    → digit_run (ds ++ (c ∷ rest)) ≡ length ds
unfolding digit_run
digit_run-append [] c rest h e = rw e
digit_run-append (d ∷ ds) c rest h e =
    let a_digit : is_digit d ≡ true = unfold is_digit in ground (arith, h.0) in
    rw (a_digit, digit_run-append ds c rest h.1 e)

text_token-digits :
    (count n : ℕ) (t : List ℕ)
    → 0 < n
    → n < 2 ^ 31
    → text_token count (digits n ++ (b':' ∷ t)) ≡ ahead count (length (digits n) + n + 1)
unfolding text_token
text_token-digits count n t lo hi =
    let number = read_digits_stop n b':' t refl in
    let run = digit_run-append (digits n) b':' t (All-digits n) refl in
    let fits : leb (2 ^ 31) n ≡ false = ground arith in
    let some_text : (n == 0) ≡ false = ground arith in rw (number, fits, some_text, run)

next_token-Digit :
    (count c : ℕ) (cs : List ℕ)
    → Digit c
    → next_token count (c ∷ cs) ≡ text_token (count + 1) (c ∷ cs)
unfolding next_token
next_token-Digit count c cs d =
    let not_d : (c == b'd') ≡ false = ground arith in
    let not_l : (c == b'l') ≡ false = ground arith in
    let not_e : (c == b'e') ≡ false = ground arith in
    let not_i : (c == b'i') ≡ false = ground arith in rw (not_d, not_l, not_e, not_i)

pub next_token-text :
    (count : ℕ) (s rest : List ℕ)
    → 0 < length s
    → length s < 2 ^ 31
    → next_token count (encode_text s ++ rest) ≡ ahead (count + 1) (length (encode_text s))
unfolding encode_text
next_token-text count s rest lo hi =
    let (c, cs, e, d, ds) = digits_cons (length s) in
    let tail = b':' ∷ (s ++ rest) in
    let size : length (digits (length s)) + length s + 1
        ≡ length (digits (length s) ++ (b':' ∷ s)) =
      omega (arith, length-append (digits (length s)) (b':' ∷ s)) in
    let whole : (digits (length s) ++ (b':' ∷ s)) ++ rest ≡ digits (length s) ++ tail =
      append_assoc (digits (length s)) (b':' ∷ s) rest in
    let front : digits (length s) ++ tail ≡ c ∷ (cs ++ tail) =
      ap (λ (ds' : List ℕ). ds' ++ tail) e in
    ap (next_token count) (whole ∙ front)
    ∙ next_token-Digit count c (cs ++ tail) d
    ∙ ap (text_token (count + 1)) (sym front)
    ∙ text_token-digits (count + 1) (length s) (s ++ rest) lo hi
    ∙ ap (ahead (count + 1)) size

pub next_token-int :
    (count n : ℕ) (rest : List ℕ)
    → next_token count (encode (int n) ++ rest) ≡ ahead (count + 1) (length (encode (int n)))
unfolding next_token encode
next_token-int count n rest =
    let run = digit_run-append (digits n) b'e' rest (All-digits n) refl in
    let size : length (digits n) + 2 ≡ suc (length (digits n ++ (b'e' ∷ []))) =
      omega (arith, length-append (digits n) (b'e' ∷ [])) in
    rw (append_assoc (digits n) (b'e' ∷ []) rest, run, size)
