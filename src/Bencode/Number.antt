-- ===== src/Bencode/Number.antt =====
-- std::stoul, base ten, of the library that the decoders call, and the decimal digits of a number.
use socket_template.Base.{
  ℕ, zero, suc, ◌+◌, ◌-◌, ◌*◌, ◌/◌, ◌%◌, ◌^◌, ◌≤◌, ◌<◌, ◌≡◌, refl, Bool, true, false, ◌&&◌, ◌||◌,
  List, [], ◌∷◌, ◌++◌, All, length, leb, ltb, ◌==◌, if◌then◌else◌, Bool-cases, inl, inr,
  append_assoc, append-nil, ap, sym, ◌∙◌, length-append, All-append, arith,
}

pub data Parsed : Type 0 where
  value : ℕ → Parsed
  invalid out_of_range : Parsed

unfoldable pub is_digit : ℕ → Bool
is_digit c = leb 48 c && leb c 57

unfoldable pub is_space : ℕ → Bool
is_space c = (leb 9 c && leb c 13) || (c == 32)

-- The number that the digits in front stand for, behind `acc`.
unfoldable pub read_digits : ℕ → List ℕ → ℕ
unfolding is_digit
read_digits acc [] = acc
read_digits acc (c ∷ cs) = if is_digit c then read_digits (acc * 10 + (c - 48)) cs else acc

-- A number out of range is reported; a minus sign negates modulo 2 ^ 64.
pub parse_digits : Bool → List ℕ → Parsed
unfolding read_digits
parse_digits minus [] = invalid
parse_digits minus (c ∷ cs) =
    let n = read_digits 0 (c ∷ cs) in
    if is_digit c
    then if leb (2 ^ 64) n
      then out_of_range
      else if minus
      then value ((2 ^ 64 - n) % 2 ^ 64)
      else value n
    else invalid

pub parse_sign : List ℕ → Parsed
unfolding parse_digits
parse_sign [] = invalid
parse_sign (c ∷ cs) =
    if c == b'-'
    then parse_digits true cs
    else if c == b'+'
    then parse_digits false cs
    else parse_digits false (c ∷ cs)

unfoldable pub stoul : List ℕ → Parsed
unfolding parse_sign is_space
stoul [] = invalid
stoul (c ∷ cs) = if is_space c then stoul cs else parse_sign (c ∷ cs)

-- The decimal digits of `n`, most significant first; more fuel than `n` is enough.
unfoldable pub digits_within : ℕ → ℕ → List ℕ
digits_within zero n = []
digits_within (suc f) n =
    if ltb n 10 then (48 + n) ∷ [] else digits_within f (n / 10) ++ ((48 + n % 10) ∷ [])

unfoldable pub digits : ℕ → List ℕ
unfolding digits_within
digits n = digits_within (suc n) n

abbrev pub Digit : ℕ → Type 0
Digit c = (48 ≤ c) × (c ≤ 57)

digits_within-Digit : (f n : ℕ) → All Digit (digits_within f n)
unfolding digits_within
digits_within-Digit zero n = tt
digits_within-Digit (suc f) n = elim (Bool-cases (ltb n 10)) [
  | inl e ↦ rw e ((omega arith, ground arith), tt)
  | inr e ↦ rw e (
      All-append Digit (digits_within f (n / 10)) _ (digits_within-Digit f (n / 10))
        ((omega arith, omega arith), tt))
]

read_digits-within :
    (f n : ℕ) (tail : List ℕ)
    → n < f
    → read_digits 0 (digits_within f n ++ tail) ≡ read_digits n tail
unfolding digits_within read_digits
read_digits-within zero n tail h = elim h [ ]
read_digits-within (suc f) n tail h = elim (Bool-cases (ltb n 10)) [
  | inl e ↦
      let yes_digit : is_digit (48 + n) ≡ true = unfold is_digit in ground arith in
      let back : 0 * 10 + (48 + n - 48) ≡ n = omega arith in rw (e, yes_digit, back)
  | inr e ↦
      let yes_digit : is_digit (48 + n % 10) ≡ true = unfold is_digit in ground arith in
      let back : n / 10 * 10 + (48 + n % 10 - 48) ≡ n = omega arith in
      let ih = read_digits-within f (n / 10) ((48 + n % 10) ∷ tail) (ground arith) in
      rw (e, append_assoc, ih, read_digits, yes_digit, back)
]

length-digits_within : (f n : ℕ) → length (digits_within f n) ≤ n + 1
unfolding digits_within
length-digits_within zero n = omega arith
length-digits_within (suc f) n = elim (Bool-cases (ltb n 10)) [
  | inl e ↦ rw e (omega arith)
  | inr e ↦ rw e (
      omega (
        arith,
        length-append (digits_within f (n / 10)) ((48 + n % 10) ∷ []),
        length-digits_within f (n / 10),
        big e,
      ))
]
  where
    big : ltb n 10 ≡ false → 10 ≤ n
    big e = ground arith

digits_within-pos : (f n : ℕ) → 0 < length (digits_within (suc f) n)
unfolding digits_within
digits_within-pos f n = elim (Bool-cases (ltb n 10)) [
  | inl e ↦ rw e (omega arith)
  | inr e ↦ rw e (omega (arith, length-append (digits_within f (n / 10)) ((48 + n % 10) ∷ [])))
]

abbrev Starts : List ℕ → Type 0
Starts ds = (c : ℕ) × (cs : List ℕ) × (ds ≡ c ∷ cs) × Digit c × All Digit cs

starts : (ds : List ℕ) → All Digit ds → 0 < length ds → Starts ds
starts [] h p = elim p [ ]
starts (c ∷ cs) h p = (c, cs, refl, h.0, h.1)

-- The digits begin with a digit and go on with digits.
pub digits_cons : (n : ℕ) → Starts (digits n)
unfolding digits
digits_cons n =
    starts (digits_within (suc n) n) (digits_within-Digit (suc n) n) (digits_within-pos n n)

pub All-digits : (n : ℕ) → All Digit (digits n)
unfolding digits
All-digits n = digits_within-Digit (suc n) n

pub length-digits-le : (n : ℕ) → length (digits n) ≤ n + 1
unfolding digits
length-digits-le n = length-digits_within (suc n) n

read_digits-digits : (n : ℕ) → read_digits 0 (digits n) ≡ n
unfolding digits
read_digits-digits n =
    ap (read_digits 0) (sym (append-nil (digits_within (suc n) n)))
    ∙ read_digits-within (suc n) n [] (omega arith)
    ∙ (unfold read_digits in refl)

-- The digits of a number, before something that is no digit, are read as that number.
pub read_digits_stop :
    (n c : ℕ) (rest : List ℕ) → is_digit c ≡ false → read_digits 0 (digits n ++ (c ∷ rest)) ≡ n
unfolding digits
read_digits_stop n c rest e =
    read_digits-within (suc n) n (c ∷ rest) (omega arith) ∙ (unfold read_digits in rw e)

stoul_starts :
    (c : ℕ) (cs : List ℕ) (n : ℕ)
    → Digit c
    → read_digits 0 (c ∷ cs) ≡ n
    → n < 2 ^ 64
    → stoul (c ∷ cs) ≡ value n
unfolding stoul is_space parse_sign parse_digits is_digit
stoul_starts c cs n d e h =
    let not_space : is_space c ≡ false = ground arith in
    let not_minus : (c == b'-') ≡ false = ground arith in
    let not_plus : (c == b'+') ≡ false = ground arith in
    let one_digit : is_digit c ≡ true = ground arith in
    let fits : leb (2 ^ 64) n ≡ false = ground arith in
    rw (not_space, not_minus, not_plus, e, one_digit, fits)

-- stoul reads back the digits of a number of 64 bits.
pub stoul-digits : (n : ℕ) → n < 2 ^ 64 → stoul (digits n) ≡ value n
stoul-digits n h =
    let (c, cs, e, d, ds) = digits_cons n in
    rw e (stoul_starts c cs n d (ap (read_digits 0) (sym e) ∙ read_digits-digits n) h)
