-- ===== src/Bencode/RoundTrip.antt =====
-- The decoders read what is encoded, whatever follows it.
use socket_template.Base.{
  ℕ, zero, suc, ◌+◌, ◌*◌, ◌^◌, ◌<◌, ◌≡◌, refl, ap, ◌∙◌, false, List, [], ◌∷◌, ◌++◌, length, ◌==◌,
  length-append, append_assoc, arith,
}
use socket_template.Bencode.Number.{digits, digits_cons, Digit}
use socket_template.Bencode.{
  Value, Items, Entries, int, str, list, dict, nil, cons, end, entry, ok, first, at_end,
  decode_value, decode_items, decode_entries, append_entry,
}
use socket_template.Bencode.Encode.{
  encode_text, encode, encode_items, encode_entries, IsEncodable, AllEncodable, EntriesEncodable,
  length-encode_pos,
}
use socket_template.Bencode.Leaves.{decode_int-digits, decode_str-encode_text}
use socket_template.Bencode.Keys.{
  glue, glue-append_entry, glue_end, Apart, Apart-append_entry, Apart-end, emplace_new,
}

-- An encoded text begins with a digit, and an encoded value never with the closing `e`.
text_first :
    (s rest : List ℕ)
    → Digit (first (encode_text s ++ rest)) × (at_end (encode_text s ++ rest) ≡ false)
unfolding encode_text
text_first s rest = let (c, cs, e, d, ds) = digits_cons (length s) in rw e (d, ground arith)

value_first : (v : Value) (rest : List ℕ) → at_end (encode v ++ rest) ≡ false
unfolding encode
value_first (int n) rest = refl
value_first (str s) rest = (text_first s rest).1
value_first (list xs) rest = refl
value_first (dict es) rest = refl

decode_value-text :
    (f : ℕ) (s rest : List ℕ)
    → length s < 2 ^ 62
    → decode_value (suc f) (encode_text s ++ rest) ≡ ok (str s) rest
unfolding decode_value
decode_value-text f s rest h =
    let (d, e) = text_first s rest in
    let not_i : (first (encode_text s ++ rest) == b'i') ≡ false = ground arith in
    let not_l : (first (encode_text s ++ rest) == b'l') ≡ false = ground arith in
    let not_d : (first (encode_text s ++ rest) == b'd') ≡ false = ground arith in
    rw (not_i, not_l, not_d, decode_str-encode_text s rest h)

close_first : (rest : List ℕ) (xs : List ℕ) → (xs ++ (b'e' ∷ [])) ++ rest ≡ xs ++ (b'e' ∷ rest)
close_first rest xs = append_assoc xs (b'e' ∷ []) rest

mutual
  unfolding decode_value encode IsEncodable glue

  decode_value-encode_lem :
      (v : Value) (f : ℕ) (rest : List ℕ)
      → IsEncodable v
      → 2 * length (encode v) < f
      → decode_value f (encode v ++ rest) ≡ ok v rest
  decode_value-encode_lem v zero rest w h = elim h [ ]
  decode_value-encode_lem (int n) (suc f) rest w h =
      rw (close_first rest (digits n), decode_int-digits n rest w)
  decode_value-encode_lem (str s) (suc f) rest w h = decode_value-text f s rest w
  decode_value-encode_lem (list xs) (suc f) rest w h = rw (
    close_first rest (encode_items xs),
    decode_items-encode xs f rest w (omega (arith, length-append (encode_items xs) (b'e' ∷ []))),
  )
  decode_value-encode_lem (dict es) (suc f) rest w h = rw (
    close_first rest (encode_entries es),
    decode_entries-encode es f end rest w (Apart-end es)
        (omega (arith, length-append (encode_entries es) (b'e' ∷ []))),
  )

  decode_items-encode :
      (xs : Items) (f : ℕ) (rest : List ℕ)
      → AllEncodable xs
      → 2 * length (encode_items xs) + 1 < f
      → decode_items f (encode_items xs ++ (b'e' ∷ rest)) ≡ ok xs rest
  decode_items-encode xs zero rest w h = absurd (omega arith)
  decode_items-encode nil (suc f) rest w h = refl
  decode_items-encode (cons v xs) (suc f) rest w h =
      let size = length-append (encode v) (encode_items xs) in
      rw (
        append_assoc (encode v) (encode_items xs) (b'e' ∷ rest),
        value_first v (encode_items xs ++ (b'e' ∷ rest)),
        decode_value-encode_lem v f (encode_items xs ++ (b'e' ∷ rest)) w.0 (omega (arith, size)),
        decode_items-encode xs f rest w.1 (omega (arith, size, length-encode_pos v)),
      )

  decode_entries-encode :
      (es : Entries) (f : ℕ) (acc : Entries) (rest : List ℕ)
      → EntriesEncodable es
      → Apart acc es
      → 2 * length (encode_entries es) + 1 < f
      → decode_entries f acc (encode_entries es ++ (b'e' ∷ rest)) ≡ ok (glue acc es) rest
  decode_entries-encode es zero acc rest w a h = absurd (omega arith)
  decode_entries-encode end (suc f) acc rest w a h = rw (glue_end acc)
  decode_entries-encode (entry k v es) (suc f) acc rest w a h =
      let tail = encode_entries es ++ (b'e' ∷ rest) in
      let size = length-append (encode_text k) (encode v ++ encode_entries es) in
      let size' = length-append (encode v) (encode_entries es) in
      let at_key : (encode_text k ++ (encode v ++ encode_entries es)) ++ (b'e' ∷ rest)
          ≡ encode_text k ++ (encode v ++ tail) =
        append_assoc (encode_text k) (encode v ++ encode_entries es) (b'e' ∷ rest)
        ∙ ap (λ (ys : List ℕ). encode_text k ++ ys)
            (append_assoc (encode v) (encode_entries es) (b'e' ∷ rest)) in
      rw (
        at_key,
        (text_first k (encode v ++ tail)).1,
        decode_str-encode_text k (encode v ++ tail) w.0,
        decode_value-encode_lem v f tail w.2 (omega (arith, size, size')),
        emplace_new k v acc a.0,
        decode_entries-encode es f (append_entry k v acc) rest w.3
            (Apart-append_entry k v acc es w.1 a.1)
            (omega (arith, size, size', length-encode_pos v)),
        glue-append_entry k v acc es,
      )

-- With fuel above twice the length of the encoding, the decoders read an encodable value off the front of any
-- text, give back the value, with each key of each dictionary and its value, and leave what follows.
pub decode_value-encode :
    (v : Value) (f : ℕ) (rest : List ℕ)
    → IsEncodable v
    → 2 * length (encode v) < f
    → decode_value f (encode v ++ rest) ≡ ok v rest
decode_value-encode v f rest w h = decode_value-encode_lem v f rest w h
