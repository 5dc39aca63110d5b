-- ===== src/Bencode/Encode.antt =====
-- The bencoding that the decoders are meant to read, as an independent printer.
use socket_template.Base.{
  ℕ, ◌^◌, ◌<◌, ◌≡◌, false, List, [], ◌∷◌, ◌++◌, length, length-append, arith,
}
use socket_template.Bencode.Number.{digits}
use socket_template.Bencode.{
  Value, Items, Entries, int, str, list, dict, nil, cons, end, entry, has_key,
}

unfoldable pub encode_text : List ℕ → List ℕ
encode_text s = digits (length s) ++ (b':' ∷ s)

unfoldable mutual
  unfolding encode_text

  pub encode : Value → List ℕ
  encode (int n) = b'i' ∷ (digits n ++ (b'e' ∷ []))
  encode (str s) = encode_text s
  encode (list xs) = b'l' ∷ (encode_items xs ++ (b'e' ∷ []))
  encode (dict es) = b'd' ∷ (encode_entries es ++ (b'e' ∷ []))

  pub encode_items : Items → List ℕ
  encode_items nil = []
  encode_items (cons v xs) = encode v ++ encode_items xs

  pub encode_entries : Entries → List ℕ
  encode_entries end = []
  encode_entries (entry k v es) = encode_text k ++ (encode v ++ encode_entries es)

-- Numbers of 64 bits, texts that memory can hold, and no key twice in a dictionary.
unfoldable mutual
  pub IsEncodable : Value → Type 0
  IsEncodable (int n) = n < 2 ^ 64
  IsEncodable (str s) = length s < 2 ^ 62
  IsEncodable (list xs) = AllEncodable xs
  IsEncodable (dict es) = EntriesEncodable es

  pub AllEncodable : Items → Type 0
  AllEncodable nil = Unit
  AllEncodable (cons v xs) = IsEncodable v × AllEncodable xs

  pub EntriesEncodable : Entries → Type 0
  EntriesEncodable end = Unit
  EntriesEncodable (entry k v es) =
      (length k < 2 ^ 62) × (has_key k es ≡ false) × IsEncodable v × EntriesEncodable es

pub length-encode_text : (s : List ℕ) → 0 < length (encode_text s)
unfolding encode_text
length-encode_text s = omega (arith, length-append (digits (length s)) (b':' ∷ s))

pub length-encode_pos : (v : Value) → 0 < length (encode v)
unfolding encode
length-encode_pos (int n) = omega arith
length-encode_pos (str s) = omega (arith, length-encode_text s)
length-encode_pos (list xs) = omega arith
length-encode_pos (dict es) = omega arith
