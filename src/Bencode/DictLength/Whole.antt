-- ===== src/Bencode/DictLength/Whole.antt =====
-- GetDictLength on an encoded dictionary.
use socket_template.Base.{
  ℕ, zero, suc, false, ◌-◌, ◌+◌, ◌≤◌, ◌<◌, ◌^◌, ◌≡◌, refl, ap, ◌∙◌, List, [], ◌∷◌, ◌++◌, length,
  ◌==◌, length-append, append_assoc, arith,
}
use socket_template.Bencode.Number.{digits}
use socket_template.Bencode.{Entries, str, dict, entry}
use socket_template.Bencode.Encode.{encode_text, encode, encode_entries}
use socket_template.Bencode.DictLength.{found, refused, next_token, scan, get_dict_length}
use socket_template.Bencode.DictLength.Tokens.{
  IsScannable, tokens_entries, tokens_entries-le, next_token-text,
}
use socket_template.Bencode.DictLength.Scan.{scan_eq, scan_token, scan_close, scan_entries-encode}

-- In front of any text, the length of an encoded dictionary is found, when `len` is at least that length and none of
-- its keys and texts is empty or as long as 2 ^ 31.
pub get_dict_length-encode :
    (es : Entries) (rest : List ℕ) (len : ℕ)
    → IsScannable (dict es)
    → length (encode (dict es)) ≤ len
    → get_dict_length (encode (dict es) ++ rest) len ≡ found (length (encode (dict es)))
unfolding get_dict_length encode IsScannable scan
get_dict_length-encode es rest len w h =
    let size = length-append (encode_entries es) (b'e' ∷ []) in
    let asked : (len == 0) ≡ false = ground arith in
    let text : ((encode_entries es ++ (b'e' ∷ [])) ++ rest) ++ (0 ∷ [])
        ≡ encode_entries es ++ (b'e' ∷ (rest ++ (0 ∷ []))) =
      append_assoc (encode_entries es ++ (b'e' ∷ [])) rest (0 ∷ [])
      ∙ append_assoc (encode_entries es) (b'e' ∷ []) (rest ++ (0 ∷ [])) in
    let left = len - tokens_entries es - 1 in
    rw asked (
      scan_eq {l = len} {l' = tokens_entries es + suc left} {c = 1} {p = 1}
        (omega (arith, size, tokens_entries-le es)) refl refl text
      ∙ scan_entries-encode es (suc left) 0 1 (b'e' ∷ (rest ++ (0 ∷ []))) w
      ∙ scan_close left 0 (1 + length (encode_entries es)) (rest ++ (0 ∷ []))
      ∙ ended left (1 + length (encode_entries es) + 1)
      ∙ ap found (omega (arith, size)))
  where
    ended : (left p : ℕ) → scan left 0 p (rest ++ (0 ∷ [])) ≡ found p
    ended zero p = refl
    ended (suc left) p = refl

-- A dictionary whose first value is the empty text is refused, whatever follows, when its key is neither empty nor
-- as long as 2 ^ 31 and `len` is at least two.
pub get_dict_length_empty_text :
    (k : List ℕ) (es : Entries) (rest : List ℕ) (len : ℕ)
    → 0 < length k
    → length k < 2 ^ 31
    → 2 ≤ len
    → get_dict_length (encode (dict (entry k (str []) es)) ++ rest) len ≡ refused
unfolding get_dict_length encode scan next_token digits
get_dict_length_empty_text k es rest len lo hi h =
    let asked : (len == 0) ≡ false = ground arith in
    let enough : len ≡ suc (suc (len - 2)) = omega arith in
    let tail = encode_entries es ++ (b'e' ∷ (rest ++ (0 ∷ []))) in
    rw asked (
      ap (scan len 1 1) (front (encode_text k) (b'0' ∷ b':' ∷ encode_entries es))
      ∙ ap (λ l. scan l 1 1 (encode_text k ++ (b'0' ∷ b':' ∷ tail))) enough
      ∙ scan_token (suc (len - 2)) 0 1 (encode_text k) (b'0' ∷ b':' ∷ tail)
          (next_token-text 0 k (b'0' ∷ b':' ∷ tail) lo hi))
  where
    front :
        (xs ys : List ℕ)
        → (((xs ++ ys) ++ (b'e' ∷ [])) ++ rest) ++ (0 ∷ [])
          ≡ xs ++ (ys ++ (b'e' ∷ (rest ++ (0 ∷ []))))
    front xs ys =
        append_assoc ((xs ++ ys) ++ (b'e' ∷ [])) rest (0 ∷ [])
        ∙ append_assoc (xs ++ ys) (b'e' ∷ []) (rest ++ (0 ∷ []))
        ∙ append_assoc xs ys (b'e' ∷ (rest ++ (0 ∷ [])))
