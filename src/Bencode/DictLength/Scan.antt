-- ===== src/Bencode/DictLength/Scan.antt =====
-- The scan against the encoding: it finds the end of a dictionary without empty texts.
use socket_template.Base.{
  ℕ, suc, ◌+◌, ◌≡◌, refl, ap, ◌∙◌, true, ◌||◌, List, [], ◌∷◌, ◌++◌, length, drop, ◌==◌,
  length-append, append_assoc, drop-append, arith,
}
use socket_template.Bencode.{Value, Items, Entries, int, str, list, dict, nil, cons, end, entry}
use socket_template.Bencode.Encode.{encode_text, encode, encode_items, encode_entries}
use socket_template.Bencode.DictLength.{ahead, next_token, scan}
use socket_template.Bencode.DictLength.Tokens.{
  IsScannable, AllScannable, EntriesScannable, tokens, tokens_items, tokens_entries,
  next_token-text, next_token-int,
}

-- One round of the loop.
pub scan_ahead :
    (left count passed n count' : ℕ) (s : List ℕ)
    → next_token count s ≡ ahead count' n
    → scan (suc left) (suc count) passed s ≡ scan left count' (passed + n) (drop n s)
unfolding scan
scan_ahead left count passed n count' s e = rw (scan, e)

pub scan_eq :
    {l l' c c' p p' : ℕ} {s s' : List ℕ}
    → l ≡ l'
    → c ≡ c'
    → p ≡ p'
    → s ≡ s'
    → scan l c p s ≡ scan l' c' p' s'
scan_eq {l' = l'} {c = c} {c' = c'} {p = p} {p' = p'} {s = s} a b d e =
    ap (λ x. scan x c p s) a
    ∙ ap (λ x. scan l' x p s) b
    ∙ ap (λ x. scan l' c' x s) d
    ∙ ap (scan l' c' p') e

-- A token of known length, in front of anything.
pub scan_token :
    (left c p : ℕ) (xs rest : List ℕ)
    → next_token c (xs ++ rest) ≡ ahead (c + 1) (length xs)
    → scan (suc left) (suc c) p (xs ++ rest) ≡ scan left (suc c) (p + length xs) rest
scan_token left c p xs rest e =
    scan_ahead left c p (length xs) (c + 1) (xs ++ rest) e
    ∙ scan_eq refl (omega arith) refl (drop-append xs rest)

scan_open :
    (left c p b : ℕ) (s : List ℕ)
    → ((b == b'd') || (b == b'l')) ≡ true
    → scan (suc left) (suc c) p (b ∷ s) ≡ scan left (suc (suc c)) (p + 1) s
unfolding next_token
scan_open left c p b s e =
    scan_ahead left c p 1 (c + 2) (b ∷ s) (rw e) ∙ scan_eq refl (omega arith) refl refl

pub scan_close :
    (left c p : ℕ) (s : List ℕ) → scan (suc left) (suc c) p (b'e' ∷ s) ≡ scan left c (p + 1) s
unfolding next_token
scan_close left c p s = scan_ahead left c p 1 c (b'e' ∷ s) refl

mutual
  unfolding tokens encode IsScannable

  scan-encode :
      (v : Value) (left c p : ℕ) (rest : List ℕ)
      → IsScannable v
      → scan (tokens v + left) (suc c) p (encode v ++ rest)
        ≡ scan left (suc c) (p + length (encode v)) rest
  scan-encode (int n) left c p rest w =
      scan_eq (omega arith) refl refl refl
      ∙ scan_token left c p (encode (int n)) rest (next_token-int c n rest)
  scan-encode (str s) left c p rest w =
      scan_eq (omega arith) refl refl refl
      ∙ scan_token left c p (encode_text s) rest (next_token-text c s rest w.0 w.1)
  scan-encode (list xs) left c p rest w =
      let whole = append_assoc (encode_items xs) (b'e' ∷ []) rest in
      let size = length-append (encode_items xs) (b'e' ∷ []) in
      scan_eq (omega arith) refl refl refl
      ∙ scan_open (tokens_items xs + suc left) c p b'l' ((encode_items xs ++ (b'e' ∷ [])) ++ rest)
          refl
      ∙ scan_eq refl refl refl whole
      ∙ scan_items-encode xs (suc left) (suc c) (p + 1) (b'e' ∷ rest) w
      ∙ scan_close left (suc c) (p + 1 + length (encode_items xs)) rest
      ∙ scan_eq refl refl (omega (arith, size)) refl
  scan-encode (dict es) left c p rest w =
      let whole = append_assoc (encode_entries es) (b'e' ∷ []) rest in
      let size = length-append (encode_entries es) (b'e' ∷ []) in
      scan_eq (omega arith) refl refl refl
      ∙ scan_open (tokens_entries es + suc left) c p b'd'
          ((encode_entries es ++ (b'e' ∷ [])) ++ rest) refl
      ∙ scan_eq refl refl refl whole
      ∙ scan_entries-encode es (suc left) (suc c) (p + 1) (b'e' ∷ rest) w
      ∙ scan_close left (suc c) (p + 1 + length (encode_entries es)) rest
      ∙ scan_eq refl refl (omega (arith, size)) refl

  scan_items-encode :
      (xs : Items) (left c p : ℕ) (rest : List ℕ)
      → AllScannable xs
      → scan (tokens_items xs + left) (suc c) p (encode_items xs ++ rest)
        ≡ scan left (suc c) (p + length (encode_items xs)) rest
  scan_items-encode nil left c p rest w = scan_eq (omega arith) refl (omega arith) refl
  scan_items-encode (cons v xs) left c p rest w =
      let size = length-append (encode v) (encode_items xs) in
      scan_eq (omega arith) refl refl (append_assoc (encode v) (encode_items xs) rest)
      ∙ scan-encode v (tokens_items xs + left) c p (encode_items xs ++ rest) w.0
      ∙ scan_items-encode xs left c (p + length (encode v)) rest w.1
      ∙ scan_eq refl refl (omega (arith, size)) refl

  pub scan_entries-encode :
      (es : Entries) (left c p : ℕ) (rest : List ℕ)
      → EntriesScannable es
      → scan (tokens_entries es + left) (suc c) p (encode_entries es ++ rest)
        ≡ scan left (suc c) (p + length (encode_entries es)) rest
  scan_entries-encode end left c p rest w = scan_eq (omega arith) refl (omega arith) refl
  scan_entries-encode (entry k v es) left c p rest w =
      let size = length-append (encode_text k) (encode v ++ encode_entries es) in
      let size' = length-append (encode v) (encode_entries es) in
      let tail = encode_entries es ++ rest in
      scan_eq (omega arith) refl refl
        (append_assoc (encode_text k) (encode v ++ encode_entries es) rest)
      ∙ scan_eq refl refl refl (
          ap (λ (t : List ℕ). encode_text k ++ t)
            (append_assoc (encode v) (encode_entries es) rest))
      ∙ scan_token (tokens v + (tokens_entries es + left)) c p (encode_text k) (encode v ++ tail)
          (next_token-text c k (encode v ++ tail) w.0 w.1)
      ∙ scan-encode v (tokens_entries es + left) c (p + length (encode_text k)) tail w.2
      ∙ scan_entries-encode es left c (p + length (encode_text k) + length (encode v)) rest w.3
      ∙ scan_eq refl refl (omega (arith, size, size')) refl
