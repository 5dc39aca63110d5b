-- ===== src/Web/Escape.antt =====
-- UrlEscape of Web/CszUrlEscape.cpp against the reading of a percent-encoded text.
use socket_template.Base.{
  ℕ, ◌+◌, ◌-◌, ◌*◌, ◌/◌, ◌%◌, ◌<◌, ◌≡◌, refl, ap, ◌∙◌, true, false, Bool-cases, inl, inr, List, [],
  ◌∷◌, All, leb, ◌==◌, ==_iff, subst, if◌then◌else◌, arith,
}
use socket_template.Web.{is_plain, hex_digit, url_escape}

-- The value of a hexadecimal digit in small letters
unfoldable pub hex_value : ℕ → ℕ
hex_value d = if leb d b'9' then d - b'0' else d - b'a' + 10

-- A percent sign and two digits stand for a byte.
unfoldable pub unescape : List ℕ → List ℕ
unfolding hex_value
unescape [] = []
unescape (c ∷ []) = c ∷ []
unescape (c ∷ d ∷ []) = c ∷ unescape (d ∷ [])
unescape (c ∷ d ∷ e ∷ cs) =
    let short = c ∷ unescape (d ∷ e ∷ cs) in
    let long = (hex_value d * 16 + hex_value e) ∷ unescape cs in if c == b'%' then long else short

unescape-plain : (c : ℕ) (cs : List ℕ) → (c == b'%') ≡ false → unescape (c ∷ cs) ≡ c ∷ unescape cs
unfolding unescape
unescape-plain c [] e = refl
unescape-plain c (d ∷ []) e = refl
unescape-plain c (d ∷ x ∷ cs) e = rw e

unescape-percent :
    (d e : ℕ) (cs : List ℕ)
    → unescape (b'%' ∷ d ∷ e ∷ cs) ≡ (hex_value d * 16 + hex_value e) ∷ unescape cs
unfolding unescape
unescape-percent d e cs = refl

hex_value-hex_digit : (d : ℕ) → d < 16 → hex_value (hex_digit d) ≡ d
unfolding hex_value hex_digit
hex_value-hex_digit d h = ground arith

plain_byte : (c : ℕ) → is_plain c ≡ true → (c == b'%') ≡ false
unfolding is_plain
plain_byte c plain = elim (Bool-cases (c == b'%')) [
  | inl percent ↦
      let no : is_plain b'%' ≡ true =
        subst (λ (k : ℕ). is_plain k ≡ true) ((==_iff c b'%').0 percent) plain in
      absurd (impossible no)
  | inr other ↦ other
]
  where
    impossible : false ≡ true → ⊥
    impossible e = cc

-- A text of bytes is read back from its escaped form.
pub unescape-url_escape : (cs : List ℕ) → All (λ c. c < 256) cs → unescape (url_escape cs) ≡ cs
unfolding url_escape
unescape-url_escape [] h = unfold unescape in refl
unescape-url_escape (c ∷ cs) h = elim (Bool-cases (is_plain c)) [
  | inl plain ↦ rw plain (
      unescape-plain c (url_escape cs) (plain_byte c plain)
      ∙ ap (λ (l : List ℕ). c ∷ l) (unescape-url_escape cs h.1))
  | inr escaped ↦
      let high = hex_value-hex_digit (c % 256 / 16) (omega (arith, h.0)) in
      let low = hex_value-hex_digit (c % 16) (omega arith) in
      let whole : c % 256 / 16 * 16 + c % 16 ≡ c = omega (arith, h.0) in
      rw escaped (
        unescape-percent (hex_digit (c % 256 / 16)) (hex_digit (c % 16)) (url_escape cs)
        ∙ rw (high, low, whole) (ap (λ (l : List ℕ). c ∷ l) (unescape-url_escape cs h.1)))
]
