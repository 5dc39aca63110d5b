-- ===== src/Bencode/DictLength.antt =====
-- GetDictLength of BitTorrent/CszGetDictLength.cpp: the length of the dictionary at the front of a
-- text, from a scan over its tokens. The text is a C string: a NUL stands behind it.
pub mod Tokens
pub mod Scan
pub mod Whole
use socket_template.Base.{
  ℕ, zero, suc, ◌+◌, ◌^◌, Bool, true, false, ◌||◌, List, [], ◌∷◌, ◌++◌, drop, get_or, leb, ◌==◌,
  if◌then◌else◌,
}
use socket_template.Bencode.Number.{is_digit, read_digits}

pub data DictLength : Type 0 where
  found : ℕ → DictLength
  -- -1
  refused : DictLength
  -- a read behind the NUL, or a length that an int does not hold
  fault : DictLength

-- One round of the loop: the nesting afterwards and the bytes that it goes ahead.
pub data Token : Type 0 where
  ahead : ℕ → ℕ → Token
  refuse fault : Token

-- while (isdigit(*T_str)) ++T_str
pub digit_run : List ℕ → ℕ
unfolding is_digit
digit_run [] = 0
digit_run (c ∷ cs) = if is_digit c then suc (digit_run cs) else 0

-- A text: its length in digits, a character, and as many bytes.
pub text_token : ℕ → List ℕ → Token
unfolding digit_run read_digits
text_token count s =
    let num = read_digits 0 s in
    if leb (2 ^ 31) num
    then Token.fault
    else if num == 0
    then refuse
    else ahead count (digit_run s + num + 1)

-- `count` is the nesting less one: the loop runs while the nesting is above zero.
pub next_token : ℕ → List ℕ → Token
unfolding text_token
next_token count [] = Token.fault
next_token count (c ∷ cs) =
    if (c == b'd') || (c == b'l')
    then ahead (count + 2) 1
    else if c == b'e'
    then ahead count 1
    else if c == b'i'
    then ahead (count + 1) (digit_run cs + 2)
    else text_token (count + 1) (c ∷ cs)

-- The loop, with `left` what T_len still allows and `passed` the bytes behind.
pub scan : ℕ → ℕ → ℕ → List ℕ → DictLength
unfolding next_token
scan left zero passed s = found passed
scan zero (suc count) passed s = found passed
scan (suc left) (suc count) passed s = elim (next_token count s) [
  | ahead count' n ↦ scan left count' (passed + n) (drop n s)
  | refuse ↦ refused
  | Token.fault ↦ DictLength.fault
]

pub get_dict_length : List ℕ → ℕ → DictLength
unfolding scan
get_dict_length s len =
    if len == 0
    then refused
    else if get_or s 0 0 == b'd'
    then scan len 1 1 (drop 1 (s ++ (0 ∷ [])))
    else refused
