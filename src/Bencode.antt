-- ===== src/Bencode.antt =====
-- Bencoded data: BInt, BStr, BList and BDict of BitTorrent/CszBInt.cpp, CszBStr.cpp, CszBList.cpp and
-- CszBDict.cpp. A text is the list of its bytes. Allocation is taken to succeed.
pub mod Number
pub mod Encode
pub mod Leaves
pub mod Keys
pub mod RoundTrip
pub mod Endless
pub mod DictLength
mod Examples
use socket_template.Base.{
  ℕ, zero, suc, ◌+◌, ◌-◌, ◌%◌, ◌^◌, Bool, true, false, ◌&&◌, ◌||◌, Option, none, some, List, [],
  ◌∷◌, ◌++◌, length, take, drop, slice, get_or, leb, ltb, ◌==◌, if◌then◌else◌,
}
use Number.{stoul, Parsed, value, invalid, out_of_range}

-- A BList holds values. A BDict is a hash table from keys to values; here they are listed in the order of
-- insertion, which the table does not keep.
mutual
  pub data Value : Type 0 where
    int : ℕ → Value
    str : List ℕ → Value
    list : Items → Value
    dict : Entries → Value

  pub data Items : Type 0 where
    nil : Items
    cons : Value → Items → Items

  pub data Entries : Type 0 where
    end : Entries
    entry : List ℕ → Value → Entries → Entries

-- `quit` is ErrQuit, which ends the program; `out_of_fuel` has no counterpart in it.
pub data Result {ℓ} (A : Type ℓ) : Type ℓ where
  ok : A → List ℕ → Result A
  quit out_of_fuel : Result A

abbrev pub bind {ℓ κ} : {A : Type ℓ} {B : Type κ} → Result A → (A → List ℕ → Result B) → Result B
bind (ok a rest) f = f a rest
bind quit f = quit
bind out_of_fuel f = out_of_fuel

-- find_first_of
pub find : ℕ → List ℕ → Option ℕ
find c [] = none
find c (x ∷ xs) =
    if x == c then some 0 else elim (find c xs) [ none ↦ none | some i ↦ some (suc i) ]

-- `T_content[0]` of a text that may be empty
abbrev pub first : List ℕ → ℕ
first s = get_or s 0 0

-- BInt::Decode
pub decode_int : List ℕ → Result ℕ
unfolding find stoul
decode_int s =
    if first s == b'i'
    then elim (find b'e' s) [
      | none ↦ quit
      | some stop ↦ elim (stoul (slice 1 (stop - 1) s)) [
        | value n ↦ ok n (drop (stop + 1) s)
        | invalid ↦ quit
        | out_of_range ↦ quit
      ]
    ]
    else quit

-- BStr::Decode. The sum of the length and its own length wraps, in the test and in `erase`. An empty text is only reported.
pub decode_str : List ℕ → Result (List ℕ)
unfolding find stoul
decode_str [] = ok [] []
decode_str (c ∷ cs) = elim (find b':' (c ∷ cs)) [
  | none ↦ quit
  | some mid ↦ elim (stoul (take mid (c ∷ cs))) [
    | value num ↦
        if ltb (length (c ∷ cs)) ((num + mid + 1) % 2 ^ 64)
        then quit
        else ok (slice (mid + 1) num (c ∷ cs)) (drop ((num + mid + 1) % 2 ^ 64) (c ∷ cs))
    | invalid ↦ quit
    | out_of_range ↦ quit
  ]
]

pub eq_text : List ℕ → List ℕ → Bool
eq_text [] [] = true
eq_text (x ∷ xs) (y ∷ ys) = (x == y) && eq_text xs ys
eq_text [] (y ∷ ys) = false
eq_text (x ∷ xs) [] = false

-- `emplace`: the first value of a key stays.
pub has_key : List ℕ → Entries → Bool
unfolding eq_text
has_key k end = false
has_key k (entry j v es) = eq_text j k || has_key k es

pub append_entry : List ℕ → Value → Entries → Entries
append_entry k v end = entry k v end
append_entry k v (entry j w es) = entry j w (append_entry k v es)

pub emplace : List ℕ → Value → Entries → Entries
unfolding has_key append_entry
emplace k v es = if has_key k es then es else append_entry k v es

-- Behind the loops: the closing `e`, or the end of the text.
abbrev close {ℓ} : {A : Type ℓ} → A → List ℕ → Result A
close a s = ok a (drop 1 s)

abbrev pub at_end : List ℕ → Bool
at_end [] = true
at_end (c ∷ cs) = c == b'e'

-- Each call takes a unit of fuel. `decode_items` and `decode_entries` are the loops of BList::Decode and
-- BDict::Decode, with what has been read so far of the dictionary.
mutual
  pub decode_value : ℕ → List ℕ → Result Value
  decode_value zero s = out_of_fuel
  decode_value (suc f) s =
      let items = bind (decode_items f (drop 1 s)) (λ xs rest. ok (list xs) rest) in
      let entries = bind (decode_entries f end (drop 1 s)) (λ es rest. ok (dict es) rest) in
      if first s == b'i'
      then bind (decode_int s) (λ n rest. ok (int n) rest)
      else if first s == b'l'
      then items
      else if first s == b'd'
      then entries
      else bind (decode_str s) (λ t rest. ok (str t) rest)

  pub decode_items : ℕ → List ℕ → Result Items
  decode_items zero s = out_of_fuel
  decode_items (suc f) s =
      let more =
        bind (decode_value f s)
          (λ v rest. bind (decode_items f rest) (λ xs rest'. ok (cons v xs) rest')) in
      if at_end s then close nil s else more

  pub decode_entries : ℕ → Entries → List ℕ → Result Entries
  decode_entries zero es s = out_of_fuel
  decode_entries (suc f) es s =
      let more = bind (decode_str s) (λ k rest.
        bind (decode_value f rest) (λ v rest'. decode_entries f (emplace k v es) rest')) in
      if at_end s then close es s else more
