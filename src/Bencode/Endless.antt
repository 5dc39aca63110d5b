-- ===== src/Bencode/Endless.antt =====
-- Lists on which BList::Decode does not come to an end.
use socket_template.Base.{
  ℕ, zero, suc, ◌≡◌, refl, ltb, false, ◌^◌, ◌-◌, take, List, ◌∷◌, length, arith,
}
use socket_template.Bencode.Number.{stoul}
use socket_template.Bencode.{ok, out_of_fuel, decode_str, decode_items}

-- "-3:" is read as a text, and nothing is erased.
abbrev pub stuck : List ℕ → List ℕ
stuck rest = b'-' ∷ b'3' ∷ b':' ∷ rest

decode_str_stays :
    (rest : List ℕ) → decode_str (stuck rest) ≡ ok (take (2 ^ 64 - 3) rest) (stuck rest)
unfolding decode_str stoul
decode_str_stays rest =
    let room : ltb (suc (suc (suc (length rest)))) 0 ≡ false = ground arith in rw room

-- However much fuel it has, the loop of a list whose next value begins with "-3:" needs more.
pub decode_items_endless : (f : ℕ) (rest : List ℕ) → decode_items f (stuck rest) ≡ out_of_fuel
unfolding decode_items
decode_items_endless zero rest = refl
decode_items_endless (suc zero) rest = refl
decode_items_endless (suc (suc f)) rest =
    rw (decode_str_stays rest, decode_items_endless (suc f) rest)
