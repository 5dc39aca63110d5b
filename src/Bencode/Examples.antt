-- ===== src/Bencode/Examples.antt =====
-- Bencoded data: runs, and the theorems at concrete inputs.
use socket_template.Base.{◌≡◌, refl, [], ◌∷◌, ◌++◌, arith}
use socket_template.Bencode.Number.{digits}
use socket_template.Bencode.{
  has_key, Entries, int, str, list, dict, nil, cons, end, entry, ok, quit, out_of_fuel, decode_str,
  decode_value, decode_items,
}
use socket_template.Bencode.Encode.{encode, IsEncodable}
use socket_template.Bencode.RoundTrip.{decode_value-encode}
use socket_template.Bencode.Endless.{stuck, decode_items_endless}
use socket_template.Bencode.DictLength.{found, get_dict_length}
use socket_template.Bencode.DictLength.Tokens.{IsScannable}
use socket_template.Bencode.DictLength.Whole.{get_dict_length-encode}

-- d1:ali7e2:abee
abbrev entries : Entries
entries = entry (b'a' ∷ []) (list (cons (int 7) (cons (str (b'a' ∷ b'b' ∷ [])) nil))) end

entries_text :
    encode (dict entries)
    ≡ b'd' ∷ b'1' ∷ b':' ∷ b'a' ∷ b'l' ∷ b'i' ∷ b'7' ∷ b'e' ∷ b'2' ∷ b':' ∷ b'a' ∷ b'b' ∷ b'e'
      ∷ b'e' ∷ []
unfolding encode digits
entries_text = refl

decode_str_long : decode_str (b'9' ∷ b':' ∷ b'a' ∷ []) ≡ quit
unfolding decode_str
decode_str_long = refl

decode_value-encode_example :
    decode_value 60 (encode (dict entries) ++ (b'x' ∷ [])) ≡ ok (dict entries) (b'x' ∷ [])
unfolding IsEncodable encode digits has_key
decode_value-encode_example =
    decode_value-encode (dict entries) 60 (b'x' ∷ [])
      (omega arith, refl, (omega arith, (omega arith, tt)), tt) (omega arith)

decode_items_endless_example : decode_items 30 (stuck (b'e' ∷ [])) ≡ out_of_fuel
decode_items_endless_example = decode_items_endless 30 (b'e' ∷ [])

get_dict_length-encode_example :
    get_dict_length (encode (dict entries) ++ (b'x' ∷ [])) 15 ≡ found 14
unfolding IsScannable encode digits
get_dict_length-encode_example =
    get_dict_length-encode entries (b'x' ∷ []) 15
      (omega arith, omega arith, (tt, ((omega arith, omega arith), tt)), tt) (omega arith)
