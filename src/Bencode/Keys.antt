-- ===== src/Bencode/Keys.antt =====
-- The keys that BDict::Decode has put in its map, and those that are still to come.
use socket_template.Base.{ℕ, ◌≡◌, refl, ap, false, ◌||◌, List, [], ◌∷◌, arith}
use socket_template.Bencode.{Value, Entries, end, entry, eq_text, has_key, append_entry, emplace}

eq_text_sym : (a b : List ℕ) → eq_text a b ≡ eq_text b a
unfolding eq_text
eq_text_sym [] [] = refl
eq_text_sym [] (y ∷ ys) = refl
eq_text_sym (x ∷ xs) [] = refl
eq_text_sym (x ∷ xs) (y ∷ ys) = ground (arith, eq_text_sym xs ys)

has_key-append_entry :
    (j k : List ℕ) (v : Value) (acc : Entries)
    → has_key j (append_entry k v acc) ≡ (has_key j acc || eq_text k j)
unfolding has_key append_entry
has_key-append_entry j k v end = ground arith
has_key-append_entry j k v (entry i w es) = ground (arith, has_key-append_entry j k v es)

-- The entries of two dictionaries, one behind the other.
unfoldable pub glue : Entries → Entries → Entries
glue end es = es
glue (entry k v acc) es = entry k v (glue acc es)

pub glue-append_entry :
    (k : List ℕ) (v : Value) (acc es : Entries)
    → glue (append_entry k v acc) es ≡ glue acc (entry k v es)
unfolding glue append_entry
glue-append_entry k v end es = refl
glue-append_entry k v (entry i w acc) es = ap (entry i w) (glue-append_entry k v acc es)

pub glue_end : (acc : Entries) → glue acc end ≡ acc
unfolding glue
glue_end end = refl
glue_end (entry k v acc) = ap (entry k v) (glue_end acc)

-- No key of the second is in the first.
abbrev pub Apart : Entries → Entries → Type 0
Apart acc end = Unit
Apart acc (entry k v es) = (has_key k acc ≡ false) × Apart acc es

pub Apart-append_entry :
    (k : List ℕ) (v : Value) (acc es : Entries)
    → has_key k es ≡ false
    → Apart acc es
    → Apart (append_entry k v acc) es
unfolding has_key
Apart-append_entry k v acc end h a = tt
Apart-append_entry k v acc (entry j w es) h a = (
  ground (arith, has_key-append_entry j k v acc, eq_text_sym j k, a.0),
  Apart-append_entry k v acc es (ground arith) a.1,
)

pub Apart-end : (es : Entries) → Apart end es
unfolding has_key
Apart-end end = tt
Apart-end (entry k v es) = (refl, Apart-end es)

pub emplace_new :
    (k : List ℕ) (v : Value) (acc : Entries)
    → has_key k acc ≡ false
    → emplace k v acc ≡ append_entry k v acc
unfolding emplace
emplace_new k v acc e = rw e
