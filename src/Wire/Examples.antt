-- ===== src/Wire/Examples.antt =====
-- Messages with concrete values, and what is read of them.
use socket_template.Base.{
  ℕ, length, ◌≡◌, ◌≢◌, ◌↔◌, refl, true, some, none, List, [], ◌∷◌, ◌++◌, take, replicate, pos,
  arith,
}
use socket_template.Wire.{port}
use socket_template.Wire as Wire
use socket_template.Wire.HandShake.{new, set_parameter, varification}
use socket_template.Wire.HandShake.Verification.{varification-set_parameter}
use socket_template.Wire.Frame.Stream.{
  Message, keep_alive, unchoke, have, request, cancle, piece, stream_of, read_messages,
  read_messages-stream_of,
}

request_run :
    Wire.request (pos 258) (pos 16384) (pos 16384)
    ≡ 0 ∷ 0 ∷ 0 ∷ 13 ∷ 6 ∷ 0 ∷ 0 ∷ 1 ∷ 2 ∷ 0 ∷ 0 ∷ 64 ∷ 0 ∷ 0 ∷ 0 ∷ 64 ∷ 0 ∷ []
unfolding Wire.request
request_run = refl

port_run : port 6881 ≡ 0 ∷ 0 ∷ 0 ∷ 3 ∷ 9 ∷ 26 ∷ 225 ∷ []
unfolding port
port_run = refl

abbrev talk : List Message
talk =
    unchoke ∷ have 9 ∷ request 3 0 16384 ∷ piece 2 5 9 (8 ∷ []) ∷ keep_alive ∷ cancle 3 0 16384 ∷ []

read_messages-stream_of_example : read_messages (length talk) (stream_of talk ++ (7 ∷ [])) ≡ talk
read_messages-stream_of_example = read_messages-stream_of talk (7 ∷ []) (
  tt,
  (
    omega arith,
    (
      (omega arith, omega arith, omega arith),
      (
        (omega arith, omega arith, omega arith),
        (tt, ((omega arith, omega arith, omega arith), tt)),
      ),
    ),
  ),
)

abbrev some_hash : List ℕ
some_hash = 7 ∷ replicate 19 1

varification-set_parameter_example :
    (varification
        (set_parameter new none (some some_hash) none).0
        (set_parameter new none (some some_hash) (some (replicate 20 3))).0
      ≡ true)
    ↔ (take 20 some_hash ≡ take 20 some_hash)
varification-set_parameter_example =
    varification-set_parameter none none none (some (replicate 20 3)) some_hash some_hash tt tt tt
      (omega arith) (omega arith) (omega arith) (omega arith) (omega arith)

abbrev zero_hash : List ℕ
zero_hash = 0 ∷ replicate 19 1

zero_hash-ne : zero_hash ≢ replicate 20 0
zero_hash-ne = ground arith
