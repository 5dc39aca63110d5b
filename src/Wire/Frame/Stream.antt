-- ===== src/Wire/Frame/Stream.antt =====
-- A stream of messages from one client to another: what SelectSwitch and its handlers read of it.
use socket_template.Base.{
  ℕ, zero, suc, ◌+◌, ◌^◌, ◌≡◌, ◌≤◌, ◌<◌, ◌==◌, refl, ap, ◌∙◌, if◌then◌else◌, Option, none, some,
  List, [], ◌∷◌, ◌++◌, append_assoc, length, All, pos, to_u32, arith,
}
use socket_template.Wire as Wire
use socket_template.Wire.Frame.{Frame, task, next_frame, have_index, request_fields, piece_fields}
use socket_template.Wire.Frame.RoundTrip.{
  next_frame-request, next_frame-have, next_frame-short, next_frame-piece,
}

-- The messages of a download; a slice has a first byte.
pub data Message : Type 0 where
  keep_alive : Message
  choke : Message
  unchoke : Message
  interested : Message
  uninterested : Message
  have : ℕ → Message
  request : ℕ → ℕ → ℕ → Message
  cancle : ℕ → ℕ → ℕ → Message
  piece : ℕ → ℕ → ℕ → List ℕ → Message

-- The bytes that the client sends
unfoldable pub bytes_of : Message → List ℕ
bytes_of keep_alive = Wire.keep_alive
bytes_of choke = Wire.choke
bytes_of unchoke = Wire.unchoke
bytes_of interested = Wire.interested
bytes_of uninterested = Wire.uninterested
bytes_of (have i) = Wire.have Wire.have_new (pos i)
bytes_of (request i b s) = Wire.request (pos i) (pos b) (pos s)
bytes_of (cancle i b s) = Wire.cancle (pos i) (pos b) (pos s)
bytes_of (piece i b c cs) = Wire.piece Wire.piece_new (pos i) (pos b) (c ∷ cs)

-- The numbers are int32_t, and the message with its slice is no longer than the length it carries can say.
abbrev pub IsSendable : Message → Type 0
IsSendable (have i) = i < 2 ^ 31
IsSendable (request i b s) = (i < 2 ^ 31) × (b < 2 ^ 31) × (s < 2 ^ 31)
IsSendable (cancle i b s) = (i < 2 ^ 31) × (b < 2 ^ 31) × (s < 2 ^ 31)
IsSendable (piece i b c cs) = (i < 2 ^ 31) × (b < 2 ^ 31) × (length cs + 10 ≤ 2 ^ 31)
IsSendable other = Unit

-- The message of a task, with the fields that its handler reads
unfoldable pub message_of_task : ℕ → List ℕ → Option Message
message_of_task id buf =
    if id == 4
    then elim (have_index buf) [ none ↦ none | some i ↦ some (have i) ]
    else if id == 6
    then elim (request_fields buf) [ none ↦ none | some (i, b, s) ↦ some (request i b s) ]
    else if id == 7
    then elim (piece_fields buf) [
      | none ↦ none
      | some (i, b, []) ↦ none
      | some (i, b, c ∷ cs) ↦ some (piece i b c cs)
    ]
    else if id == 8
    then elim (request_fields buf) [ none ↦ none | some (i, b, s) ↦ some (cancle i b s) ]
    else none

unfoldable pub message_of : Frame → Option (Message × List ℕ)
message_of (Frame.keep_alive rest) = some (keep_alive, rest)
message_of (Frame.choke rest) = some (choke, rest)
message_of (Frame.unchoke rest) = some (unchoke, rest)
message_of (Frame.interested rest) = some (interested, rest)
message_of (Frame.uninterested rest) = some (uninterested, rest)
message_of (task id buf rest) = elim (message_of_task id buf) [
  | none ↦ none
  | some m ↦ some (m, rest)
]
message_of other = none

-- Up to `n` messages of a stream, one after another
unfoldable pub read_messages : ℕ → List ℕ → List Message
read_messages zero stream = []
read_messages (suc n) stream = elim (message_of (next_frame stream)) [
  | none ↦ []
  | some (m, rest) ↦ m ∷ read_messages n rest
]

task-message :
    (id : ℕ) (buf rest : List ℕ) (m : Message)
    → message_of_task id buf ≡ some m
    → message_of (task id buf rest) ≡ some (m, rest)
unfolding message_of
task-message id buf rest m e = rw (message_of, e)

small : (n : ℕ) → n < 2 ^ 31 → to_u32 (pos n) ≡ n
small n lt = omega arith

-- An object that is used again makes the same bytes.
have_again :
    (i : ℕ) → Wire.have Wire.have_new (pos i) ≡ Wire.have (Wire.have Wire.have_new (pos 0)) (pos i)
unfolding Wire.have Wire.have_new
have_again i = ground arith

-- One message is read back, and what follows it is left.
next_frame-bytes_of :
    (m : Message) (rest : List ℕ)
    → IsSendable m
    → message_of (next_frame (bytes_of m ++ rest)) ≡ some (m, rest)
unfolding bytes_of message_of_task
next_frame-bytes_of keep_alive rest h =
    ap message_of (next_frame-short rest).0 ∙ (unfold message_of in refl)
next_frame-bytes_of choke rest h =
    ap message_of (next_frame-short rest).1 ∙ (unfold message_of in refl)
next_frame-bytes_of unchoke rest h =
    ap message_of (next_frame-short rest).2 ∙ (unfold message_of in refl)
next_frame-bytes_of interested rest h =
    ap message_of (next_frame-short rest).3 ∙ (unfold message_of in refl)
next_frame-bytes_of uninterested rest h =
    ap message_of (next_frame-short rest).4 ∙ (unfold message_of in refl)
next_frame-bytes_of (have i) rest h =
    let (buf, read, field) = next_frame-have (pos i) (pos 0) rest in
    ap (λ (bs : List ℕ). message_of (next_frame (bs ++ rest))) (have_again i)
    ∙ ap message_of read
    ∙ task-message 4 buf rest (have i) (rw (field, small i h))
next_frame-bytes_of (request i b s) rest (hi, hb, hs) =
    let (buf, read, read', fields) = next_frame-request (pos i) (pos b) (pos s) rest in
    ap message_of read
    ∙ task-message 6 buf rest (request i b s) (rw (fields, small i hi, small b hb, small s hs))
next_frame-bytes_of (cancle i b s) rest (hi, hb, hs) =
    let (buf, read, read', fields) = next_frame-request (pos i) (pos b) (pos s) rest in
    ap message_of read'
    ∙ task-message 8 buf rest (cancle i b s) (rw (fields, small i hi, small b hb, small s hs))
next_frame-bytes_of (piece i b c cs) rest (hi, hb, hc) =
    let (buf, read, fields, others, left) = next_frame-piece i b c cs rest hi hb hc in
    ap message_of read ∙ task-message 7 buf rest (piece i b c cs) (rw fields)

unfoldable pub stream_of : List Message → List ℕ
stream_of [] = []
stream_of (m ∷ ms) = bytes_of m ++ stream_of ms

-- The messages of a stream are read back one after another, each as the task or the call that it was made for and with its fields, whatever
-- follows them: keep-alives, the four messages without a body, Have, Request, Cancle and Piece with at least one byte, with numbers from 0 to 2 ^ 31 - 1 and slices of at most
-- 2 ^ 31 - 10 bytes.
pub read_messages-stream_of :
    (ms : List Message) (rest : List ℕ)
    → All (λ m. IsSendable m) ms
    → read_messages (length ms) (stream_of ms ++ rest) ≡ ms
unfolding read_messages stream_of
read_messages-stream_of [] rest h = refl
read_messages-stream_of (m ∷ ms) rest h =
    let first = next_frame-bytes_of m (stream_of ms ++ rest) h.0 in
    let grouped : (bytes_of m ++ stream_of ms) ++ rest ≡ bytes_of m ++ (stream_of ms ++ rest) =
      append_assoc (bytes_of m) (stream_of ms) rest in
    rw (grouped, read_messages, first)
      (ap (λ (l : List Message). m ∷ l) (read_messages-stream_of ms rest h.1))
