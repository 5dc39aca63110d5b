-- ===== src/Web/Examples.antt =====
-- Web: runs, and the theorems at concrete inputs.
use socket_template.Base.{
  inr, ◌<◌, ◌≤◌, true, ◌++◌, map, ℕ, ◌≡◌, refl, false, List, [], ◌∷◌, take, drop, arith,
}
use socket_template.Web.{
  bytes, interrupted, Cache, url_escape, read_line, read_buf, cache_size, got,
}
use socket_template.Web.Escape.{unescape, unescape-url_escape}
use socket_template.Web.Request.{
  HttpRequest, http_request_new, set_first_line, set_headers, header_line, bind_msg, joined, crlf,
  bind_msg-set_headers,
}
use socket_template.Web.Lines.{stream, pending, IsSteady, first_line, read_line-first_line}
use socket_template.Web.Buf.{read_buf-take}

-- A byte of every kind
abbrev hash : List ℕ
hash = b'a' ∷ b'%' ∷ b'Z' ∷ 0 ∷ 255 ∷ b'~' ∷ []

escapes_bytes :
    url_escape (0 ∷ 255 ∷ b'~' ∷ []) ≡ b'%' ∷ b'0' ∷ b'0' ∷ b'%' ∷ b'f' ∷ b'f' ∷ b'~' ∷ []
unfolding url_escape
escapes_bytes = refl

-- A line in two reads, with a signal between them, and two bytes behind it
abbrev answer : Cache
answer = record {
  unread = [];
  broken = false;
  reads =
      bytes (b'O' ∷ []) ∷ interrupted ∷ bytes (b'K' ∷ b'\n' ∷ b'h' ∷ []) ∷ bytes (b'i' ∷ []) ∷ [];
}

read_line-answer : (read_line answer).0 ≡ b'O' ∷ b'K' ∷ []
unfolding read_line
read_line-answer = refl

unescape-url_escape_example : unescape (url_escape hash) ≡ hash
unescape-url_escape_example = unescape-url_escape hash (ground arith)

read_line-first_line_example :
    ((read_line answer).0 ≡ (first_line cache_size (pending answer)).0)
    × (pending (read_line answer).1 ≡ (first_line cache_size (pending answer)).1)
    × IsSteady (read_line answer).1.reads
read_line-first_line_example = read_line-first_line answer tt

read_buf-take_example :
    (left : Cache) × (read_buf true 5 4 answer ≡ got (take 4 (pending answer)) left)
    × (pending left ≡ drop 4 (pending answer))
    × IsSteady left.reads
unfolding stream
read_buf-take_example = read_buf-take true 4 answer tt refl (omega arith) (inr (omega arith))

-- A request for a page with one header
abbrev page : HttpRequest
page = record { data_lines = (b'G' ∷ b' ' ∷ b'/' ∷ b'\r' ∷ b'\n' ∷ []) ∷ [] }

abbrev host : List (List ℕ × List ℕ)
host = (b'H' ∷ [], b'a' ∷ b'.' ∷ []) ∷ []

bind_msg-set_headers_example :
    (2 < 16
      → ((bind_msg 16 (set_headers host page)).1 ≡ true)
        × (joined (bind_msg 16 (set_headers host page)).0
            ≡ (b'G' ∷ b' ' ∷ b'/' ∷ crlf) ++ (joined (map header_line host) ++ (crlf ++ crlf))))
    × (16 ≤ 2 → (bind_msg 16 (set_headers host page)).1 ≡ false)
unfolding set_first_line http_request_new
bind_msg-set_headers_example = bind_msg-set_headers 16 (b'G' ∷ b' ' ∷ b'/' ∷ []) host page refl
