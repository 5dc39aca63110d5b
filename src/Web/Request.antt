-- ===== src/Web/Request.antt =====
-- HttpRequest of Web/CszHttpRequest.cpp: its lines, and the text that BindMsg makes of them.
use socket_template.Base.{
  ℕ, zero, suc, ◌+◌, ◌≤◌, ◌<◌, ◌≡◌, refl, ap, sym, ◌∙◌, Bool, true, false, Option, none, some, List,
  [], ◌∷◌, ◌++◌, map, append_assoc, append-nil, length, arith,
}

abbrev pub crlf : List ℕ
crlf = b'\r' ∷ b'\n' ∷ []

pub record HttpRequest : Type 0 where
  pub data_lines : List (List ℕ)

-- The member head_end
abbrev head_end : List ℕ
head_end = crlf ++ crlf

-- HttpRequest::HttpRequest
unfoldable pub http_request_new : HttpRequest
http_request_new = record { data_lines = [] ∷ [] }

-- HttpRequest::SetFirstLine; none is the call of ErrQuit.
unfoldable pub set_first_line : List ℕ → HttpRequest → Option HttpRequest
set_first_line head r = elim r.data_lines [
  | [] ↦ none
  | line ∷ lines ↦ some (record { data_lines = (head ++ crlf) ∷ lines })
]

-- What SetHeader appends
pub header_line : List ℕ × List ℕ → List ℕ
header_line (name, val) = name ++ (b':' ∷ b' ' ∷ val ++ crlf)

-- HttpRequest::SetHeader
pub set_header : List ℕ × List ℕ → HttpRequest → HttpRequest
unfolding header_line
set_header h r = record { data_lines = r.data_lines ++ (header_line h ∷ []) }

-- The parts that BindMsg writes into the array, which has room for some, and its result
pub bind_lines : ℕ → List (List ℕ) → List (List ℕ) × Bool
bind_lines zero lines = ([], false)
bind_lines (suc room) [] = (head_end ∷ [], true)
bind_lines (suc room) (line ∷ lines) =
    let (parts, whole) = bind_lines room lines in (line ∷ parts, whole)

-- HttpRequest::BindMsg
pub bind_msg : ℕ → HttpRequest → List (List ℕ) × Bool
unfolding bind_lines
bind_msg room r = bind_lines room r.data_lines

-- A request as its user makes it
pub set_headers : List (List ℕ × List ℕ) → HttpRequest → HttpRequest
unfolding set_header
set_headers [] r = r
set_headers (h ∷ hs) r = set_headers hs (set_header h r)

-- What goes over the wire when the parts are sent one after another
abbrev pub joined : List (List ℕ) → List ℕ
joined [] = []
joined (part ∷ parts) = part ++ joined parts

set_headers-lines :
    (hs : List (List ℕ × List ℕ)) (r : HttpRequest)
    → (set_headers hs r).data_lines ≡ r.data_lines ++ map header_line hs
unfolding set_headers
set_headers-lines [] r = sym (append-nil r.data_lines)
set_headers-lines (h ∷ hs) r =
    set_headers-lines hs (set_header h r)
    ∙ append_assoc r.data_lines (header_line h ∷ []) (map header_line hs)

bind_lines-whole :
    (room : ℕ) (lines : List (List ℕ))
    → length lines < room
    → bind_lines room lines ≡ (lines ++ (head_end ∷ []), true)
unfolding bind_lines
bind_lines-whole zero lines h = absurd (omega arith)
bind_lines-whole (suc room) [] h = refl
bind_lines-whole (suc room) (line ∷ lines) h =
    let ih = bind_lines-whole room lines (omega arith) in
    ap (λ (r : List (List ℕ) × Bool). (line ∷ r.0, r.1)) ih

bind_lines-short :
    (room : ℕ) (lines : List (List ℕ)) → room ≤ length lines → (bind_lines room lines).1 ≡ false
unfolding bind_lines
bind_lines-short zero lines h = refl
bind_lines-short (suc room) [] h = absurd (omega arith)
bind_lines-short (suc room) (line ∷ lines) h = bind_lines-short room lines (omega arith)

joined-append : (xs ys : List (List ℕ)) → joined (xs ++ ys) ≡ joined xs ++ joined ys
joined-append [] ys = refl
joined-append (x ∷ xs) ys =
    ap (λ (l : List ℕ). x ++ l) (joined-append xs ys) ∙ sym (append_assoc x (joined xs) (joined ys))

length-map : (hs : List (List ℕ × List ℕ)) → length (map header_line hs) ≡ length hs
length-map [] = refl
length-map (h ∷ hs) = ap suc (length-map hs)

lines_or_none : Option HttpRequest → List (List ℕ)
lines_or_none none = []
lines_or_none (some r) = r.data_lines

lines_of :
    (head : List ℕ) (hs : List (List ℕ × List ℕ)) (r : HttpRequest)
    → set_first_line head http_request_new ≡ some r
    → (set_headers hs r).data_lines ≡ (head ++ crlf) ∷ map header_line hs
unfolding set_first_line http_request_new lines_or_none
lines_of head hs r e =
    set_headers-lines hs r
    ∙ ap (λ (l : List (List ℕ)). l ++ map header_line hs) (ap lines_or_none (sym e))

-- A request with a first line and headers fits into an array with room for more than its lines. BindMsg then succeeds, and its parts give
-- the first line, the headers in the order in which they were set, each with an end of line, and two ends of line behind them.
-- With less room BindMsg fails.
pub bind_msg-set_headers :
    (room : ℕ) (head : List ℕ) (hs : List (List ℕ × List ℕ)) (r : HttpRequest)
    → set_first_line head http_request_new ≡ some r
    → (length hs + 1 < room
        → ((bind_msg room (set_headers hs r)).1 ≡ true)
          × (joined (bind_msg room (set_headers hs r)).0
              ≡ (head ++ crlf) ++ (joined (map header_line hs) ++ (crlf ++ crlf))))
      × (room ≤ length hs + 1 → (bind_msg room (set_headers hs r)).1 ≡ false)
unfolding bind_msg
bind_msg-set_headers room head hs r e =
    let lines = (head ++ crlf) ∷ map header_line hs in
    let count : length lines ≡ length hs + 1 = (let k = length-map hs in omega arith) in
    rw (lines_of head hs r e) (
      (λ h.
          let whole = bind_lines-whole room lines (omega arith) in
          (
            ap (λ (p : List (List ℕ) × Bool). p.1) whole,
            ap (λ (p : List (List ℕ) × Bool). joined p.0) whole
                ∙ ap (λ (l : List ℕ). (head ++ crlf) ++ l)
                    (joined-append (map header_line hs) (head_end ∷ [])),
          )),
      (λ h. bind_lines-short room lines (omega arith)),
    )
