-- ===== src/Web.antt =====
-- The tools of the folder Web that the dialogue with a tracker uses: Web/CszUrlEscape.cpp and Web/CszCacheRegio.cpp. A text is a
-- list of bytes.
pub mod Escape
pub mod Lines
pub mod Rounds
pub mod Buf
pub mod Request
mod Examples
use socket_template.Base.{
  ℕ, zero, suc, ◌+◌, ◌-◌, ◌*◌, ◌/◌, ◌%◌, Bool, true, false, ◌||◌, ◌&&◌, Option, none, some, List,
  [], ◌∷◌, ◌++◌, length, take, drop, ltb, leb, ◌==◌, if◌then◌else◌, ℤ, pos, negsuc,
}

-- isalnum in the C locale, and the four other bytes that stay
pub is_plain : ℕ → Bool
is_plain c =
    (leb b'0' c && leb c b'9')
    || ((leb b'A' c && leb c b'Z')
        || ((leb b'a' c && leb c b'z') || (c == b'.' || (c == b'-' || (c == b'_' || c == b'~')))))

-- A digit of `%.2x`
pub hex_digit : ℕ → ℕ
hex_digit d = if ltb d 10 then b'0' + d else b'a' + (d - 10)

-- UrlEscape::operator()
pub url_escape : List ℕ → List ℕ
unfolding is_plain hex_digit
url_escape [] = []
url_escape (c ∷ cs) =
    if is_plain c
    then c ∷ url_escape cs
    else b'%' ∷ hex_digit (c % 256 / 16) ∷ hex_digit (c % 16) ∷ url_escape cs

-- What a call of `read` returns: bytes, at most 1024, where none is a peer that has closed, EINTR, or another error. Behind the last of a list of them
-- the peer has closed; `read_buf` is told whether it has.
pub data Read : Type 0 where
  bytes : List ℕ → Read
  interrupted : Read
  failed : Read

-- CacheRegio by what is unread (`read_cnt` bytes from `read_ptr` on), with what the socket gives. A `read_cnt` below 0 is
-- an unread text that is empty and a mark.
pub record Cache : Type 0 where
  pub unread : List ℕ
  pub broken : Bool
  pub reads : List Read

-- The loop of AddCache with an empty buffer
pub fill_cache : List Read → ℤ × Cache
fill_cache [] = (pos 0, record { unread = []; broken = false; reads = [] })
fill_cache (bytes [] ∷ reads) = (pos 0, record { unread = []; broken = false; reads = reads })
fill_cache (bytes (b ∷ bs) ∷ reads) =
    (pos (length (b ∷ bs)), record { unread = b ∷ bs; broken = false; reads = reads })
fill_cache (interrupted ∷ reads) = fill_cache reads
fill_cache (failed ∷ reads) = (negsuc 0, record { unread = []; broken = true; reads = reads })

pub add_cache : Cache → ℤ × Cache
unfolding fill_cache
add_cache c = elim c.unread [
  | [] ↦ fill_cache c.reads
  | b ∷ bs ↦ (pos (length (b ∷ bs)), record c { broken = false })
]

-- CACHESIZE
abbrev pub cache_size : ℕ
cache_size = 1024

-- The loop of ReadLine, with `rounds` characters to go at most
pub read_chars : ℕ → Cache → List ℕ × Cache
unfolding add_cache
read_chars zero c = ([], c)
read_chars (suc rounds) c =
    let c' = (add_cache c).1 in
    elim c'.unread [
      | [] ↦ ([], c')
      | b ∷ bs ↦
          let behind : Cache = record c' { unread = bs } in
          let (line, last) = read_chars rounds behind in
          if b == b'\n' then ([], behind) else (b ∷ line, last)
    ]

pub read_line : Cache → List ℕ × Cache
unfolding read_chars
read_line c = read_chars cache_size c

-- ReadBuf, on fuel: `thrown` is the exception for a length below 0 behind a read that failed, `waiting` is a read that never
-- returns, and `running` has no fuel left.
pub data Buffer : Type 0 where
  got : List ℕ → Cache → Buffer
  thrown : Buffer
  waiting : Buffer
  running : Buffer

pub prepend : List ℕ → Buffer → Buffer
prepend bs (got rest c) = got (bs ++ rest) c
prepend bs thrown = thrown
prepend bs waiting = waiting
prepend bs running = running

-- What a round leaves unread, with the AddCache of an empty buffer
pub refill : ℕ → Cache → Cache
unfolding add_cache
refill n c = elim (drop n c.unread) [
  | [] ↦ (add_cache (record c { unread = [] })).1
  | b ∷ bs ↦ record c { unread = b ∷ bs }
]

-- No byte is unread and none comes.
pub spent : List ℕ → List Read → Bool
spent (b ∷ bs) reads = false
spent [] [] = true
spent [] (interrupted ∷ reads) = spent [] reads
spent [] (bytes bs ∷ reads) = false
spent [] (failed ∷ reads) = false

-- `stays` says whether the peer keeps the connection behind the last of its reads, so that the next read waits. A round that leaves
-- nothing unread reads once more, also behind the last byte asked for.
pub read_buf : Bool → ℕ → ℕ → Cache → Buffer
unfolding prepend refill spent
read_buf stays fuel zero c = got [] c
read_buf stays zero (suc n) c = running
read_buf stays (suc fuel) (suc n) c =
    let rest =
      prepend (take (suc n) c.unread)
        (read_buf stays fuel (suc n - length c.unread) (refill (suc n) c)) in
    if c.broken
    then thrown
    else if stays && spent (drop (suc n) c.unread) c.reads
    then waiting
    else rest
