-- ===== src/Request.antt =====
-- The request parser: src/http/http_parse.c, with HttpRequest of src/httpd.h. The input is the list of
-- bytes up to `len`; an offset is what stands from there on. A text field is the bytes before its NUL.
pub mod Fields
pub mod Rounds
pub mod Line
pub mod Strict
pub mod RoundTrip
mod Tests
use agent_httpd.Base.{
  ℕ, zero, suc, ◌+◌, ◌-◌, ◌*◌, ◌^◌, Bool, true, false, not, ◌&&◌, ◌||◌, Option, none, some, List,
  [], ◌∷◌, ◌++◌, length, take, ltb, leb, ◌==◌, if◌then◌else◌, and_then, Bytes, codes, after_ci,
  is_some, is_whitespace, take_while, drop_while,
}
use agent_httpd.Text.{set_str, trim_whitespace}
use agent_httpd.Range.{strtoll}

abbrev pub max_path_size : ℕ
max_path_size = 1024

abbrev pub max_request_size : ℕ
max_request_size = 65536

abbrev pub extra_headers_max : ℕ
extra_headers_max = 4096

-- The fields that the parser writes.
pub record HttpRequest : Type 0 where
  pub method : Bytes
  pub path : Bytes
  pub protocol : Bytes
  pub host : Bytes
  pub user_agent : Bytes
  pub referer : Bytes
  pub origin : Bytes
  pub sec_fetch_site : Bytes
  pub accept : Bytes
  pub accept_encoding : Bytes
  pub connection : Bytes
  pub content_type : Bytes
  pub authorization : Bytes
  pub cookie : Bytes
  pub if_none_match : Bytes
  pub if_modified_since : Bytes
  pub expect : Bytes
  pub range : Bytes
  pub x_forwarded_for : Bytes
  pub content_length : ℕ
  pub chunked : Bool
  pub te_unsupported : Bool
  pub body_too_large : Bool
  pub extra_headers : Bytes

-- `consume_eol`; `none` is -1.
unfoldable pub consume_eol : Bool → Bytes → Option Bytes
consume_eol lenient [] = some []
consume_eol lenient (c ∷ []) =
    if c == b'\r' || c == b'\n' then (if lenient then some [] else none) else some (c ∷ [])
consume_eol lenient (c ∷ d ∷ s) =
    if c == b'\r'
    then (if d == b'\n' then some s else if lenient then some (d ∷ s) else none)
    else if c == b'\n'
    then (if lenient then some (d ∷ s) else none)
    else some (c ∷ d ∷ s)

-- `find_ci(hay, needle) != NULL`, of a needle that is not empty.
unfoldable pub find_ci : Bytes → Bytes → Bool
find_ci needle [] = false
find_ci needle (c ∷ s) = is_some (after_ci needle (c ∷ s)) || find_ci needle s

-- `capture_extra_header`.
abbrev pub capture_extra_header : Bytes → HttpRequest → HttpRequest
capture_extra_header line r =
    if ltb extra_headers_max (length r.extra_headers + length line + 3)
    then r
    else record r { extra_headers = r.extra_headers ++ line ++ b'\r' ∷ b'\n' ∷ [] }

-- A field of `size` bytes from what follows the name.
abbrev pub value_of : ℕ → Bytes → Bytes
value_of size s = trim_whitespace (set_str size s)

-- The branches on Content-Length; a text without digits is 0 to `strtol`. `spool` is g_body_spool_bytes.
abbrev pub set_length : ℕ → Option (Bool × ℕ × Bytes) → HttpRequest → HttpRequest
set_length spool none r = record r { content_length = 0 }
set_length spool (some (true, n, rest)) r = record r { content_length = 0 }
set_length spool (some (false, n, rest)) r =
    if ltb 0 n && leb n max_request_size
    then record r { content_length = n }
    else if ltb max_request_size n && leb n spool
    then record r { content_length = n }
    else if ltb spool n
    then record r { body_too_large = true }
    else record r { content_length = 0 }

-- The branches on Transfer-Encoding.
abbrev pub set_coding : Bytes → HttpRequest → HttpRequest
set_coding v r =
    if find_ci (codes "chunked") v
      && not (find_ci (codes "gzip") v)
      && not (find_ci (codes "deflate") v)
      && not (find_ci (codes "compress") v)
      && not (find_ci (codes "identity") v)
    then record r { chunked = true }
    else record r { te_unsupported = true }

-- The names that `parse_header_line` compares, in order, and what each does with the value.
abbrev pub Setter : Type 0
Setter = Bytes → HttpRequest → HttpRequest

abbrev pub known_headers : ℕ → List (Bytes × Setter)
known_headers spool =
    (codes "Host:", λ v r. record r { host = value_of 256 v })
    ∷ (codes "User-Agent:", λ v r. record r { user_agent = value_of 512 v })
    ∷ (codes "Referer:", λ v r. record r { referer = value_of 512 v })
    ∷ (codes "Origin:", λ v r. record r { origin = value_of 256 v })
    ∷ (codes "Sec-Fetch-Site:", λ v r. record r { sec_fetch_site = value_of 16 v })
    ∷ (codes "Accept:", λ v r. record r { accept = value_of 512 v })
    ∷ (codes "Accept-Encoding:", λ v r. record r { accept_encoding = value_of 256 v })
    ∷ (codes "Content-Type:", λ v r. record r { content_type = value_of 128 v })
    ∷ (codes "Connection:", λ v r. record r { connection = value_of 32 v })
    ∷ (codes "Authorization:", λ v r. record r { authorization = value_of 512 v })
    ∷ (codes "Cookie:", λ v r. record r { cookie = value_of 1024 v })
    ∷ (codes "X-Forwarded-For:", λ v r. record r { x_forwarded_for = value_of 256 v })
    ∷ (codes "If-None-Match:", λ v r. record r { if_none_match = value_of 256 v })
    ∷ (codes "If-Modified-Since:", λ v r. record r { if_modified_since = value_of 64 v })
    ∷ (codes "Expect:", λ v r. record r { expect = value_of 32 v })
    ∷ (codes "Range:", λ v r. record r { range = value_of 64 v })
    ∷ (codes "Content-Length:", λ v r. set_length spool (strtoll v) r)
    ∷ (codes "Transfer-Encoding:", set_coding)
    ∷ []

-- The last branch: a name that none of them is, unless the line is a continuation.
abbrev pub unknown_header : Bytes → HttpRequest → HttpRequest
unknown_header [] r = capture_extra_header [] r
unknown_header (c ∷ s) r = if c == b' ' || c == b'\t' then r else capture_extra_header (c ∷ s) r

abbrev pub apply_first : Option Bytes → Setter → HttpRequest → HttpRequest → HttpRequest
apply_first none set r other = other
apply_first (some v) set r other = set v r

unfoldable pub apply_header : List (Bytes × Setter) → Bytes → HttpRequest → HttpRequest
apply_header [] line r = unknown_header line r
apply_header ((name, set) ∷ hs) line r =
    apply_first (after_ci name line) set r (apply_header hs line r)

-- `parse_header_line`.
unfoldable pub parse_header_line : ℕ → Bytes → HttpRequest → HttpRequest
parse_header_line spool line r = apply_header (known_headers spool) line r

abbrev pub is_eol : ℕ → Bool
is_eol c = c == b'\r' || c == b'\n'

-- A `%<n>s` of `sscanf`: blanks, then at most `n` bytes that are none; `none` if there is not one.
unfoldable pub take_token : ℕ → Bytes → Bytes × Bytes
take_token zero s = ([], s)
take_token (suc n) [] = ([], [])
take_token (suc n) (c ∷ s) =
    let next = take_token n s in if is_whitespace c then ([], c ∷ s) else (c ∷ next.0, next.1)

abbrev pub some_token : Bytes × Bytes → Option (Bytes × Bytes)
some_token ([], s) = none
some_token (c ∷ t, s) = some (c ∷ t, s)

unfoldable pub token : ℕ → Bytes → Option (Bytes × Bytes)
token n s = some_token (take_token n (drop_while is_whitespace s))

-- The three conversions of the request line.
unfoldable pub request_line : Bytes → HttpRequest → Option HttpRequest
request_line s r = and_then (token 15 s) (λ m. and_then (token 1023 m.1) (λ p.
    and_then (token 15 p.1) (λ v. some (record r { method = m.0; path = p.0; protocol = v.0 }))))

-- A line up to its terminator, and from there on.
abbrev pub line_of : Bytes → Bytes
line_of s = take_while (λ c. not (is_eol c)) s

abbrev pub rest_of : Bytes → Bytes
rest_of s = drop_while (λ c. not (is_eol c)) s

abbrev pub starts_eol : Bytes → Bool
starts_eol [] = false
starts_eol (c ∷ s) = is_eol c

abbrev pub Parsed : Type 0
Parsed = Option (Bytes × HttpRequest)

-- The loop over the header lines, from a terminator or a line on. The result is the body and the fields.
-- A round that consumes a line leaves its terminator, and one that consumes a terminator moves on.
unfoldable pub header_loop : ℕ → Bool → ℕ → Bytes → HttpRequest → Parsed
header_loop zero lenient spool s r = none
header_loop (suc fuel) lenient spool [] r = none
header_loop (suc fuel) lenient spool (c ∷ s) r =
    let rest = rest_of (c ∷ s) in
    let line = take (max_path_size - 1) (line_of (c ∷ s)) in
    let next = header_loop fuel lenient spool rest (parse_header_line spool line r) in
    let ended = and_then (consume_eol lenient (c ∷ s)) (λ t.
      let on = header_loop fuel lenient spool t r in
      if starts_eol t then and_then (consume_eol lenient t) (λ body. some (body, r)) else on) in
    if is_eol c then ended else if starts_eol rest then next else none

-- `parse_headers`, on the bytes up to `len`.
unfoldable pub parse_headers : Bool → ℕ → Bytes → HttpRequest → Parsed
parse_headers lenient spool raw r =
    let loop =
      and_then (request_line (take max_path_size (line_of raw)) r)
        (λ r'. header_loop (suc (length (rest_of raw))) lenient spool (rest_of raw) r') in
    if starts_eol raw then none else if starts_eol (rest_of raw) then loop else none

-- `parse_request`, on a NUL-terminated buffer; `none` is -1.
unfoldable pub parse_request : Bool → ℕ → Bytes → HttpRequest → Option HttpRequest
parse_request lenient spool raw r =
    and_then (parse_headers lenient spool (take max_request_size raw) r) (λ p. some p.1)
