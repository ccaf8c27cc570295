-- ===== src/Response.antt =====
-- The response serializer: `build_response` of src/http/http_resp.c, with HttpResponse of src/httpd.h.
-- A text field is the bytes before its NUL. The day and time, and what the environment and the
-- configuration say, are arguments.
pub mod Fits
pub mod Headers
mod Tests
use agent_httpd.Base.{
  ℕ, zero, suc, ◌+◌, ◌-◌, ◌/◌, ◌%◌, min, Bool, true, false, not, ◌&&◌, ◌||◌, Option, none, some,
  List, [], ◌∷◌, ◌++◌, length, take, ltb, leb, ◌==◌, if◌then◌else◌, and_then, Bytes, codes, after,
  after_ci, is_some, past, before, drop_while,
}

abbrev pub max_response_size : ℕ
max_response_size = 262144

-- The fields that are serialized. A number is one that is not negative; `body` holds what the pointer
-- leads to, and `none` is NULL.
pub record HttpResponse : Type 0 where
  pub status_code : ℕ
  pub status_text : Bytes
  pub content_type : Bytes
  pub content_encoding : Bytes
  pub location : Bytes
  pub retry_after : ℕ
  pub body : Option Bytes
  pub body_length : ℕ
  pub auth_realm : Option Bytes
  pub auth_login_hint : Bytes
  pub set_cookie : Bytes
  pub etag : Bytes
  pub last_modified : Bytes
  pub cache_control : Bytes
  pub content_range : Bytes
  pub allow : Bytes
  pub extra_headers : Bytes

-- What the process adds: the date, PURGE_CLIENT_CACHE, `g_csp` and AGENTHTTPD_CSP_IMG_SRC.
pub record Settings : Type 0 where
  pub date : Bytes
  pub purge : Bool
  pub csp : Bytes
  pub csp_img : Option Bytes

-- `%d`, of a number of at most `n` digits.
unfoldable pub decimal_loop : ℕ → ℕ → Bytes
decimal_loop zero v = []
decimal_loop (suc n) v =
    let front = decimal_loop n (v / 10) in
    if ltb v 10 then (b'0' + v) ∷ [] else front ++ (b'0' + v % 10) ∷ []

abbrev pub decimal : ℕ → Bytes
decimal v = decimal_loop 10 v

abbrev pub is_blank : ℕ → Bool
is_blank c = c == b' ' || c == b'\t'

abbrev pub starts_colon : Bytes → Bool
starts_colon [] = false
starts_colon (c ∷ s) = c == b':'

abbrev pub names : Option Bytes → Bool
names none = false
names (some rest) = starts_colon (drop_while is_blank rest)

-- The loop of `has_extra_header` over the lines.
unfoldable pub extra_loop : ℕ → Bytes → Bytes → Bool
extra_loop zero name s = false
extra_loop (suc fuel) name [] = false
extra_loop (suc fuel) name (c ∷ s) =
    names (after_ci name (before b'\n' (c ∷ s)))
    || elim (past b'\n' (c ∷ s)) [ none ↦ false | some rest ↦ extra_loop fuel name rest ]

-- `has_extra_header`.
unfoldable pub has_extra_header : Bytes → Bytes → Bool
has_extra_header extra name = extra_loop (suc (length extra)) name extra

abbrev pub filled : Bytes → Bool
filled [] = false
filled (c ∷ s) = true

abbrev pub or_text : Bytes → Bytes → Bytes
or_text [] t = t
or_text (c ∷ s) t = c ∷ s

abbrev pub crlf : Bytes
crlf = b'\r' ∷ b'\n' ∷ []

-- `snprintf` of one line, and whether it is called.
abbrev pub Line : Type 0
Line = Bool × Bytes

abbrev pub line : Bool → Bytes → Bytes → Line
line b name value = (b, name ++ value ++ crlf)

abbrev pub is_html : Bytes → Bool
is_html t = is_some (after (codes "text/html") t)

abbrev pub has_break : Bytes → Bool
has_break s = is_some (past b'\r' s) || is_some (past b'\n' s)

abbrev pub csp_front : Bytes
csp_front =
    codes
      "default-src 'self'; script-src 'self'; style-src 'self' 'unsafe-inline'; img-src 'self' data:"

abbrev pub csp_back : Bytes
csp_back =
    codes
      "; font-src 'self'; connect-src 'self'; frame-ancestors 'none'; base-uri 'self'; form-action 'self'; object-src 'none'"

abbrev pub default_csp : Option Bytes → Bytes
default_csp none = csp_front ++ csp_back
default_csp (some img) =
    if filled img && not (has_break img)
    then csp_front ++ b' ' ∷ img ++ csp_back
    else csp_front ++ csp_back

abbrev pub some_realm : Option Bytes → Bool
some_realm o = is_some o

abbrev pub realm_of : Option Bytes → Bytes
realm_of none = []
realm_of (some r) = r

-- The lines up to the security headers.
abbrev pub entity_lines : Settings → HttpResponse → List Line
entity_lines e r =
    line true (codes "HTTP/1.1 ") (decimal r.status_code ++ b' ' ∷ r.status_text)
    ∷ line true (codes "Date: ") e.date
    ∷ line (not (r.status_code == 304)) (codes "Content-Type: ")
        (or_text r.content_type (codes "text/html"))
    ∷ line (not (r.status_code == 304)) (codes "Content-Length: ") (decimal r.body_length)
    ∷ line (filled r.content_encoding) (codes "Content-Encoding: ") r.content_encoding
    ∷ line (filled r.cache_control) (codes "Cache-Control: ") r.cache_control
    ∷ line (e.purge && is_html r.content_type) (codes "Clear-Site-Data: \"cache\"") []
    ∷ line (filled r.location) (codes "Location: ") r.location
    ∷ line (filled r.set_cookie) (codes "Set-Cookie: ") r.set_cookie
    ∷ line (r.status_code == 401 && some_realm r.auth_realm)
        (codes "WWW-Authenticate: Basic realm=\"")
        (realm_of r.auth_realm ++ codes "\", charset=\"UTF-8\"")
    ∷ line (filled r.auth_login_hint) (codes "X-Auth-Login: ") r.auth_login_hint
    ∷ line (r.status_code == 429 && ltb 0 r.retry_after) (codes "Retry-After: ")
        (decimal r.retry_after)
    ∷ line (filled r.allow) (codes "Allow: ") r.allow
    ∷ (filled r.extra_headers, r.extra_headers)
    ∷ line (filled r.etag) (codes "ETag: ") r.etag
    ∷ line (filled r.etag) (codes "Vary: Accept-Encoding") []
    ∷ line (r.status_code == 206 || filled r.etag && not (r.status_code == 304))
        (codes "Accept-Ranges: bytes") []
    ∷ line (filled r.content_range && (r.status_code == 206 || r.status_code == 416))
        (codes "Content-Range: ") r.content_range
    ∷ line (filled r.last_modified) (codes "Last-Modified: ") r.last_modified
    ∷ line true (codes "Server: AgentHTTPD") []
    ∷ []

-- A default, unless the handler has set the header.
abbrev pub default_line : Bytes → Bytes → Bytes → Line
default_line extra name value = line (not (has_extra_header extra name)) (name ++ codes ": ") value

abbrev pub security_lines : Settings → Bytes → List Line
security_lines e extra =
    default_line extra (codes "X-Content-Type-Options") (codes "nosniff")
    ∷ default_line extra (codes "X-Frame-Options") (codes "DENY")
    ∷ default_line extra (codes "Referrer-Policy") (codes "strict-origin-when-cross-origin")
    ∷ default_line extra (codes "Content-Security-Policy") (or_text e.csp (default_csp e.csp_img))
    ∷ line true (codes "Cross-Origin-Opener-Policy: same-origin") []
    ∷ line true (codes "Cross-Origin-Resource-Policy: same-origin") []
    ∷ line true (codes "X-Permitted-Cross-Domain-Policies: none") []
    ∷ []

unfoldable pub header_lines : Settings → Bool → HttpResponse → List Line
header_lines e keep_alive r =
    entity_lines e r
    ++ security_lines e r.extra_headers
    ++ line true (if keep_alive then codes "Connection: keep-alive" else codes "Connection: close")
        []
      ∷ (true, crlf)
      ∷ []

-- The cursor's offset in the buffer, and the bytes written.
abbrev pub Cursor : Type 0
Cursor = ℕ × Bytes

-- `p += snprintf(p, end - p + 1, ...)`. Behind the buffer the size wraps around, which is `none`; the
-- last byte that fits is the NUL.
unfoldable pub emit : Bytes → Cursor → Option Cursor
emit t (p, out) =
    if ltb max_response_size p
    then none
    else some (p + length t, out ++ take (max_response_size - p - 1) t)

unfoldable pub emit_all : List Line → Cursor → Option Cursor
emit_all [] k = some k
emit_all ((false, t) ∷ ls) k = emit_all ls k
emit_all ((true, t) ∷ ls) k = and_then (emit t k) (emit_all ls)

-- What is sent: the buffer up to `response_len`, that length, and the bytes of the body among them.
abbrev pub Built : Type 0
Built = Bytes × ℕ × ℕ

-- `memcpy` of the body; behind the end there is a negative size.
abbrev pub copy_body : Bytes → ℕ → Cursor → Option Built
copy_body body n (p, out) =
    if leb (p + n) (max_response_size - 1)
    then some (out ++ take n body, p + n, n)
    else if leb p (max_response_size - 1)
    then some (
      out ++ take (max_response_size - 1 - p) body,
      max_response_size - 1,
      max_response_size - 1 - p,
    )
    else none

abbrev pub put_body : Bool → Option Bytes → ℕ → Cursor → Option Built
put_body head_only none n (p, out) = some (out, p, 0)
put_body head_only (some body) n (p, out) =
    if not head_only && ltb 0 n then copy_body body n (p, out) else some (out, p, 0)

-- `build_response`.
unfoldable pub build_response : Settings → HttpResponse → Bool → Bool → Option Built
build_response e r head_only keep_alive =
    and_then (emit_all (header_lines e keep_alive r) (0, []))
      (put_body head_only r.body r.body_length)
