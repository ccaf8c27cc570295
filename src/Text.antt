-- ===== src/Text.antt =====
-- The string helpers of src/core/util.c. A destination buffer is its size; what is left in it is the
-- bytes before the NUL. A read past the terminating NUL of a source has no meaning in C and gives `none`.
pub mod Html
pub mod Url
pub mod Paths
pub mod Utf8
mod Tests
use Prim.Native.String.{String}
use agent_httpd.Base.{
  ℕ, zero, suc, ◌+◌, ◌-◌, ◌*◌, ◌%◌, Bool, true, false, ◌&&◌, ◌||◌, Option, none, some, List, [],
  ◌∷◌, ◌++◌, length, take, drop, ltb, leb, ◌==◌, if◌then◌else◌, and_then, Bytes, codes, same, past,
  before, is_whitespace, drop_while, drop_last_while,
}

-- `set_str`, into a buffer of at least one byte.
abbrev pub set_str : ℕ → Bytes → Bytes
set_str dst_size src = take (dst_size - 1) src

-- The width that a lead byte announces.
abbrev pub width_of : ℕ → ℕ
width_of b = if leb 0xF0 b then 4 else if leb 0xE0 b then 3 else if leb 0xC2 b then 2 else 1

-- The loop of `utf8_valid_prefix`, from `end` on, with `room` bytes left below `max`. A sequence that
-- runs past the NUL is counted in full, and what stands behind it is read unless `max` is reached.
unfoldable pub prefix_loop : ℕ → ℕ → ℕ → Bytes → Option ℕ
prefix_loop zero room end s = some end
prefix_loop (suc fuel) room end [] = some end
prefix_loop (suc fuel) room end (b ∷ bs) =
    let w = width_of b in
    let next = prefix_loop fuel (room - w) (end + w) (drop w (b ∷ bs)) in
    if ltb room w
    then some end
    else if ltb (length (b ∷ bs)) w
    then (if room == w then some (end + w) else none)
    else next

-- `utf8_valid_prefix`; every round takes a byte of `max` or ends.
unfoldable pub utf8_valid_prefix : Bytes → ℕ → Option ℕ
utf8_valid_prefix s max = prefix_loop max max 0 s

-- `set_str_utf8`, of a source that is not NULL.
unfoldable pub set_str_utf8 : ℕ → Bytes → Option Bytes
set_str_utf8 dst_size src =
    and_then (utf8_valid_prefix src (dst_size - 1))
      (λ n. if leb n (length src) then some (take n src) else none)

-- `trim_whitespace`.
unfoldable pub trim_whitespace : Bytes → Bytes
trim_whitespace s = drop_last_while is_whitespace (drop_while is_whitespace s)

-- `strrchr(s, c)`: from the last `c` on.
unfoldable pub from_last : ℕ → Bytes → Option Bytes
from_last c [] = none
from_last c (x ∷ s) = elim (from_last c s) [
  | some t ↦ some t
  | none ↦ if x == c then some (x ∷ s) else none
]

-- The comparisons of `get_content_type`, in order.
abbrev pub content_types : List (String × String)
content_types =
    (".html", "text/html")
    ∷ (".htm", "text/html")
    ∷ (".css", "text/css")
    ∷ (".js", "application/javascript")
    ∷ (".json", "application/json")
    ∷ (".png", "image/png")
    ∷ (".jpg", "image/jpeg")
    ∷ (".jpeg", "image/jpeg")
    ∷ (".gif", "image/gif")
    ∷ (".webp", "image/webp")
    ∷ (".ico", "image/x-icon")
    ∷ (".svg", "image/svg+xml")
    ∷ (".txt", "text/plain")
    ∷ (".text", "text/plain")
    ∷ (".xml", "application/xml")
    ∷ (".pdf", "application/pdf")
    ∷ (".cgi", "application/x-executable")
    ∷ (".webmanifest", "application/manifest+json")
    ∷ (".wasm", "application/wasm")
    ∷ (".woff", "font/woff")
    ∷ (".woff2", "font/woff2")
    ∷ (".mjs", "application/javascript")
    ∷ []

unfoldable pub type_of : List (String × String) → Bytes → Bytes
type_of [] ext = codes "application/octet-stream"
type_of ((e, t) ∷ rest) ext = if same ext (codes e) then codes t else type_of rest ext

-- `get_content_type`.
unfoldable pub get_content_type : Bytes → Bytes
get_content_type path = elim (from_last b'.' path) [
  | none ↦ codes "application/octet-stream"
  | some ext ↦ type_of content_types ext
]

abbrev pub is_hex : ℕ → Bool
is_hex c = leb b'0' c && leb c b'9' || leb b'a' c && leb c b'f' || leb b'A' c && leb c b'F'

abbrev pub hex_of : ℕ → ℕ
hex_of c = if leb c b'9' then c - b'0' else if leb b'a' c then c - b'a' + 10 else c - b'A' + 10

-- `sscanf(s, "%2x", &hex)` on a zero `hex`, as a `char`: blanks do not count, a sign does; with no digit
-- `hex` stays 0.
unfoldable pub one_digit : Bytes → ℕ
one_digit [] = 0
one_digit (c ∷ s) = if is_hex c then hex_of c else 0

unfoldable pub two_digits : Bytes → ℕ
two_digits [] = 0
two_digits (c ∷ []) = one_digit (c ∷ [])
two_digits (c ∷ d ∷ s) =
    if c == b'-'
    then (256 - one_digit (d ∷ [])) % 256
    else if c == b'+'
    then one_digit (d ∷ [])
    else if is_hex c
    then (if is_hex d then hex_of c * 16 + hex_of d else hex_of c)
    else 0

unfoldable pub scan_hex : Bytes → ℕ
scan_hex s = two_digits (drop_while is_whitespace s)

-- `url_decode`.
unfoldable pub url_decode : Bytes → Bytes
url_decode [] = []
url_decode (c ∷ []) = (if c == b'+' then b' ' else c) ∷ []
url_decode (c ∷ d ∷ []) = (if c == b'+' then b' ' else c) ∷ url_decode (d ∷ [])
url_decode (c ∷ d ∷ e ∷ s) =
    let escaped = scan_hex (d ∷ e ∷ s) ∷ url_decode s in
    let plain = (if c == b'+' then b' ' else c) ∷ url_decode (d ∷ e ∷ s) in
    if c == b'%' then escaped else plain

-- What one byte becomes in `html_escape`.
abbrev pub entity : ℕ → Bytes
entity c =
    if c == b'&'
    then codes "&amp;"
    else if c == b'<'
    then codes "&lt;"
    else if c == b'>'
    then codes "&gt;"
    else if c == b'"'
    then codes "&quot;"
    else c ∷ []

-- The loop of `html_escape`: `p` is the index of the next write, which `snprintf` moves on by the length
-- of the entity even where it cuts it off. The result is where the final NUL is written, and the bytes.
unfoldable pub escape_loop : ℕ → ℕ → Bytes → Bytes → ℕ × Bytes
escape_loop dst_size p out [] = (p, out)
escape_loop dst_size p out (c ∷ s) =
    let next =
      escape_loop dst_size (p + length (entity c)) (out ++ take (dst_size - 1 - p) (entity c)) s in
    if ltb p (dst_size - 1) then next else (p, out)

-- `html_escape`, into a buffer of at least one byte.
unfoldable pub html_escape : Bytes → ℕ → ℕ × Bytes
html_escape src dst_size = escape_loop dst_size 0 [] src

-- The loop of `path_has_dot_component`: one component, and whether it is at its first byte.
unfoldable pub dot_loop : Bool → Bytes → Bool
dot_loop start [] = false
dot_loop start (c ∷ s) =
    let next = dot_loop (c == b'/') s in if start && c == b'.' then true else next

-- `path_has_dot_component`.
unfoldable pub path_has_dot_component : Bytes → Bool
path_has_dot_component path = dot_loop true path
