-- ===== src/Json.antt =====
-- The JSON helpers: src/core/minijson.c and the buffer of src/core/minijson.h. A pointer into a C
-- string is the list of bytes from there to the terminating NUL; a reader that returns NULL or -1
-- gives `none`. The two loops that skip several bytes a round take as fuel one round more than there
-- are bytes.
pub mod Buffer
pub mod Writer
pub mod Bounds
pub mod RoundTrip
mod Tests
use agent_httpd.Base.{
  ℕ, zero, suc, ◌+◌, ◌-◌, ◌*◌, ◌/◌, ◌%◌, Bool, true, false, ◌&&◌, ◌||◌, Option, none, some, List,
  [], ◌∷◌, ◌++◌, length, ltb, leb, ◌==◌, if◌then◌else◌, Bytes,
}

-- `jws`.
unfoldable pub jws : Bytes → Bytes
jws [] = []
jws (c ∷ cs) = if c == b' ' || c == b'\t' || c == b'\n' || c == b'\r' then jws cs else c ∷ cs

abbrev pub is_xdigit : ℕ → Bool
is_xdigit c = leb b'0' c && leb c b'9' || leb b'a' c && leb c b'f' || leb b'A' c && leb c b'F'

-- The value that one round of `hex4` adds.
abbrev pub hex_value : ℕ → ℕ
hex_value c =
    if leb b'0' c && leb c b'9'
    then c - b'0'
    else if leb b'a' c && leb c b'f'
    then c - b'a' + 10
    else c - b'A' + 10

-- `hex4`, behind the four tests by `isxdigit`: the value and what follows the digits.
unfoldable pub hex4 : Bytes → Option (ℕ × Bytes)
hex4 (a ∷ b ∷ c ∷ d ∷ rest) =
    if is_xdigit a && is_xdigit b && is_xdigit c && is_xdigit d
    then some (((hex_value a * 16 + hex_value b) * 16 + hex_value c) * 16 + hex_value d, rest)
    else none
hex4 _ = none

-- One byte into the caller's buffer, unless it is full but for the NUL.
abbrev pub put_byte : ℕ → Bytes → ℕ → Bytes
put_byte out_size out c = if ltb (length out + 1) out_size then out ++ c ∷ [] else out

unfoldable pub put_bytes : ℕ → Bytes → Bytes → Bytes
put_bytes out_size out [] = out
put_bytes out_size out (c ∷ cs) = put_bytes out_size (put_byte out_size out c) cs

-- The UTF-8 form of a code point; `0xC0 | (cp >> 6)` is a sum, since the bits do not meet.
unfoldable pub utf8 : ℕ → Bytes
utf8 cp =
    if ltb cp 0x80
    then cp ∷ []
    else if ltb cp 0x800
    then (0xC0 + cp / 64) ∷ (0x80 + cp % 64) ∷ []
    else if ltb cp 0x10000
    then (0xE0 + cp / 4096) ∷ (0x80 + cp / 64 % 64) ∷ (0x80 + cp % 64) ∷ []
    else (0xF0 + cp / 262144)
      ∷ (0x80 + cp / 4096 % 64)
      ∷ (0x80 + cp / 64 % 64)
      ∷ (0x80 + cp % 64)
      ∷ []

unfoldable pub utf8_put : ℕ → Bytes → ℕ → Bytes
utf8_put out_size out cp = put_bytes out_size out (utf8 cp)

abbrev pub between : ℕ → ℕ → ℕ → Bool
between lo hi c = leb lo c && leb c hi

-- The low half behind a high surrogate: `\u` and four digits.
unfoldable pub low_escape : Bytes → Option (ℕ × Bytes)
low_escape (a ∷ b ∷ rest) = if a == b'\\' && b == b'u' then hex4 rest else none
low_escape _ = none

abbrev pub not_surrogate : ℕ → ℕ
not_surrogate cp = if between 0xD800 0xDFFF cp then 0xFFFD else cp

-- `case 'u'`, from the first digit on: the code point and what follows the escape.
unfoldable pub read_unicode : Bytes → Option (ℕ × Bytes)
read_unicode p = elim (hex4 p) [
  | none ↦ none
  | some (cp, rest) ↦
      if between 0xD800 0xDBFF cp
      then elim (low_escape rest) [
        | none ↦ some (not_surrogate cp, rest)
        | some (lo, rest') ↦
            if between 0xDC00 0xDFFF lo
            then some (0x10000 + (cp - 0xD800) * 1024 + (lo - 0xDC00), rest')
            else some (0xFFFD, rest)
      ]
      else some (not_surrogate cp, rest)
]

-- The `switch` behind a backslash.
unfoldable pub read_escape : Bytes → Option (ℕ × Bytes)
read_escape [] = none
read_escape (c ∷ cs) =
    if c == b'"' || c == b'\\' || c == b'/'
    then some (c, cs)
    else if c == b'b'
    then some (8, cs)
    else if c == b'f'
    then some (12, cs)
    else if c == b'n'
    then some (b'\n', cs)
    else if c == b'r'
    then some (b'\r', cs)
    else if c == b't'
    then some (b'\t', cs)
    else if c == b'u'
    then read_unicode cs
    else none

-- The loop of `jread_string`: what follows the closing quote, and the bytes written.
unfoldable pub read_loop : ℕ → ℕ → Bytes → Bytes → Option (Bytes × Bytes)
read_loop zero out_size p out = none
read_loop (suc fuel) out_size [] out = none
read_loop (suc fuel) out_size (c ∷ cs) out =
    let plain = read_loop fuel out_size cs (put_byte out_size out c) in
    let escaped : Option (Bytes × Bytes) = elim (read_escape cs) [
      | none ↦ none
      | some (cp, rest) ↦ read_loop fuel out_size rest (utf8_put out_size out cp)
    ] in
    if c == b'"' then some (cs, out) else if c == b'\\' then escaped else plain

-- `jread_string`.
unfoldable pub jread_string : Bytes → ℕ → Option (Bytes × Bytes)
jread_string [] out_size = none
jread_string (c ∷ cs) out_size =
    if c == b'"' then read_loop (suc (length cs)) out_size cs [] else none

-- The loop over an object or an array; `depth` counts the brackets of its own kind.
unfoldable pub skip_nested : ℕ → ℕ → ℕ → ℕ → Bytes → Option Bytes
skip_nested zero open_c close_c depth p = none
skip_nested (suc fuel) open_c close_c depth [] = if depth == 0 then some [] else none
skip_nested (suc fuel) open_c close_c depth (c ∷ cs) =
    let text : Option Bytes = elim (jread_string (c ∷ cs) 8) [
      | none ↦ none
      | some (rest, scratch) ↦ skip_nested fuel open_c close_c depth rest
    ] in
    let deeper = skip_nested fuel open_c close_c (depth + 1) cs in
    let closed = skip_nested fuel open_c close_c (depth - 1) cs in
    let on = skip_nested fuel open_c close_c depth cs in
    if c == b'"'
    then text
    else if c == open_c
    then deeper
    else if c == close_c
    then (if depth == 1 then some cs else closed)
    else on

abbrev pub ends_scalar : ℕ → Bool
ends_scalar c = c == b',' || c == b'}' || c == b']'

unfoldable pub skip_scalar : Bytes → Bytes
skip_scalar [] = []
skip_scalar (c ∷ cs) = if ends_scalar c then c ∷ cs else skip_scalar cs

unfoldable pub skip_value_at : Bytes → Option Bytes
skip_value_at [] = none
skip_value_at (c ∷ cs) =
    if c == b'"'
    then elim (jread_string (c ∷ cs) 8) [ none ↦ none | some (rest, scratch) ↦ some rest ]
    else if c == b'{'
    then skip_nested (suc (length (c ∷ cs))) b'{' b'}' 0 (c ∷ cs)
    else if c == b'['
    then skip_nested (suc (length (c ∷ cs))) b'[' b']' 0 (c ∷ cs)
    else if ends_scalar c
    then none
    else some (skip_scalar (c ∷ cs))

-- `jskip_value`.
unfoldable pub jskip_value : Bytes → Option Bytes
jskip_value p = skip_value_at (jws p)

-- A buffer as a C string: up to the first NUL, which `\u0000` can write.
unfoldable pub c_string : Bytes → Bytes
c_string [] = []
c_string (c ∷ cs) = if c == 0 then [] else c ∷ c_string cs

-- `strcmp(…) == 0`.
unfoldable pub equal : Bytes → Bytes → Bool
equal [] [] = true
equal (x ∷ xs) (y ∷ ys) = x == y && equal xs ys
equal _ _ = false

-- `*p == c`, and what follows.
unfoldable pub expect : ℕ → Bytes → Option Bytes
expect c [] = none
expect c (x ∷ xs) = if x == c then some xs else none

unfoldable pub is_end : Bytes → Bool
is_end [] = true
is_end (c ∷ cs) = c == b'}'

-- A key and its colon: the key as read into `char kbuf[64]`, and the value.
unfoldable pub read_key : Bytes → Option (Bytes × Bytes)
read_key p = elim (jread_string p 64) [
  | none ↦ none
  | some (rest, kbuf) ↦ elim (expect b':' (jws rest)) [
    | none ↦ none
    | some value ↦ some (c_string kbuf, jws value)
  ]
]

-- The value and the comma behind it.
unfoldable pub next_member : Bytes → Option Bytes
next_member value = elim (jskip_value value) [ none ↦ none | some rest ↦ expect b',' (jws rest) ]

unfoldable pub find_loop : ℕ → Bytes → Bytes → Option Bytes
find_loop zero p key = none
find_loop (suc fuel) p key = if is_end (jws p) then none else elim (read_key (jws p)) [
  | none ↦ none
  | some (name, value) ↦ elim (equal name key) [
    | true ↦ some value
    | false ↦ elim (next_member value) [ none ↦ none | some rest ↦ find_loop fuel rest key ]
  ]
]

-- `jfind_value`.
unfoldable pub jfind_value : Bytes → Bytes → Option Bytes
jfind_value obj key = elim (expect b'{' (jws obj)) [
  | none ↦ none
  | some p ↦ find_loop (suc (length p)) p key
]
