-- ===== src/Range.antt =====
-- Byte ranges: `parse_range` of src/http/static.c, with the `strtoll` of base 10 that it calls. A file
-- size is an `off_t` that is not negative; a conversion is its sign, its value and what follows it.
pub mod Within
pub mod Closed
mod Tests
use agent_httpd.Base.{
  ℕ, zero, suc, ◌+◌, ◌-◌, ◌*◌, ◌^◌, min, Bool, true, false, not, ◌&&◌, ◌||◌, Option, none, some,
  List, [], ◌∷◌, length, ltb, leb, ◌==◌, if◌then◌else◌, and_then, Bytes, codes,
}

-- The whitespace that `strtoll` skips.
abbrev pub is_space : ℕ → Bool
is_space c = c == b' ' || leb 9 c && leb c 13

unfoldable pub skip_space : Bytes → Bytes
skip_space [] = []
skip_space (c ∷ cs) = if is_space c then skip_space cs else c ∷ cs

abbrev pub is_decimal : ℕ → Bool
is_decimal c = leb b'0' c && leb c b'9'

-- The digits at the front, as a number, and what follows.
unfoldable pub scan_decimal : ℕ → Bytes → ℕ × Bytes
scan_decimal v [] = (v, [])
scan_decimal v (c ∷ cs) =
    let next = scan_decimal (v * 10 + (c - b'0')) cs in if is_decimal c then next else (v, c ∷ cs)

abbrev pub llong_max : ℕ
llong_max = 2 ^ 63 - 1

abbrev pub starts_decimal : Bytes → Bool
starts_decimal [] = false
starts_decimal (c ∷ cs) = is_decimal c

abbrev pub clamp : Bool → ℕ × Bytes → Bool × ℕ × Bytes
clamp neg r = (neg, min r.0 (if neg then 2 ^ 63 else llong_max), r.1)

unfoldable pub convert : Bool → Bytes → Option (Bool × ℕ × Bytes)
convert neg s = if starts_decimal s then some (clamp neg (scan_decimal 0 s)) else none

unfoldable pub signed : Bytes → Option (Bool × ℕ × Bytes)
signed [] = none
signed (c ∷ cs) =
    if c == b'-'
    then convert true cs
    else if c == b'+'
    then convert false cs
    else convert false (c ∷ cs)

-- `strtoll(s, &end, 10)`; without digits, `end` is `s` and there is no conversion.
unfoldable pub strtoll : Bytes → Option (Bool × ℕ × Bytes)
strtoll s = signed (skip_space s)

-- What `parse_range` answers: 0, -1, or 1 with `start` and `len`.
pub data Answer : Type 0 where
  whole unsatisfiable : Answer
  part : ℕ → ℕ → Answer

unfoldable pub strip_prefix : Bytes → Bytes → Option Bytes
strip_prefix [] s = some s
strip_prefix (p ∷ ps) [] = none
strip_prefix (p ∷ ps) (c ∷ cs) = if c == p then strip_prefix ps cs else none

unfoldable pub has_byte : ℕ → Bytes → Bool
has_byte c [] = false
has_byte c (x ∷ xs) = x == c || has_byte c xs

-- `strchr`, and what follows the byte.
unfoldable pub behind : ℕ → Bytes → Option Bytes
behind c [] = none
behind c (x ∷ xs) = if x == c then some xs else behind c xs

abbrev pub answer_of : ℕ → ℕ → Answer
answer_of start len = if ltb 0 len then part start len else whole

-- `bytes=-N`, from the conversion of N.
abbrev pub suffix_of : Option (Bool × ℕ × Bytes) → ℕ → Answer
suffix_of (some (false, n, [])) size =
    if n == 0 then whole else answer_of (size - min n size) (min n size)
suffix_of (some (false, n, c ∷ cs)) size = whole
suffix_of (some (true, n, rest)) size = whole
suffix_of none size = whole

abbrev pub is_negative : Bool → ℕ → Bool
is_negative neg n = neg && not (n == 0)

-- The last position, where one is given. `none` is an answer of 0.
abbrev pub last_of : Option (Bool × ℕ × Bytes) → ℕ → Option ℕ
last_of (some (neg, e, [])) size =
    if is_negative neg e then none else if leb size e then some (size - 1) else some e
last_of (some (neg, e, c ∷ cs)) size = none
last_of none size = none

unfoldable pub last_position : Bytes → ℕ → Option ℕ
last_position [] size = some (size - 1)
last_position (c ∷ cs) size = last_of (strtoll (c ∷ cs)) size

abbrev pub up_to : ℕ → Option ℕ → Answer
up_to s none = whole
up_to s (some e) = if ltb e s then whole else answer_of s (e - s + 1)

abbrev pub from_position : ℕ → Bytes → ℕ → Answer
from_position s after size =
    if leb size s then unsatisfiable else up_to s (last_position after size)

-- `end != dash || s < 0`: the conversion must end at the first dash.
abbrev pub closed_of : Option (Bool × ℕ × Bytes) → Bytes → ℕ → Answer
closed_of (some (neg, s, rest)) after size =
    if not (length rest == suc (length after)) || is_negative neg s
    then whole
    else from_position s after size
closed_of none after size = whole

-- From the first dash on.
abbrev pub dashed : Bytes → Option Bytes → ℕ → Answer
dashed spec none size = whole
dashed spec (some after) size = closed_of (strtoll spec) after size

unfoldable pub spec_range : Bytes → ℕ → Answer
spec_range [] size = whole
spec_range (c ∷ cs) size =
    if c == b'-' then suffix_of (strtoll cs) size else dashed (c ∷ cs) (behind b'-' (c ∷ cs)) size

abbrev pub bytes_range : Option Bytes → ℕ → Answer
bytes_range none size = whole
bytes_range (some spec) size = if has_byte b',' spec then whole else spec_range spec size

-- `parse_range`; a missing header is `none`.
unfoldable pub parse_range : Option Bytes → ℕ → Answer
parse_range none size = whole
parse_range (some header) size = bytes_range (strip_prefix (codes "bytes=") header) size
