-- ===== src/Chunk.antt =====
-- The chunked transfer-coding decoder: src/http/http_chunk.c and `HttpChunkState` of src/httpd.h.
-- A `long` is a number below 2 ^ 63. The two signed additions that the code does on unchecked values
-- are tested here first: where the sum does not fit, C gives the program no meaning, and the decoder
-- returns `undefined`. The loop runs on fuel, one round more than there are bytes.
pub mod Progress
pub mod Resume
pub mod Bounds
pub mod Grammar
pub mod Decode
pub mod Lenient
mod Tests
use agent_httpd.Base.{
  ℕ, zero, suc, ◌+◌, ◌-◌, ◌*◌, ◌/◌, ◌^◌, Bool, true, false, ◌&&◌, ◌||◌, Option, none, some, List,
  [], ◌∷◌, ◌++◌, length, take, drop, ltb, leb, ◌==◌, if◌then◌else◌, Bytes,
}

abbrev pub long_max : ℕ
long_max = 2 ^ 63 - 1

pub data Phase : Type 0 where
  size_line payload trailer finished : Phase

-- `out` holds the bytes that stand in the caller's buffer, `written` of them.
pub record Decoder : Type 0 where
  pub p : ℕ
  pub phase : Phase
  pub pending : ℕ
  pub written : ℕ
  pub out : Bytes

-- The return codes 1, 0, -1 and -2; a signed overflow; fuel that ran out.
pub data Code : Type 0 where
  need_more complete malformed too_large undefined exhausted : Code

-- One round of the loop goes on, or returns.
pub data Round : Type 0 where
  continue : Decoder → Round
  return : Code → Decoder → Round

-- The scan over the bytes from index `i` on; the index of the first '\n'.
unfoldable pub find_lf : Bytes → ℕ → Option ℕ
find_lf [] i = none
find_lf (c ∷ cs) i = if c == b'\n' then some i else find_lf cs (i + 1)

unfoldable pub skip_blanks : Bytes → Bytes
skip_blanks [] = []
skip_blanks (c ∷ cs) = if c == b' ' || c == b'\t' then skip_blanks cs else c ∷ cs

-- The optional sign: `neg`, and what follows.
unfoldable pub skip_sign : Bytes → Bool × Bytes
skip_sign [] = (false, [])
skip_sign (c ∷ cs) =
    if c == b'+' then (false, cs) else if c == b'-' then (true, cs) else (false, c ∷ cs)

unfoldable pub hex_digit : ℕ → Option ℕ
hex_digit d =
    if leb b'0' d && leb d b'9'
    then some (d - b'0')
    else if leb b'a' d && leb d b'f'
    then some (d - b'a' + 10)
    else if leb b'A' d && leb d b'F'
    then some (d - b'A' + 10)
    else none

-- The digit loop, up to the end of the line or a byte that is no digit. `none` is the return of -1.
unfoldable pub scan_size : Bytes → ℕ → ℕ → Option ℕ
scan_size [] sz digits = some sz
scan_size (d ∷ rest) sz digits = elim (hex_digit d) [
  | none ↦ some sz
  | some v ↦
      let more = scan_size rest (sz * 16 + v) (digits + 1) in
      if ltb ((long_max - v) / 16) sz then none else if ltb 16 (digits + 1) then none else more
]

-- A size line: is it negative, and its magnitude.
unfoldable pub parse_size : Bytes → Option (Bool × ℕ)
parse_size line =
    let (neg, digits) = skip_sign (skip_blanks line) in
    elim (scan_size digits 0 0) [ none ↦ none | some sz ↦ some (neg, sz) ]

-- What the size means for the state behind the line.
unfoldable pub begin_chunk : ℕ → Bool → ℕ → Decoder → Round
begin_chunk capacity neg sz d =
    if neg && ltb 0 sz
    then return malformed d
    else if sz == 0
    then continue (record d { phase = trailer })
    else if ltb long_max (d.written + sz)
    then return undefined d
    else if ltb capacity (d.written + sz)
    then return too_large d
    else continue (record d { pending = sz; phase = payload })

unfoldable pub read_size : Bytes → ℕ → Decoder → Round
read_size wire capacity d = elim (find_lf (drop d.p wire) d.p) [
  | none ↦ return need_more d
  | some ls ↦ elim (parse_size (take (ls - d.p) (drop d.p wire))) [
    | none ↦ return malformed d
    | some (neg, sz) ↦ begin_chunk capacity neg sz (record d { p = ls + 1 })
  ]
]

unfoldable pub read_payload : Bytes → Decoder → Round
read_payload wire d =
    let avail = length wire - d.p in
    if ltb long_max (d.pending + 2)
    then return undefined d
    else if ltb avail (d.pending + 2)
    then return need_more d
    else continue (record d {
      out = d.out ++ take d.pending (drop d.p wire);
      written = d.written + d.pending;
      p = d.p + (d.pending + 2);
      pending = 0;
      phase = size_line;
    })

-- `wire[p] == '\r'`, on the bytes from `p` on.
unfoldable pub starts_with_cr : Bytes → Bool
starts_with_cr [] = false
starts_with_cr (c ∷ cs) = c == b'\r'

unfoldable pub read_trailer : Bytes → Decoder → Round
read_trailer wire d = elim (find_lf (drop d.p wire) d.p) [
  | none ↦ return need_more d
  | some ts ↦
      if ts == d.p || ts == d.p + 1 && starts_with_cr (drop d.p wire)
      then return complete (record d { phase = finished })
      else continue (record d { p = ts + 1 })
]

unfoldable pub round_in : Phase → Bytes → ℕ → Decoder → Round
round_in size_line wire capacity d = read_size wire capacity d
round_in payload wire capacity d = read_payload wire d
round_in trailer wire capacity d = read_trailer wire d
round_in finished wire capacity d = continue d

unfoldable pub loop : ℕ → Bytes → ℕ → Decoder → Code × Decoder
loop zero wire capacity d = (exhausted, d)
loop (suc fuel) wire capacity d = elim (round_in d.phase wire capacity d) [
  | continue d' ↦ loop fuel wire capacity d'
  | return code d' ↦ (code, d')
]

-- `http_dechunk_feed`; the state at phase 3 answers at once.
unfoldable pub feed_in : Phase → Bytes → ℕ → Decoder → Code × Decoder
feed_in finished wire capacity d = (complete, d)
feed_in _ wire capacity d = loop (suc (length wire)) wire capacity d

unfoldable pub feed : Bytes → ℕ → Decoder → Code × Decoder
unfolding feed_in
feed wire capacity d = feed_in d.phase wire capacity d

abbrev pub fresh : Decoder
fresh = record { p = 0; phase = size_line; pending = 0; written = 0; out = [] }

-- `http_dechunk`.
unfoldable pub dechunk : Bytes → ℕ → Code × Decoder
unfolding feed
dechunk wire capacity = feed wire capacity fresh
