-- ===== src/Chunk/Bounds.antt =====
-- What the decoder writes, and how far it reads, on every input.
use agent_httpd.Base.{
  ℕ, zero, suc, ◌+◌, ◌-◌, ◌*◌, ◌≤◌, ◌<◌, Bool, some, [], ◌∷◌, length, take, drop, length-take,
  length-drop, length-append, ◌≡◌, inl, inr, refl, arith, Bytes, Option-cases,
}
use agent_httpd.Chunk.Progress.{line_end, Round-cases, Phase-cases, feed-loop, feed_finished}
use agent_httpd.Chunk.{
  Phase, size_line, payload, trailer, finished, Decoder, Code, undefined, Round, continue, return,
  long_max, hex_digit, scan_size, parse_size, skip_sign, skip_blanks, find_lf, begin_chunk,
  read_size, read_payload, read_trailer, round_in, loop, feed,
}

hex_digit-lt : (d v : ℕ) → hex_digit d ≡ some v → v < 16
unfolding hex_digit
hex_digit-lt d v h = ground arith

scan_size-le :
    (ds : Bytes) (sz digits r : ℕ) → sz ≤ long_max → scan_size ds sz digits ≡ some r → r ≤ long_max
unfolding scan_size
scan_size-le [] sz digits r h e = ground arith
scan_size-le (c ∷ ds) sz digits r h e = elim (Option-cases (hex_digit c)) [
  | inl q ↦ let e' = rw (q, scan_size) at e in ground arith
  | inr (v, q) ↦
      let e' = rw (q, scan_size) at e in
      ground (arith, hex_digit-lt c v q, scan_size-le ds (sz * 16 + v) (digits + 1) r)
]

-- A size that the parser lets through fits a `long`.
pub parse_size-le :
    (line : Bytes) (neg : Bool) (sz : ℕ) → parse_size line ≡ some (neg, sz) → sz ≤ long_max
unfolding parse_size
parse_size-le line neg sz h = elim (Option-cases (scan_size (skip_sign (skip_blanks line)).1 0 0)) [
  | inl q ↦ let h' = rw (q, parse_size) at h in absurd (cc)
  | inr (r, q) ↦
      let h' = rw (q, parse_size) at h in
      ground (arith, scan_size-le (skip_sign (skip_blanks line)).1 0 0 r (omega arith) q)
]

-- The cursor stands in the input, the output in the caller's buffer, and a payload that is awaited
-- fits what is left of the buffer.
pub record IsValid (wire : Bytes) (capacity : ℕ) (d : Decoder) : Type 0 where
  pub within : d.p ≤ length wire
  pub room : d.written ≤ capacity
  pub counted : length d.out ≡ d.written
  pub awaited : d.phase ≡ payload → d.written + d.pending ≤ capacity

-- Sums with a small addend do not overflow, so only a declared size can bring `undefined`, and not
-- before a byte was written.
abbrev pub Keeps : Bytes → ℕ → Round → Type 0
Keeps wire capacity (continue d') = IsValid wire capacity d'
Keeps wire capacity (return undefined d') = IsValid wire capacity d' × (0 < d'.written)
Keeps wire capacity (return code d') = IsValid wire capacity d'

module _ (wire : Bytes) (capacity : ℕ) where
  begin_chunk-Keeps :
      (neg : Bool) (sz : ℕ) (d : Decoder)
      → sz ≤ long_max
      → d.p ≤ length wire
      → d.written ≤ capacity
      → length d.out ≡ d.written
      → d.phase ≡ size_line
      → Keeps wire capacity (begin_chunk capacity neg sz d)
  unfolding begin_chunk
  begin_chunk-Keeps neg sz d h i j k m = ground arith

  read_size-Keeps :
      (d : Decoder)
      → d.phase ≡ size_line
      → IsValid wire capacity d
      → Keeps wire capacity (read_size wire capacity d)
  unfolding read_size
  read_size-Keeps d m v = elim (Option-cases (find_lf (drop d.p wire) d.p)) [
    | inl q ↦ rw (q, Keeps, read_size) v
    | inr (ls, q) ↦ elim (Option-cases (parse_size (take (ls - d.p) (drop d.p wire)))) [
      | inl e ↦ rw (q, Keeps, read_size) (rw (e, Keeps) v)
      | inr ((neg, sz), e) ↦
          rw (q, Keeps, read_size)
            (rw (e, Keeps)
              (begin_chunk-Keeps neg sz (record d { p = ls + 1 }) (parse_size-le _ neg sz e)
                (omega (arith, line_end wire d.p ls v.within q)) v.room v.counted m))
    ]
  ]

  read_payload-Keeps :
      (d : Decoder)
      → capacity + 2 ≤ long_max
      → d.phase ≡ payload
      → IsValid wire capacity d
      → Keeps wire capacity (read_payload wire d)
  unfolding read_payload
  read_payload-Keeps d h m v = ground (
    arith,
    v.awaited m,
    length-append d.out (take d.pending (drop d.p wire)),
    length-take d.pending (drop d.p wire),
    length-drop d.p wire,
  )

  read_trailer-Keeps :
      (d : Decoder)
      → d.phase ≡ trailer
      → IsValid wire capacity d
      → Keeps wire capacity (read_trailer wire d)
  unfolding read_trailer
  read_trailer-Keeps d m v = elim (Option-cases (find_lf (drop d.p wire) d.p)) [
    | inl q ↦ rw (q, Keeps, read_trailer) v
    | inr (ls, q) ↦ rw (q, Keeps, read_trailer) (ground (arith, line_end wire d.p ls v.within q))
  ]

  round_in-Keeps :
      (m : Phase) (d : Decoder)
      → capacity + 2 ≤ long_max
      → d.phase ≡ m
      → IsValid wire capacity d
      → Keeps wire capacity (round_in m wire capacity d)
  unfolding round_in
  round_in-Keeps size_line d h e v = read_size-Keeps d e v
  round_in-Keeps payload d h e v = read_payload-Keeps d h e v
  round_in-Keeps trailer d h e v = read_trailer-Keeps d e v
  round_in-Keeps finished d h e v = v

  abbrev Safe : Code × Decoder → Type 0
  Safe r = IsValid wire capacity r.1 × (r.0 ≡ undefined → 0 < r.1.written)

  return-Safe : (code : Code) (d : Decoder) → Keeps wire capacity (return code d) → Safe (code, d)
  return-Safe undefined d k = (k.0, λ _. k.1)
  return-Safe _ d k = (k, λ q. absurd (cc))

  loop-Safe :
      (fuel : ℕ) (d : Decoder)
      → capacity + 2 ≤ long_max
      → IsValid wire capacity d
      → Safe (loop fuel wire capacity d)
  unfolding loop
  loop-Safe zero d h v = (v, λ q. absurd (cc))
  loop-Safe (suc fuel) d h v = elim (Round-cases (round_in d.phase wire capacity d)) [
    | inl (d', q) ↦ rw (q, loop) (loop-Safe fuel d' h (rw q at (round_in-Keeps d.phase d h refl v)))
    | inr (code, d', q) ↦
        rw (q, loop) (return-Safe code d' (rw q at (round_in-Keeps d.phase d h refl v)))
  ]

-- Bounds of the decoder, for a buffer of `capacity` bytes (two below the greatest `long` or less) and
-- from any valid state: the new state is valid again, so the cursor is inside the input, no more than
-- `capacity` bytes were written, as many as `written` says, and an awaited payload fits the buffer; and
-- a signed addition overflows only where a byte of the body was already written.
pub feed-IsValid :
    (wire : Bytes) (capacity : ℕ) (d : Decoder)
    → capacity + 2 ≤ long_max
    → IsValid wire capacity d
    → IsValid wire capacity (feed wire capacity d).1
      × ((feed wire capacity d).0 ≡ undefined → 0 < (feed wire capacity d).1.written)
feed-IsValid wire capacity d h v = elim (Phase-cases d.phase) [
  | inl q ↦ rw (feed_finished wire capacity d q) (v, λ e. absurd (cc))
  | inr n ↦ rw (feed-loop wire capacity d n) (loop-Safe wire capacity (suc (length wire)) d h v)
]
