-- ===== src/Chunk/Progress.antt =====
-- Every round moves the cursor forward inside the input, so the loop ends on its fuel.
use agent_httpd.Base.{
  ℕ, zero, suc, ◌+◌, ◌-◌, ◌≤◌, ◌<◌, Bool, none, some, [], ◌∷◌, length, take, drop, length-drop, ◌≡◌,
  ◌≢◌, ◌⊎◌, inl, inr, refl, arith, Bytes, Option-cases,
}
use agent_httpd.Chunk.{
  Phase, size_line, payload, trailer, finished, Decoder, Code, exhausted, complete, malformed,
  Round, continue, return, find_lf, parse_size, begin_chunk, read_size, read_payload, read_trailer,
  round_in, loop, feed_in, feed,
}

pub find_lf_bounds : (r : Bytes) (i ls : ℕ) → find_lf r i ≡ some ls → (i ≤ ls) × (ls < i + length r)
unfolding find_lf
find_lf_bounds [] i ls h = absurd (cc)
find_lf_bounds (c ∷ cs) i ls h = ground (arith, find_lf_bounds cs (i + 1) ls)

-- The cursor stands inside the input, and the decoder is not yet at its end.
pub record IsLive (wire : Bytes) (d : Decoder) : Type 0 where
  pub within : d.p ≤ length wire
  pub running : d.phase ≢ finished

-- `Moves wire d r`: if round `r` goes on, the cursor has moved on.
abbrev pub Moves : Bytes → Decoder → Round → Type 0
Moves wire d (continue d') = (d.p < d'.p) × IsLive wire d'
Moves wire d (return code d') = code ≢ exhausted

begin_chunk-Moves :
    (wire : Bytes) (capacity : ℕ) (neg : Bool) (sz : ℕ) (d d' : Decoder)
    → d.p < d'.p
    → d'.p ≤ length wire
    → Moves wire d (begin_chunk capacity neg sz d')
unfolding begin_chunk
begin_chunk-Moves wire capacity neg sz d d' h k = ground arith

pub line_end :
    (wire : Bytes) (p ls : ℕ)
    → p ≤ length wire
    → find_lf (drop p wire) p ≡ some ls
    → (p ≤ ls) × (ls < length wire)
line_end wire p ls h e = omega (arith, find_lf_bounds (drop p wire) p ls e, length-drop p wire)

read_size-Moves :
    (wire : Bytes) (capacity : ℕ) (d : Decoder)
    → d.p ≤ length wire
    → Moves wire d (read_size wire capacity d)
unfolding read_size
read_size-Moves wire capacity d h = elim (Option-cases (find_lf (drop d.p wire) d.p)) [
  | inl e ↦ rw (e, Moves, read_size) (λ q. cc)
  | inr (ls, e) ↦ rw (e, Moves, read_size) (size_known ls (line_end wire d.p ls h e))
]
  where
    size_known :
        (ls : ℕ)
        → (d.p ≤ ls) × (ls < length wire)
        → Moves wire d (elim (parse_size (take (ls - d.p) (drop d.p wire))) [
          | none ↦ return malformed d
          | some (neg, sz) ↦ begin_chunk capacity neg sz (record d { p = ls + 1 })
        ])
    size_known ls b = elim (Option-cases (parse_size (take (ls - d.p) (drop d.p wire)))) [
      | inl e ↦ rw (e, Moves) (λ q. cc)
      | inr ((neg, sz), e) ↦
          rw (e, Moves)
            (begin_chunk-Moves wire capacity neg sz d (record d { p = ls + 1 }) (omega arith)
              (omega arith))
    ]

read_payload-Moves :
    (wire : Bytes) (d : Decoder) → d.p ≤ length wire → Moves wire d (read_payload wire d)
unfolding read_payload
read_payload-Moves wire d h = ground arith

read_trailer-Moves :
    (wire : Bytes) (d : Decoder)
    → d.phase ≢ finished
    → d.p ≤ length wire
    → Moves wire d (read_trailer wire d)
unfolding read_trailer
read_trailer-Moves wire d t h = elim (Option-cases (find_lf (drop d.p wire) d.p)) [
  | inl e ↦ rw (e, Moves, read_trailer) (λ q. cc)
  | inr (ls, e) ↦ rw (e, Moves, read_trailer) (ground (arith, line_end wire d.p ls h e))
]

-- One round on a live decoder goes on with the cursor moved, or returns a code.
pub round_in-Moves :
    (m : Phase) (wire : Bytes) (capacity : ℕ) (d : Decoder)
    → d.phase ≡ m
    → IsLive wire d
    → Moves wire d (round_in m wire capacity d)
unfolding round_in
round_in-Moves size_line wire capacity d e v = read_size-Moves wire capacity d v.within
round_in-Moves payload wire capacity d e v = read_payload-Moves wire d v.within
round_in-Moves trailer wire capacity d e v = read_trailer-Moves wire d v.running v.within
round_in-Moves finished wire capacity d e v = absurd (v.running e)

pub Round-cases :
    (r : Round)
    → ((d' : Decoder) × (r ≡ continue d')) ⊎ ((code : Code) × (d' : Decoder) × (r ≡ return code d'))
Round-cases (continue d') = inl (d', refl)
Round-cases (return code d') = inr (code, d', refl)

-- With as much fuel as there are bytes left, and one round more, the loop does not run out.
pub loop-ne-exhausted :
    (fuel : ℕ) (wire : Bytes) (capacity : ℕ) (d : Decoder)
    → length wire < fuel + d.p
    → IsLive wire d
    → (loop fuel wire capacity d).0 ≢ exhausted
unfolding loop
loop-ne-exhausted zero wire capacity d h v = absurd (omega (arith, v.within))
loop-ne-exhausted (suc fuel) wire capacity d h v =
    elim (Round-cases (round_in d.phase wire capacity d)) [
      | inl (d', e) ↦
          let m = rw e at (round_in-Moves d.phase wire capacity d refl v) in
          rw (e, loop) (loop-ne-exhausted fuel wire capacity d' (omega (arith, m.0)) m.1)
      | inr (code, d', e) ↦ rw (e, loop) (rw e at (round_in-Moves d.phase wire capacity d refl v))
    ]

-- Two amounts of fuel that suffice give the same result.
pub loop_fuel :
    (f g : ℕ) (wire : Bytes) (capacity : ℕ) (d : Decoder)
    → length wire < f + d.p
    → length wire < g + d.p
    → IsLive wire d
    → loop f wire capacity d ≡ loop g wire capacity d
unfolding loop
loop_fuel zero g wire capacity d h k v = absurd (omega (arith, v.within))
loop_fuel (suc f) zero wire capacity d h k v = absurd (omega (arith, v.within))
loop_fuel (suc f) (suc g) wire capacity d h k v =
    elim (Round-cases (round_in d.phase wire capacity d)) [
      | inl (d', e) ↦
          let m = rw e at (round_in-Moves d.phase wire capacity d refl v) in
          rw (e, loop)
            (loop_fuel f g wire capacity d' (omega (arith, m.0)) (omega (arith, m.0)) m.1)
      | inr (code, d', e) ↦ rw (e, loop)
    ]

-- `http_dechunk_feed` as one loop, where the state is not finished.
pub feed-loop :
    (wire : Bytes) (capacity : ℕ) (d : Decoder)
    → d.phase ≢ finished
    → feed wire capacity d ≡ loop (suc (length wire)) wire capacity d
unfolding feed
feed-loop wire capacity d h = go d.phase h
  where
    go :
        (m : Phase)
        → m ≢ finished
        → feed_in m wire capacity d ≡ loop (suc (length wire)) wire capacity d
    go size_line n = refl
    go payload n = refl
    go trailer n = refl
    go finished n = absurd (n refl)

pub feed_finished :
    (wire : Bytes) (capacity : ℕ) (d : Decoder)
    → d.phase ≡ finished
    → feed wire capacity d ≡ (complete, d)
unfolding feed
feed_finished wire capacity d h = rw h

pub Phase-cases : (m : Phase) → (m ≡ finished) ⊎ (m ≢ finished)
Phase-cases size_line = inr (λ e. cc)
Phase-cases payload = inr (λ e. cc)
Phase-cases trailer = inr (λ e. cc)
Phase-cases finished = inl refl

-- The decoder always answers: on every input and from every state whose cursor lies inside the
-- input, one call of `http_dechunk_feed` returns one of its codes before the fuel is used up.
pub feed-ne-exhausted :
    (wire : Bytes) (capacity : ℕ) (d : Decoder)
    → d.p ≤ length wire
    → (feed wire capacity d).0 ≢ exhausted
feed-ne-exhausted wire capacity d h = elim (Phase-cases d.phase) [
  | inl e ↦ rw (feed_finished wire capacity d e) (λ q. cc)
  | inr n ↦ rw (feed-loop wire capacity d n) (
      loop-ne-exhausted (suc (length wire)) wire capacity d (omega arith)
        (record { within = h; running = n }))
]
