-- ===== src/Chunk/Resume.antt =====
-- Feeding the input in pieces: what a call decides on a prefix is what it decides on the whole.
use agent_httpd.Base.{
  ℕ, zero, suc, ◌+◌, ◌-◌, ◌≤◌, ◌<◌, Bool, some, [], ◌∷◌, ◌++◌, length, take, drop, take-append,
  drop-append, length-append, length-drop, ◌≡◌, ◌≢◌, inl, inr, refl, arith, Bytes, Option-cases,
}
use agent_httpd.Chunk.Progress.{
  IsLive, line_end, round_in-Moves, Round-cases, loop_fuel, feed-loop, feed_finished, Phase-cases,
}
use agent_httpd.Chunk.{
  Phase, size_line, payload, trailer, finished, Decoder, Code, need_more, Round, continue, return,
  find_lf, parse_size, starts_with_cr, begin_chunk, read_size, read_payload, read_trailer, round_in,
  loop, feed,
}

find_lf-append : (r e : Bytes) (i ls : ℕ) → find_lf r i ≡ some ls → find_lf (r ++ e) i ≡ some ls
unfolding find_lf
find_lf-append [] e i ls h = absurd (cc)
find_lf-append (c ∷ cs) e i ls h = ground (arith, find_lf-append cs e (i + 1) ls)

-- Round `r` on a prefix against round `r'` on the whole input.
abbrev Extends : Decoder → Round → Round → Type 0
Extends d (continue d') r' = r' ≡ continue d'
Extends d (return need_more d') r' = d' ≡ d
Extends d (return code d') r' = r' ≡ return code d'

Extends-same :
    (d : Decoder) (r : Round) → ((d' : Decoder) → r ≢ return need_more d') → Extends d r r
Extends-same d (continue d') h = refl
Extends-same d (return need_more d') h = absurd (h d' refl)
Extends-same d (return _ d') h = refl

begin_chunk-ne-need_more :
    (capacity : ℕ) (neg : Bool) (sz : ℕ) (d d' : Decoder)
    → begin_chunk capacity neg sz d ≢ return need_more d'
unfolding begin_chunk
begin_chunk-ne-need_more capacity neg sz d d' = ground arith

starts_with_cr-append :
    (r e : Bytes) (i ls : ℕ) → find_lf r i ≡ some ls → starts_with_cr (r ++ e) ≡ starts_with_cr r
unfolding find_lf starts_with_cr
starts_with_cr-append [] e i ls h = absurd (cc)
starts_with_cr-append (c ∷ cs) e i ls h = refl

module _ (w e : Bytes) (capacity : ℕ) (d : Decoder) (h : d.p ≤ length w) where
  module _ (ls : ℕ) (q : find_lf (drop d.p w) d.p ≡ some ls) where
    find_lf_whole : find_lf (drop d.p (w ++ e)) d.p ≡ some ls
    find_lf_whole = rw (drop-append d.p w e h) (find_lf-append (drop d.p w) e d.p ls q)

    take_line : take (ls - d.p) (drop d.p (w ++ e)) ≡ take (ls - d.p) (drop d.p w)
    take_line = rw (drop-append d.p w e h) (
        take-append (ls - d.p) (drop d.p w) e
          (omega (arith, line_end w d.p ls h q, length-drop d.p w)))

    read_size_whole : read_size (w ++ e) capacity d ≡ read_size w capacity d
    unfolding read_size
    read_size_whole = rw (find_lf_whole, q, take_line, read_size)

    read_size-ne-need_more : (d' : Decoder) → read_size w capacity d ≢ return need_more d'
    unfolding read_size
    read_size-ne-need_more d' =
        rw (q, read_size)
          (elim (Option-cases (parse_size (take (ls - d.p) (drop d.p w)))) [
            | inl none_e ↦ rw none_e (λ r. cc)
            | inr ((neg, sz), some_e) ↦
                rw some_e (begin_chunk-ne-need_more capacity neg sz (record d { p = ls + 1 }) d')
          ])

    read_trailer_whole : read_trailer (w ++ e) d ≡ read_trailer w d
    unfolding read_trailer
    read_trailer_whole =
        rw (find_lf_whole, read_trailer)
          (rw (drop-append d.p w e h, starts_with_cr-append (drop d.p w) e d.p ls q)
            (rw (q, read_trailer) refl))

    read_trailer-ne-need_more : (d' : Decoder) → read_trailer w d ≢ return need_more d'
    unfolding read_trailer
    read_trailer-ne-need_more d' = rw (q, read_trailer) (ground arith)

  read_size-Extends : Extends d (read_size w capacity d) (read_size (w ++ e) capacity d)
  unfolding read_size
  read_size-Extends = elim (Option-cases (find_lf (drop d.p w) d.p)) [
    | inl q ↦ rw (q, Extends, read_size) refl
    | inr (ls, q) ↦
        rw (read_size_whole ls q)
          (Extends-same d (read_size w capacity d) (read_size-ne-need_more ls q))
  ]

  read_payload-Extends : Extends d (read_payload w d) (read_payload (w ++ e) d)
  unfolding read_payload
  read_payload-Extends = ground (
    arith,
    take-append d.pending (drop d.p w) e,
    drop-append d.p w e h,
    length-append w e,
    length-drop d.p w,
  )

  read_trailer-Extends : Extends d (read_trailer w d) (read_trailer (w ++ e) d)
  unfolding read_trailer
  read_trailer-Extends = elim (Option-cases (find_lf (drop d.p w) d.p)) [
    | inl q ↦ rw (q, Extends, read_trailer) refl
    | inr (ls, q) ↦
        rw (read_trailer_whole ls q)
          (Extends-same d (read_trailer w d) (read_trailer-ne-need_more ls q))
  ]

  round_in-Extends :
      (m : Phase) → Extends d (round_in m w capacity d) (round_in m (w ++ e) capacity d)
  unfolding round_in
  round_in-Extends size_line = read_size-Extends
  round_in-Extends payload = read_payload-Extends
  round_in-Extends trailer = read_trailer-Extends
  round_in-Extends finished = refl

-- What `feed` did on `w`, seen from a feed of `w ++ e`: where it asked for more, the stored state
-- takes the whole input to the same end; any other answer is final.
abbrev pub Resumes : Code × Decoder → Code × Decoder → (Decoder → Code × Decoder) → Type 0
Resumes (need_more, d') whole again = whole ≡ again d'
Resumes (code, d') whole again = whole ≡ (code, d')

IsLive-append : (w e : Bytes) (d : Decoder) → IsLive w d → IsLive (w ++ e) d
IsLive-append w e d v = record {
  within = omega (arith, length-append w e, v.within);
  running = v.running;
}

module _ (w e : Bytes) (capacity : ℕ) where
  return-Resumes :
      (f : ℕ) (code : Code) (d d' : Decoder)
      → length (w ++ e) < suc f + d.p
      → IsLive w d
      → Extends d (return code d') (round_in d.phase (w ++ e) capacity d)
      → Resumes (code, d') (loop (suc f) (w ++ e) capacity d) (feed (w ++ e) capacity)
  unfolding loop
  return-Resumes f need_more d d' h v x =
      rw (x, feed-loop (w ++ e) capacity d v.running)
        (loop_fuel (suc f) (suc (length (w ++ e))) (w ++ e) capacity d h (omega arith)
          (IsLive-append w e d v))
  return-Resumes f _ d d' h v x = rw (x, loop) refl

  loop-Resumes :
      (f g : ℕ) (d : Decoder)
      → length w < f + d.p
      → length (w ++ e) < g + d.p
      → IsLive w d
      → Resumes (loop f w capacity d) (loop g (w ++ e) capacity d) (feed (w ++ e) capacity)
  unfolding loop
  loop-Resumes zero g d hf hg v = absurd (omega (arith, v.within))
  loop-Resumes (suc f) zero d hf hg v = absurd (omega (arith, v.within, length-append w e))
  loop-Resumes (suc f) (suc g) d hf hg v = elim (Round-cases (round_in d.phase w capacity d)) [
    | inl (d', q) ↦
        let m = rw q at (round_in-Moves d.phase w capacity d refl v) in
        let x = rw q at (round_in-Extends w e capacity d v.within d.phase) in
        rw (q, Resumes, loop)
          (rw (x, Resumes, loop)
            (loop-Resumes f g d' (omega (arith, m.0)) (omega (arith, m.0)) m.1))
    | inr (code, d', q) ↦
        let x = rw q at (round_in-Extends w e capacity d v.within d.phase) in
        rw (q, Resumes, loop) (return-Resumes g code d d' hg v x)
  ]

-- Feeding in pieces is feeding at once. Where a call on `w` asks for more, feeding the longer input
-- `w ++ e` to the stored state gives the same answer and the same state as feeding `w ++ e` from the
-- start; where the call gives any other answer, feeding `w ++ e` instead gives that very answer and
-- state. The cursor is taken to lie inside `w`.
pub feed-append :
    (w e : Bytes) (capacity : ℕ) (d : Decoder)
    → d.p ≤ length w
    → Resumes (feed w capacity d) (feed (w ++ e) capacity d) (feed (w ++ e) capacity)
feed-append w e capacity d h = elim (Phase-cases d.phase) [
  | inl q ↦ rw (feed_finished w capacity d q, Resumes) (feed_finished (w ++ e) capacity d q)
  | inr n ↦ rw (feed-loop w capacity d n) (
      rw (feed-loop (w ++ e) capacity d n, Resumes)
        (loop-Resumes w e capacity (suc (length w)) (suc (length (w ++ e))) d (omega arith)
          (omega arith) (record { within = h; running = n })))
]
