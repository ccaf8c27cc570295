-- ===== src/Chunk/Decode.antt =====
-- The decoder reads back every body from its chunked form.
pub mod Size
pub mod Rounds
use agent_httpd.Base.{
  ℕ, zero, suc, ◌+◌, ◌-◌, ◌*◌, ◌≤◌, ◌<◌, Bool, false, ◌&&◌, ◌||◌, none, some, [], ◌∷◌, ◌++◌, length,
  take, drop, length-append, length-drop, take-append_length, drop-append_length, drop-add,
  append_assoc, append-nil, ◌≡◌, ◌≢◌, ◌⊎◌, inl, inr, refl, sym, subst, ◌∙◌, ap, arith, Bytes, All,
  Bool-cases, Option-cases, ltb, ◌==◌, ==_refl,
}
use agent_httpd.Chunk.Progress.{IsLive, Round-cases, feed-loop}
use agent_httpd.Chunk.Grammar.{
  HexDigit, decimal, lower, upper, Spells, done, digit, LacksLf, IsTail, SizeLine, Trailer, blank,
  blank_cr, field, Encodes, last, chunk,
}
use agent_httpd.Chunk.{
  Phase, size_line, payload, trailer, finished, Decoder, Code, complete, Round, continue, return,
  long_max, fresh, hex_digit, scan_size, parse_size, skip_sign, skip_blanks, find_lf,
  starts_with_cr, begin_chunk, read_size, read_payload, read_trailer, round_in, loop, feed, dechunk,
}
use agent_httpd.Chunk.Decode.Rounds.{
  advance, read_size-SizeLine, read_payload_part, read_trailer_field, read_trailer_blank,
}

module _ (wire : Bytes) (capacity : ℕ) (d : Decoder) where
  pub in_phase :
      {r : Round} (m : Phase)
      → d.phase ≡ m
      → round_in m wire capacity d ≡ r
      → round_in d.phase wire capacity d ≡ r
  in_phase {r} m e q = subst (λ k. round_in k wire capacity d ≡ r) (sym e) q

  loop-continue :
      (fuel : ℕ) (d' : Decoder)
      → round_in d.phase wire capacity d ≡ continue d'
      → loop (suc fuel) wire capacity d ≡ loop fuel wire capacity d'
  unfolding loop
  loop-continue fuel d' q = rw (q, loop)

  loop-return :
      (fuel : ℕ) (code : Code) (d' : Decoder)
      → round_in d.phase wire capacity d ≡ return code d'
      → loop (suc fuel) wire capacity d ≡ (code, d')
  unfolding loop
  loop-return fuel code d' q = rw (q, loop)

-- The answer is 0, and the caller's buffer holds `out`.
pub record Delivers (out : Bytes) (r : Code × Decoder) : Type 0 where
  pub answer : r.0 ≡ complete
  pub at_end : r.1.phase ≡ finished
  pub delivered : r.1.out ≡ out
  pub counted : r.1.written ≡ length out

Delivers-here :
    (d : Decoder)
    → d.written ≡ length d.out
    → Delivers d.out (complete, record d { phase = finished })
Delivers-here d h = record { answer = refl; at_end = refl; delivered = refl; counted = h }

module _ (wire : Bytes) (capacity : ℕ) where
  -- The input behind a line: what is left, and that the cursor is still inside.
  pub behind_line :
      (line rest : Bytes) (p : ℕ)
      → drop p wire ≡ line ++ (b'\n' ∷ rest)
      → p ≤ length wire
      → (drop (p + length line + 1) wire ≡ rest) × (p + length line + 1 ≤ length wire)
  behind_line line rest p e h =
      let (e', h') = advance wire line (b'\n' ∷ rest) p e h in
      advance wire (b'\n' ∷ []) rest (p + length line) e' h'

  -- One round, whatever fuel is left for the rest.
  pub Delivers-continue :
      (out : Bytes) (fuel : ℕ) (d d' : Decoder)
      → length wire < fuel + d.p
      → d.p ≤ length wire
      → d.p < d'.p
      → round_in d.phase wire capacity d ≡ continue d'
      → ((f : ℕ) → length wire < f + d'.p → Delivers out (loop f wire capacity d'))
      → Delivers out (loop fuel wire capacity d)
  Delivers-continue out zero d d' f h lt e next = absurd (omega arith)
  Delivers-continue out (suc fuel) d d' f h lt e next =
      rw (loop-continue wire capacity d fuel d' e) (next fuel (omega arith))

  Delivers-return :
      (fuel : ℕ) (d : Decoder)
      → length wire < fuel + d.p
      → d.p ≤ length wire
      → d.written ≡ length d.out
      → round_in d.phase wire capacity d ≡ return complete (record d { phase = finished })
      → Delivers d.out (loop fuel wire capacity d)
  Delivers-return zero d f h k e = absurd (omega arith)
  Delivers-return (suc fuel) d f h k e =
      rw (loop-return wire capacity d fuel complete _ e) (Delivers-here d k)

  pub loop-Trailer :
      {t : Bytes} (fuel : ℕ) (d : Decoder) (rest : Bytes)
      → Trailer t
      → d.phase ≡ trailer
      → drop d.p wire ≡ t ++ rest
      → d.p ≤ length wire
      → length wire < fuel + d.p
      → d.written ≡ length d.out
      → Delivers d.out (loop fuel wire capacity d)
  unfolding round_in
  loop-Trailer fuel d rest blank m e h f k =
      Delivers-return fuel d f h k (
        in_phase wire capacity d trailer m
          (read_trailer_blank wire capacity d [] rest (inl refl) e))
  loop-Trailer fuel d rest blank_cr m e h f k = Delivers-return fuel d f h k (
      in_phase wire capacity d trailer m
        (read_trailer_blank wire capacity d (b'\r' ∷ []) rest (inr refl) e))
  loop-Trailer fuel d rest (field {line = line} {rest = more} l a b t) m e h f k =
      let e' : drop d.p wire ≡ line ++ (b'\n' ∷ (more ++ rest)) = e ∙ append_assoc line _ rest in
      let (left, inside) = behind_line line (more ++ rest) d.p e' h in
      let d' : Decoder = record d { p = d.p + length line + 1 } in
      Delivers-continue d.out fuel d d' f h (omega arith)
        (in_phase wire capacity d trailer m
          (read_trailer_field wire capacity d line (more ++ rest) l a b e'))
        (λ g hg. loop-Trailer g d' rest t m left inside hg k)

  pub begin_chunk_last :
      (d : Decoder) → begin_chunk capacity false 0 d ≡ continue (record d { phase = trailer })
  unfolding begin_chunk
  begin_chunk_last d = refl

  begin_chunk_fits :
      (n : ℕ) (d : Decoder)
      → 0 < n
      → d.written + n ≤ capacity
      → capacity ≤ long_max
      → begin_chunk capacity false n d ≡ continue (record d { pending = n; phase = payload })
  unfolding begin_chunk
  begin_chunk_fits n d h k m = ground arith

  abbrev after_part : Decoder → Bytes → Decoder
  after_part d part = record {
    p = d.p + (d.pending + 2);
    phase = size_line;
    pending = 0;
    written = d.written + d.pending;
    out = d.out ++ part;
  }

  -- A chunk whose size line is read: its payload and the line end behind it.
  loop_part :
      (fuel : ℕ) (d : Decoder) (part rest out : Bytes)
      → d.phase ≡ payload
      → drop d.p wire ≡ part ++ (b'\r' ∷ b'\n' ∷ rest)
      → d.p ≤ length wire
      → length wire < fuel + d.p
      → d.pending ≡ length part
      → d.pending + 2 ≤ long_max
      → ((f : ℕ)
          → length wire < f + (after_part d part).p
          → drop (after_part d part).p wire ≡ rest
          → (after_part d part).p ≤ length wire
          → Delivers out (loop f wire capacity (after_part d part)))
      → Delivers out (loop fuel wire capacity d)
  unfolding round_in
  loop_part fuel d part rest out m e h f q b next =
      let crlf : Bytes = b'\r' ∷ b'\n' ∷ [] in
      let (left, inside) =
        advance wire (part ++ crlf) rest d.p (e ∙ sym (append_assoc part crlf rest)) h in
      let z : d.p + (d.pending + 2) ≡ d.p + length (part ++ crlf) =
        omega (arith, length-append part crlf) in
      Delivers-continue out fuel d (after_part d part) f h (omega arith)
        (in_phase wire capacity d payload m (read_payload_part wire capacity d part rest q b e))
        (λ g hg. next g hg (rw z left) (rw z inside))

  loop-Encodes :
      {w body : Bytes} (fuel : ℕ) (d : Decoder) (rest : Bytes)
      → Encodes w body
      → d.phase ≡ size_line
      → drop d.p wire ≡ w ++ rest
      → d.p ≤ length wire
      → length wire < fuel + d.p
      → d.written ≡ length d.out
      → capacity + 2 ≤ long_max
      → d.written + length body ≤ capacity
      → Delivers (d.out ++ body) (loop fuel wire capacity d)
  unfolding round_in
  loop-Encodes fuel d rest (last {line = line} {rest = t} l tr) m e h f k c b =
      let e' : drop d.p wire ≡ line ++ (b'\n' ∷ (t ++ rest)) = e ∙ append_assoc line _ rest in
      let (left, inside) = behind_line line (t ++ rest) d.p e' h in
      let d' : Decoder = record d { p = d.p + length line + 1; phase = trailer } in
      rw append-nil (
        Delivers-continue d.out fuel d d' f h (omega arith)
          (in_phase wire capacity d size_line m (
            read_size-SizeLine wire capacity d line (t ++ rest) 0 (omega arith) l e'
            ∙ begin_chunk_last _))
          (λ g hg. loop-Trailer g d' rest tr refl left inside hg k))
  loop-Encodes fuel d rest (chunk {line = line} {rest = more} {body = body} part n l q pos w) m e h
        f k c b =
      let crlf_more : Bytes = b'\r' ∷ b'\n' ∷ (more ++ rest) in
      let e' : drop d.p wire ≡ line ++ (b'\n' ∷ (part ++ crlf_more)) =
        e ∙ append_assoc line _ rest ∙ ap (λ x. line ++ (b'\n' ∷ x)) (append_assoc part _ rest) in
      let (left, inside) = behind_line line (part ++ crlf_more) d.p e' h in
      let d' : Decoder = record d { p = d.p + length line + 1; pending = n; phase = payload } in
      rw (← append_assoc d.out part body) (
        Delivers-continue ((d.out ++ part) ++ body) fuel d d' f h (omega arith)
          (in_phase wire capacity d size_line m (
            read_size-SizeLine wire capacity d line (part ++ crlf_more) n
              (omega (arith, length-append part body)) l e'
            ∙ begin_chunk_fits n _ pos (omega (arith, length-append part body)) (omega arith)))
          (λ g hg.
            loop_part g d' part (more ++ rest) ((d.out ++ part) ++ body) refl left inside hg q
              (omega (arith, length-append part body))
              (λ g' hg' left' inside'.
                loop-Encodes g' (after_part d' part) rest w refl left' inside' hg'
                  (omega (arith, length-append d.out part)) c
                  (omega (arith, length-append part body)))))

-- Round trip with the coding's grammar. Let `w` be any chunked form of `body`: chunks with sizes in
-- hexadecimal, of either case and with up to 16 digits, with extensions and trailer fields. If `body`
-- fits a buffer of `capacity` bytes (two below the greatest `long` or less), then decoding `w`, with
-- anything behind it, returns 0 and has written exactly `body`.
pub dechunk-Encodes :
    {w body : Bytes} (capacity : ℕ) (rest : Bytes)
    → Encodes w body
    → capacity + 2 ≤ long_max
    → length body ≤ capacity
    → Delivers body (dechunk (w ++ rest) capacity)
unfolding dechunk
dechunk-Encodes {w} {body} capacity rest x h k =
    rw (feed-loop (w ++ rest) capacity fresh (λ c. cc)) (
      loop-Encodes (w ++ rest) capacity (suc (length (w ++ rest))) fresh rest x refl refl
        (omega arith) (omega arith) refl h (omega arith))
