-- ===== src/Chunk/Lenient.antt =====
-- A size line that holds no size.
use agent_httpd.Base.{
  ℕ, suc, ◌+◌, ◌-◌, ◌≤◌, false, some, [], ◌∷◌, ◌++◌, length, drop, take-append_length, ◌≡◌, ◌≢◌,
  refl, arith, Bytes,
}
use agent_httpd.Chunk.Progress.{feed-loop}
use agent_httpd.Chunk.Grammar.{LacksLf, IsTail, Trailer}
use agent_httpd.Chunk.Decode.Size.{hex_digit-IsTail, parse_size_digits}
use agent_httpd.Chunk.Decode.Rounds.{find_line_end}
use agent_httpd.Chunk.Decode.{
  Delivers, Delivers-continue, loop-Trailer, behind_line, begin_chunk_last, in_phase,
}
use agent_httpd.Chunk.{
  size_line, trailer, Decoder, parse_size, skip_blanks, skip_sign, scan_size, read_size, round_in,
  feed,
}

-- The line does not begin with a blank, a sign or a hexadecimal digit.
abbrev pub HasNoSize : Bytes → Type 0
HasNoSize [] = Unit
HasNoSize (c ∷ cs) = (c ≢ b' ') × (c ≢ b'\t') × (c ≢ b'+') × (c ≢ b'-') × IsTail (c ∷ cs)

parse_size-HasNoSize : (line : Bytes) → HasNoSize line → parse_size line ≡ some (false, 0)
parse_size-HasNoSize [] h =
    parse_size_digits [] 0 (unfold skip_blanks in refl) (unfold skip_sign in refl)
      (unfold scan_size in refl)
parse_size-HasNoSize (c ∷ cs) h =
    parse_size_digits (c ∷ cs) 0 (unfold skip_blanks in ground arith)
      (unfold skip_sign in ground arith)
      (unfold scan_size in rw (hex_digit-IsTail c cs h.4, scan_size) refl)

-- A size line with no size in it, an empty one or one that begins with a letter such as 'x', is not
-- refused but taken for the last chunk: with a trailer behind it the decoder answers 0, and the body
-- is what was delivered before.
pub feed-HasNoSize :
    (wire : Bytes) (capacity : ℕ) (d : Decoder) (line t rest : Bytes)
    → d.phase ≡ size_line
    → d.p ≤ length wire
    → d.written ≡ length d.out
    → LacksLf line
    → HasNoSize line
    → Trailer t
    → drop d.p wire ≡ line ++ (b'\n' ∷ (t ++ rest))
    → Delivers d.out (feed wire capacity d)
unfolding round_in read_size
feed-HasNoSize wire capacity d line t rest m h k l n tr e =
    let (left, inside) = behind_line wire capacity line (t ++ rest) d.p e h in
    let d' : Decoder = record d { p = d.p + length line + 1; phase = trailer } in
    let q : d.p + length line - d.p ≡ length line = omega arith in
    rw (feed-loop wire capacity d (λ c. cc)) (
      Delivers-continue wire capacity d.out (suc (length wire)) d d' (omega arith) h (omega arith)
        (in_phase wire capacity d size_line m (
          rw (find_line_end wire capacity d line (t ++ rest) l e, read_size)
            (rw
              (
                e,
                q,
                take-append_length (length line) line (b'\n' ∷ (t ++ rest)) refl,
                parse_size-HasNoSize line n,
              )
              (begin_chunk_last wire capacity _))))
        (λ g hg. loop-Trailer wire capacity g d' rest tr refl left inside hg k))
