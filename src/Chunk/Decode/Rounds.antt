-- ===== src/Chunk/Decode/Rounds.antt =====
-- Each round of the loop, on the piece of the grammar that it consumes.
use agent_httpd.Base.{
  ℕ, ◌+◌, ◌-◌, ◌≤◌, false, ◌&&◌, ◌||◌, some, [], ◌∷◌, ◌++◌, length, drop, length-append,
  length-drop, take-append_length, drop-append_length, drop-add, ◌≡◌, ◌≢◌, ◌⊎◌, inl, inr, refl, ◌∙◌,
  ap, arith, Bytes, ◌==◌,
}
use agent_httpd.Chunk.Grammar.{LacksLf, SizeLine}
use agent_httpd.Chunk.{
  size_line, finished, Decoder, complete, continue, return, long_max, find_lf, starts_with_cr,
  begin_chunk, read_size, read_payload, read_trailer,
}
use agent_httpd.Chunk.Decode.Size.{parse_size-SizeLine}

pub find_lf_line :
    (line rest : Bytes) (i : ℕ)
    → LacksLf line
    → find_lf (line ++ (b'\n' ∷ rest)) i ≡ some (i + length line)
unfolding find_lf
find_lf_line [] rest i l = ap some (omega arith)
find_lf_line (c ∷ cs) rest i l = ground (arith, find_lf_line cs rest (i + 1) l.1)

pub advance :
    (wire s r : Bytes) (p : ℕ)
    → drop p wire ≡ s ++ r
    → p ≤ length wire
    → (drop (p + length s) wire ≡ r) × (p + length s ≤ length wire)
advance wire s r p e h = (
  drop-add p (length s) (p + length s) wire refl ∙ rw e (drop-append_length (length s) s r refl),
  omega (arith, length-drop p wire, ap length e, length-append s r),
)

blank_test :
    (p : ℕ) (line rest : Bytes)
    → line ≢ []
    → line ≢ b'\r' ∷ []
    → (p + length line == p || p + length line == p + 1 && starts_with_cr (line ++ (b'\n' ∷ rest)))
      ≡ false
unfolding starts_with_cr
blank_test p [] rest a b = absurd (a refl)
blank_test p (c ∷ []) rest a b = let n : c ≢ b'\r' = λ e. b (ap (λ x. x ∷ []) e) in ground arith
blank_test p (c ∷ x ∷ cs) rest a b = ground arith

module _ (wire : Bytes) (capacity : ℕ) (d : Decoder) where
  pub find_line_end :
      (line rest : Bytes)
      → LacksLf line
      → drop d.p wire ≡ line ++ (b'\n' ∷ rest)
      → find_lf (drop d.p wire) d.p ≡ some (d.p + length line)
  find_line_end line rest l e = rw e (find_lf_line line rest d.p l)

  pub read_size-SizeLine :
      (line rest : Bytes) (n : ℕ)
      → n ≤ long_max
      → SizeLine line n
      → drop d.p wire ≡ line ++ (b'\n' ∷ rest)
      → read_size wire capacity d
        ≡ begin_chunk capacity false n (record d { p = d.p + length line + 1 })
  unfolding read_size
  read_size-SizeLine line rest n h l e =
      let q : d.p + length line - d.p ≡ length line = omega arith in
      rw (find_line_end line rest l.one_line e, read_size)
        (rw
          (
            e,
            q,
            take-append_length (length line) line (b'\n' ∷ rest) refl,
            parse_size-SizeLine line n h l,
          )
          refl)

  pub read_payload_part :
      (part rest : Bytes)
      → d.pending ≡ length part
      → d.pending + 2 ≤ long_max
      → drop d.p wire ≡ part ++ (b'\r' ∷ b'\n' ∷ rest)
      → read_payload wire d
        ≡ continue (record {
          p = d.p + (d.pending + 2);
          phase = size_line;
          pending = 0;
          written = d.written + d.pending;
          out = d.out ++ part;
        })
  unfolding read_payload
  read_payload_part part rest n h e = rw e (
      rw (take-append_length d.pending part (b'\r' ∷ b'\n' ∷ rest) n) (
        ground
          (arith, length-drop d.p wire, ap length e, length-append part (b'\r' ∷ b'\n' ∷ rest))))

  pub read_trailer_field :
      (line rest : Bytes)
      → LacksLf line
      → line ≢ []
      → line ≢ b'\r' ∷ []
      → drop d.p wire ≡ line ++ (b'\n' ∷ rest)
      → read_trailer wire d ≡ continue (record d { p = d.p + length line + 1 })
  unfolding read_trailer
  read_trailer_field line rest l a b e =
      rw (find_line_end line rest l e, read_trailer) (rw e (rw (blank_test d.p line rest a b) refl))

  pub read_trailer_blank :
      (line rest : Bytes)
      → (line ≡ []) ⊎ (line ≡ b'\r' ∷ [])
      → drop d.p wire ≡ line ++ (b'\n' ∷ rest)
      → read_trailer wire d ≡ return complete (record d { phase = finished })
  unfolding read_trailer starts_with_cr
  read_trailer_blank line rest (inl q) e =
      rw (find_line_end line rest (rw q tt) e, read_trailer) (rw q (ground arith))
  read_trailer_blank line rest (inr q) e =
      rw (find_line_end line rest (rw q ((λ c. cc), tt)) e, read_trailer)
        (rw e (rw q (ground arith)))
