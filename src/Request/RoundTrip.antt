-- ===== src/Request/RoundTrip.antt =====
-- A request written out and parsed: src/http/http_parse.c.
use agent_httpd.Base.{
  ℕ, zero, suc, ◌-◌, ◌≤◌, ◌<◌, Bool, true, false, not, ◌&&◌, none, some, List, [], ◌∷◌, ◌++◌,
  append_assoc, length, length-append, take, take_all, All, if◌then◌else◌, and_then-some, Bytes,
  is_whitespace, take_while, drop_while, ◌≡◌, refl, ap, ◌∙◌, arith, and_left, and_right,
}
use agent_httpd.Request.{
  HttpRequest, consume_eol, is_eol, line_of, rest_of, starts_eol, header_loop, parse_headers,
  parse_header_line, request_line, max_path_size,
}
use agent_httpd.Request.Line.{IsWord, words, no_blank, filled, request_line-words}
use agent_httpd.Request.Rounds.{behind_eol, header_loop_eol, header_loop_line, parse_headers_line}

abbrev pub no_eol : Bytes → Bool
no_eol [] = true
no_eol (c ∷ s) = not (is_eol c) && no_eol s

rest_of-append :
    (l t : Bytes) (c : ℕ) → no_eol l ≡ true → is_eol c ≡ true → rest_of (l ++ c ∷ t) ≡ c ∷ t
unfolding drop_while
rest_of-append [] t c h k = rw (k, not, if◌then◌else◌) refl
rest_of-append (d ∷ l) t c h k =
    let n = and_left (not (is_eol d)) (no_eol l) h in
    rw (n, if◌then◌else◌) (rest_of-append l t c (and_right (not (is_eol d)) (no_eol l) h) k)

line_of-append :
    (l t : Bytes) (c : ℕ) → no_eol l ≡ true → is_eol c ≡ true → line_of (l ++ c ∷ t) ≡ l
unfolding take_while
line_of-append [] t c h k = rw (k, not, if◌then◌else◌) refl
line_of-append (d ∷ l) t c h k =
    let n = and_left (not (is_eol d)) (no_eol l) h in
    rw (n, if◌then◌else◌)
      (ap (λ x. d ∷ x) (line_of-append l t c (and_right (not (is_eol d)) (no_eol l) h) k))

abbrev pub starts_plain : Bytes → Bool
starts_plain [] = false
starts_plain (c ∷ s) = not (is_eol c)

-- A header line: not empty, without line endings, short enough for the parser's buffer.
pub record IsLine (l : Bytes) : Type 0 where
  pub filled : starts_plain l ≡ true
  pub plain : no_eol l ≡ true
  pub short : length l < max_path_size

abbrev pub crlf : Bytes → Bytes
crlf s = b'\r' ∷ b'\n' ∷ s

-- The header lines, the blank line and the body.
abbrev pub lines_text : List Bytes → Bytes → Bytes
lines_text [] body = crlf body
lines_text (l ∷ ls) body = l ++ crlf (lines_text ls body)

abbrev pub apply_lines : ℕ → List Bytes → HttpRequest → HttpRequest
apply_lines spool [] r = r
apply_lines spool (l ∷ ls) r = apply_lines spool ls (parse_header_line spool l r)

module _ (lenient : Bool) (spool : ℕ) where
  loop_crlf :
      (fuel : ℕ) (t : Bytes) (r : HttpRequest)
      → header_loop (suc fuel) lenient spool (crlf t) r ≡ behind_eol lenient spool fuel r t
  unfolding consume_eol
  loop_crlf fuel t r = header_loop_eol lenient spool fuel b'\r' (b'\n' ∷ t) r refl

  loop_line :
      (fuel : ℕ) (l t : Bytes) (r : HttpRequest)
      → IsLine l
      → header_loop (suc fuel) lenient spool (l ++ crlf t) r
        ≡ header_loop fuel lenient spool (crlf t) (parse_header_line spool l r)
  loop_line fuel [] t r h = absurd (cc (h.filled))
  loop_line fuel (c ∷ l) t r h =
      let e = rest_of-append (c ∷ l) (b'\n' ∷ t) b'\r' h.plain refl in
      let f = line_of-append (c ∷ l) (b'\n' ∷ t) b'\r' h.plain refl in
      let g = take_all (max_path_size - 1) (c ∷ l) (omega (arith, h.short)) in
      let n : is_eol c ≡ false = ground (arith, h.filled) in
      header_loop_line lenient spool fuel c (l ++ crlf t) r n
      ∙ ap
          (λ x.
            if starts_eol x
            then header_loop fuel lenient spool x
                (parse_header_line spool (take (max_path_size - 1) (line_of (c ∷ l ++ crlf t))) r)
            else none)
          e
      ∙ ap
          (λ x.
            header_loop fuel lenient spool (crlf t)
              (parse_header_line spool (take (max_path_size - 1) x) r))
          f
      ∙ ap (λ x. header_loop fuel lenient spool (crlf t) (parse_header_line spool x r)) g

  behind_line :
      (fuel : ℕ) (l t : Bytes) (r : HttpRequest)
      → IsLine l
      → behind_eol lenient spool fuel r (l ++ t) ≡ header_loop fuel lenient spool (l ++ t) r
  behind_line fuel [] t r h = absurd (cc (h.filled))
  behind_line fuel (c ∷ l) t r h =
      let n : is_eol c ≡ false = ground (arith, h.filled) in rw (n, if◌then◌else◌) refl

  loop_lines :
      (fuel : ℕ) (ls : List Bytes) (body : Bytes) (r : HttpRequest)
      → All IsLine ls
      → length (lines_text ls body) < fuel
      → header_loop (suc fuel) lenient spool (crlf (lines_text ls body)) r
        ≡ some (body, apply_lines spool ls r)
  unfolding consume_eol
  loop_lines fuel [] body r h k = loop_crlf fuel (crlf body) r
  loop_lines zero (l ∷ ls) body r h k = absurd (omega arith)
  loop_lines (suc zero) (l ∷ ls) body r (h, hs) k =
      absurd (omega (arith, k, length-append l (crlf (lines_text ls body))))
  loop_lines (suc (suc fuel)) (l ∷ ls) body r (h, hs) k =
      let n = length-append l (crlf (lines_text ls body)) in
      loop_crlf (suc (suc fuel)) (l ++ crlf (lines_text ls body)) r
      ∙ behind_line (suc (suc fuel)) l (crlf (lines_text ls body)) r h
      ∙ loop_line (suc fuel) l (lines_text ls body) r h
      ∙ loop_lines fuel ls body (parse_header_line spool l r) hs (omega (arith, k, n))

no_eol-append : (s t : Bytes) → no_eol s ≡ true → no_eol t ≡ true → no_eol (s ++ t) ≡ true
no_eol-append [] t h k = k
no_eol-append (c ∷ s) t h k =
    let n = no_eol-append s t (and_right (not (is_eol c)) (no_eol s) h) k in ground (arith, h, n)

no_eol_word : (t : Bytes) → no_blank t ≡ true → no_eol t ≡ true
no_eol_word [] h = refl
no_eol_word (c ∷ t) h =
    let n = no_eol_word t (and_right (not (is_whitespace c)) (no_blank t) h) in ground (arith, h, n)

starts_word : (t s : Bytes) → filled t ≡ true → no_blank t ≡ true → starts_eol (t ++ s) ≡ false
starts_word [] s h k = absurd (cc)
starts_word (c ∷ t) s h k = ground (arith, k)

no_eol-words :
    (m p v : Bytes) → IsWord 15 m → IsWord 1023 p → IsWord 15 v → no_eol (words m p v) ≡ true
no_eol-words m p v hm hp hv =
    no_eol-append m (b' ' ∷ p ++ b' ' ∷ v) (no_eol_word m hm.plain)
      (no_eol-append p (b' ' ∷ v) (no_eol_word p hp.plain) (no_eol_word v hv.plain))

-- Round trip of a request. For a method and a protocol of at most 15 bytes and a path of at most 1023,
-- not empty and without blanks, whose request line has at most 1024 bytes, and for header lines that
-- are not empty, have no line ending in them and are shorter than 1024 bytes: the request line, the
-- header lines, each behind a CRLF, the blank line and any body parse, under either policy. The body
-- is what stands behind the blank line, and the fields are the three words and what
-- `parse_header_line` makes of the lines one after another.
pub parse_headers_text :
    (lenient : Bool) (spool : ℕ) (m p v : Bytes) (ls : List Bytes) (body : Bytes) (r : HttpRequest)
    → IsWord 15 m
    → IsWord 1023 p
    → IsWord 15 v
    → length (words m p v) ≤ max_path_size
    → All IsLine ls
    → parse_headers lenient spool (words m p v ++ crlf (lines_text ls body)) r
      ≡ some (body, apply_lines spool ls (record r { method = m; path = p; protocol = v }))
parse_headers_text lenient spool m p v ls body r hm hp hv short hs =
    let t = lines_text ls body in
    let plain = no_eol-words m p v hm hp hv in
    let raw = words m p v ++ crlf t in
    let e : rest_of raw ≡ crlf t = rest_of-append (words m p v) (b'\n' ∷ t) b'\r' plain refl in
    let f : line_of raw ≡ words m p v = line_of-append (words m p v) (b'\n' ∷ t) b'\r' plain refl in
    let g = take_all max_path_size (words m p v) short in
    let r1 = record r { method = m; path = p; protocol = v } in
    let from =
      λ (x : HttpRequest). header_loop (suc (length (rest_of raw))) lenient spool (rest_of raw) x in
    let starts =
      ap starts_eol (append_assoc m (b' ' ∷ p ++ b' ' ∷ v) (crlf t))
      ∙ starts_word m (b' ' ∷ (p ++ b' ' ∷ v) ++ crlf t) hm.some_byte hm.plain in
    parse_headers_line lenient spool raw r starts (ap starts_eol e)
    ∙ and_then-some from (
        ap (λ x. request_line (take max_path_size x) r) f
        ∙ ap (λ x. request_line x r) g
        ∙ request_line-words m p v r hm hp hv)
    ∙ ap (λ x. header_loop (suc (length x)) lenient spool x r1) e
    ∙ loop_lines lenient spool (suc (suc (length t))) ls body r1 hs (omega arith)
