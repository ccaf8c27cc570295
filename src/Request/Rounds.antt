-- ===== src/Request/Rounds.antt =====
-- One round of the loop of `parse_headers` in src/http/http_parse.c.
use agent_httpd.Base.{
  ℕ, suc, Bool, true, false, none, some, ◌∷◌, take, if◌then◌else◌, and_then, Bytes, ◌-◌, ◌≡◌, refl,
}
use agent_httpd.Request.{
  HttpRequest, Parsed, consume_eol, is_eol, line_of, rest_of, starts_eol, header_loop,
  parse_headers, parse_header_line, request_line, max_path_size,
}
use agent_httpd.Base.{length}

module _ (lenient : Bool) (spool : ℕ) where
  -- Behind a terminator: the body, if there is another one, or the loop.
  abbrev pub behind_eol : ℕ → HttpRequest → Bytes → Parsed
  behind_eol fuel r t =
      if starts_eol t
      then and_then (consume_eol lenient t) (λ body. some (body, r))
      else header_loop fuel lenient spool t r

  pub header_loop_eol :
      (fuel c : ℕ) (s : Bytes) (r : HttpRequest)
      → is_eol c ≡ true
      → header_loop (suc fuel) lenient spool (c ∷ s) r
        ≡ and_then (consume_eol lenient (c ∷ s)) (behind_eol fuel r)
  unfolding header_loop
  header_loop_eol fuel c s r h = rw (h, if◌then◌else◌) refl

  -- At a line: what is done with it, if a terminator follows.
  abbrev pub take_line : ℕ → HttpRequest → Bytes → Parsed
  take_line fuel r s =
      if starts_eol (rest_of s)
      then header_loop fuel lenient spool (rest_of s)
          (parse_header_line spool (take (max_path_size - 1) (line_of s)) r)
      else none

  pub header_loop_line :
      (fuel c : ℕ) (s : Bytes) (r : HttpRequest)
      → is_eol c ≡ false
      → header_loop (suc fuel) lenient spool (c ∷ s) r ≡ take_line fuel r (c ∷ s)
  unfolding header_loop
  header_loop_line fuel c s r h = rw (h, if◌then◌else◌) refl

  -- Behind the request line.
  abbrev pub from_line : HttpRequest → Bytes → Parsed
  from_line r raw =
      and_then (request_line (take max_path_size (line_of raw)) r)
        (λ r'. header_loop (suc (length (rest_of raw))) lenient spool (rest_of raw) r')

  pub parse_headers_line :
      (raw : Bytes) (r : HttpRequest)
      → starts_eol raw ≡ false
      → starts_eol (rest_of raw) ≡ true
      → parse_headers lenient spool raw r ≡ from_line r raw
  unfolding parse_headers
  parse_headers_line raw r h k = rw (h, if◌then◌else◌) (rw (k, if◌then◌else◌) refl)
