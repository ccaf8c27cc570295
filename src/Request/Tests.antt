-- ===== src/Request/Tests.antt =====
-- The request parser: runs, and the theorems at concrete inputs.
use agent_httpd.Base.{ℕ, true, false, some, [], ◌∷◌, ◌++◌, ◌≡◌, refl, arith, Bytes, codes, after_ci}
use agent_httpd.Range.{strtoll, skip_space, signed, convert, scan_decimal}
use agent_httpd.Request.{
  HttpRequest, parse_headers, parse_header_line, apply_header, find_ci, set_coding,
}
use agent_httpd.Request.Fields.{coded, apply_lines-coded}
use agent_httpd.Request.Line.{IsWord, words}
use agent_httpd.Request.RoundTrip.{IsLine, crlf, lines_text, apply_lines, parse_headers_text}
use agent_httpd.Request.Strict.{paired, parse_headers-paired}

abbrev empty : HttpRequest
empty = record {
  method = [];
  path = [];
  protocol = [];
  host = [];
  user_agent = [];
  referer = [];
  origin = [];
  sec_fetch_site = [];
  accept = [];
  accept_encoding = [];
  connection = [];
  content_type = [];
  authorization = [];
  cookie = [];
  if_none_match = [];
  if_modified_since = [];
  expect = [];
  range = [];
  x_forwarded_for = [];
  content_length = 0;
  chunked = false;
  te_unsupported = false;
  body_too_large = false;
  extra_headers = [];
}

abbrev spool_size : ℕ
spool_size = 1048576

-- A negative length counts as no body.
parse_header_line-negative :
    (parse_header_line spool_size
      (codes "Content-Length: -5")
      (record empty { content_length = 3 })).content_length
    ≡ 0
unfolding parse_header_line apply_header after_ci strtoll skip_space signed convert scan_decimal
parse_header_line-negative = refl

-- Any coding with `chunked` in its name counts as chunked.
set_coding-xchunked : (set_coding (codes " xchunkedy, br") empty).chunked ≡ true
unfolding find_ci after_ci
set_coding-xchunked = refl

abbrev host_line : Bytes
host_line = codes "Host: a.b"

abbrev te_line : Bytes
te_line = codes "transfer-encoding: gzip"

abbrev get_request : Bytes
get_request =
    words (codes "GET") (codes "/x") (codes "HTTP/1.1")
    ++ crlf (lines_text (host_line ∷ []) (codes "body"))

abbrev got : HttpRequest
got =
    apply_lines spool_size (host_line ∷ [])
      (record empty { method = codes "GET"; path = codes "/x"; protocol = codes "HTTP/1.1" })

abbrev get_word : IsWord 15 (codes "GET")
get_word = record { some_byte = refl; plain = refl; short = omega arith }

abbrev path_word : IsWord 1023 (codes "/x")
path_word = record { some_byte = refl; plain = refl; short = omega arith }

abbrev protocol_word : IsWord 15 (codes "HTTP/1.1")
protocol_word = record { some_byte = refl; plain = refl; short = omega arith }

abbrev host_line-IsLine : IsLine host_line
host_line-IsLine = record { filled = refl; plain = refl; short = omega arith }

parse_headers_text_example :
    parse_headers false spool_size get_request empty ≡ some (codes "body", got)
parse_headers_text_example =
    parse_headers_text false spool_size (codes "GET") (codes "/x") (codes "HTTP/1.1")
      (host_line ∷ []) (codes "body") empty get_word path_word protocol_word (omega arith)
      (host_line-IsLine, tt)

parse_headers-paired_example :
    (head : Bytes) × (get_request ≡ head ++ codes "body") × (paired head ≡ true)
parse_headers-paired_example =
    parse_headers-paired spool_size get_request empty got (codes "body") parse_headers_text_example

te_name : after_ci (codes "Transfer-Encoding:") te_line ≡ some (codes " gzip")
unfolding after_ci
te_name = refl

apply_lines-coded_example :
    coded
      (apply_lines spool_size ((host_line ∷ []) ++ te_line ∷ codes "Content-Length: 5" ∷ []) empty)
    ≡ true
apply_lines-coded_example =
    apply_lines-coded spool_size (host_line ∷ []) (codes "Content-Length: 5" ∷ []) te_line
      (codes " gzip") empty te_name
