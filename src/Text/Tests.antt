-- ===== src/Text/Tests.antt =====
-- The string helpers: runs, and the theorems at concrete inputs.
use agent_httpd.Base.{
  ◌+◌, ◌≤◌, arith, length, ◌≡◌, refl, [], ◌∷◌, ◌++◌, Bytes, codes, same, drop_while,
  drop_last_while,
}
use agent_httpd.Text.{
  url_decode, scan_hex, two_digits, one_digit, html_escape, escape_loop, get_content_type, type_of,
  from_last, trim_whitespace,
}
use agent_httpd.Text.Html.{escaped, html_escape_overflow}

-- A broken escape becomes a NUL, which ends the decoded string; a sign is let through.
url_decode-broken : url_decode (codes "/a%zz+%-1") ≡ codes "/a" ++ 0 ∷ b' ' ∷ 255 ∷ []
unfolding url_decode scan_hex two_digits one_digit drop_while
url_decode-broken = refl

get_content_type-page : get_content_type (codes "/a.b/index.html") ≡ codes "text/html"
unfolding get_content_type type_of from_last same
get_content_type-page = refl

trim_whitespace-both : trim_whitespace (codes " \ta b\r\n") ≡ codes "a b"
unfolding trim_whitespace drop_while drop_last_while
trim_whitespace-both = refl

html_escape_overflow_example :
    ((html_escape (codes "a&" ++ b'"' ∷ codes "b") 8).0
      ≡ length (escaped (codes "a&" ++ b'"' ∷ [])))
    × (8 ≤ (html_escape (codes "a&" ++ b'"' ∷ codes "b") 8).0)
html_escape_overflow_example =
    html_escape_overflow (codes "a&") (codes "b") b'"' 8 (omega arith) (omega arith)

-- Five bytes behind the last one.
html_escape-behind : (html_escape (codes "a&" ++ b'"' ∷ codes "b") 8).0 ≡ 8 + 4
unfolding html_escape escape_loop
html_escape-behind = refl

abbrev euro : Bytes
euro = 0xE2 ∷ 0x82 ∷ 0xAC ∷ []
