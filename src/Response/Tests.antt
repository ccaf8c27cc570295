-- ===== src/Response/Tests.antt =====
-- The response serializer: runs, and the theorems at concrete inputs.
use agent_httpd.Base.{
  ◌<◌, ◌++◌, arith, true, false, some, none, List, [], ◌∷◌, length, ◌≡◌, refl, Bytes, codes, past,
  before, after, after_ci, drop_while,
}
use agent_httpd.Response.{
  HttpResponse, Settings, decimal, decimal_loop, has_extra_header, extra_loop, header_lines,
  build_response, max_response_size,
}
use agent_httpd.Response.Fits.{text_of, whole, build_response-whole}
use agent_httpd.Response.Headers.{block}

decimal-304 : decimal 304 ≡ codes "304"
unfolding decimal_loop
decimal-304 = refl

abbrev own_headers : List (Bytes × Bytes)
own_headers =
    (codes "X-Trace", codes " 1" ++ b'\r' ∷ [])
    ∷ (codes "x-frame-options", codes "SAMEORIGIN" ++ b'\r' ∷ [])
    ∷ []

abbrev found : HttpResponse
found = record {
  status_code = 200;
  status_text = codes "OK";
  content_type = codes "text/plain";
  content_encoding = [];
  location = [];
  retry_after = 0;
  body = some (codes "hello");
  body_length = 5;
  auth_realm = none;
  auth_login_hint = [];
  set_cookie = [];
  etag = codes "\"1-2\"";
  last_modified = [];
  cache_control = [];
  content_range = [];
  allow = [];
  extra_headers = block own_headers;
}

abbrev plain_settings : Settings
plain_settings = record {
  date = codes "Thu, 01 Jan 1970 00:00:00 GMT";
  purge = false;
  csp = [];
  csp_img = none;
}

found_fits : length (text_of (header_lines plain_settings true found)) < max_response_size
unfolding header_lines decimal_loop has_extra_header extra_loop past before after after_ci
    drop_while
found_fits = omega arith

build_response-whole_example :
    build_response plain_settings found false true
    ≡ some (whole (text_of (header_lines plain_settings true found)) false (some (codes "hello")) 5)
build_response-whole_example = build_response-whole plain_settings found false true found_fits
