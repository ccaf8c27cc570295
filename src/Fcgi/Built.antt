-- ===== src/Fcgi/Built.antt =====
-- The request that `fastcgi_handle_connection` of src/cgi/fastcgi.c builds, the label `build_request`.
use agent_httpd.Base.{
  ℕ, ◌%◌, ◌^◌, Bool, true, Option, none, some, List, [], ◌∷◌, ◌++◌, length, take, if◌then◌else◌,
  Bytes, codes, or_value,
}
use agent_httpd.Text.{set_str}
use agent_httpd.Request.{max_path_size}
use agent_httpd.Range.{strtoll, is_negative}
use agent_httpd.Fcgi.{Param, param_get}

-- The fields that are set; the length is an int, as its 32 bits.
pub record FcgRequest : Type 0 where
  pub method : Bytes
  pub path : Bytes
  pub protocol : Bytes
  pub host : Bytes
  pub user_agent : Bytes
  pub referer : Bytes
  pub accept : Bytes
  pub content_type : Bytes
  pub content_length : ℕ
  pub remote_addr : Bytes
  pub body : Option Bytes

-- A parameter in a field of `size` bytes, empty where it is missing.
abbrev pub field_of : ℕ → Bytes → List Param → Bytes
field_of size name ps = set_str size (or_value (param_get name ps) [])

abbrev pub long_of : Option (Bool × ℕ × Bytes) → Bool × ℕ → Bool × ℕ
long_of none dflt = dflt
long_of (some (neg, n, rest)) dflt = (neg, n)

abbrev pub long_in : Option Bytes → Bool × ℕ → Bool × ℕ
long_in none dflt = dflt
long_in (some v) dflt = long_of (strtoll v) dflt

-- `param_long`: a sign and a value.
unfoldable pub param_long : List Param → Bytes → Bool × ℕ → Bool × ℕ
param_long ps name dflt = long_in (param_get name ps) dflt

-- `(int)(cl >= 0 ? cl : (long)body_len)`.
abbrev pub int_of : Bool × ℕ → ℕ → ℕ
int_of (neg, n) body_len = if is_negative neg n then body_len % 2 ^ 32 else n % 2 ^ 32

-- The client address, or the peer's path; `none` where `getpeername` fails.
abbrev pub client_of : Option Bytes → Option Bytes → Bytes
client_of (some (c ∷ s)) peer = set_str 64 (c ∷ s)
client_of _ (some (c ∷ s)) = set_str 64 (codes "unix:" ++ take 58 (c ∷ s))
client_of _ _ = []

abbrev pub body_of : Bytes → Option Bytes
body_of [] = none
body_of (c ∷ s) = some (c ∷ s)

unfoldable pub build_request : Option Bytes → List Param → Bytes → FcgRequest
build_request peer ps body = record {
  method = set_str 16 (or_value (param_get (codes "REQUEST_METHOD") ps) (codes "GET"));
  path = set_str max_path_size (or_value (param_get (codes "REQUEST_URI") ps) (codes "/"));
  protocol = codes "HTTP/1.1";
  host = field_of 256 (codes "HTTP_HOST") ps;
  user_agent = field_of 512 (codes "HTTP_USER_AGENT") ps;
  referer = field_of 512 (codes "HTTP_REFERER") ps;
  accept = field_of 512 (codes "HTTP_ACCEPT") ps;
  content_type = field_of 128 (codes "CONTENT_TYPE") ps;
  content_length = int_of (param_long ps (codes "CONTENT_LENGTH") (true, 1)) (length body);
  remote_addr = client_of (param_get (codes "REMOTE_ADDR") ps) peer;
  body = body_of body;
}
