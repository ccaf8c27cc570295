-- ===== src/Route.antt =====
-- Routing and the login form: src/http/http_route.c. A request's fields are arguments. What another
-- component decides is a parameter: `check` is auth_check_credentials and `create` is
-- auth_session_create of src/security/auth.c, `none` for a session that could not be made.
pub mod Back
pub mod Paths
pub mod Dispatch
mod Tests
use agent_httpd.Base.{
  ℕ, zero, suc, ◌+◌, ◌-◌, ◌*◌, ◌^◌, min, Bool, true, false, not, ◌&&◌, ◌||◌, Option, none, some,
  List, [], ◌∷◌, length, ltb, leb, ◌==◌, if◌then◌else◌, and_then, Bytes, codes, after, after_ci,
  is_some, past, before, same,
}
use agent_httpd.Host.{behind_text}
use agent_httpd.LoginLimit.{Table, blocked_for, fail, success}

-- `is_vite_proxy_route`, of the port and the request's length and path.
abbrev pub ends_part : Option Bytes → Bool
ends_part none = false
ends_part (some []) = true
ends_part (some (c ∷ s)) = c == b'/'

abbrev pub is_vite_proxy_route : ℕ → ℕ → Bytes → Bool
is_vite_proxy_route port content_length p =
    if port == 0
    then false
    else if ltb 0 content_length
    then false
    else if is_some (after (codes "/@") p)
    then true
    else if same p (codes "/react/react-ssr.tsx")
    then true
    else if ends_part (after (codes "/react") p) && not (same p (codes "/react/api/chat"))
    then true
    else is_some (after (codes "/src/") p)

-- The line in front with its line feed, as `ll` counts it.
abbrev pub line_size : Option Bytes → Bytes → ℕ
line_size none s = length s
line_size (some rest) s = suc (length (before b'\n' s))

abbrev pub line_length : Bytes → ℕ
line_length s = line_size (past b'\n' s) s

abbrev pub names_upgrade : Bytes → Bool
names_upgrade s =
    ltb 2 (line_length s)
    && is_some (after_ci (codes "Upgrade:") s)
    && is_some (behind_text (codes "websocket") s)

abbrev pub names_connection : Bytes → Bool
names_connection s =
    ltb 2 (line_length s)
    && is_some (after_ci (codes "Connection:") s)
    && (is_some (behind_text (codes "upgrade") s) || is_some (behind_text (codes "Upgrade") s))

-- The loop of `is_websocket_upgrade`, with the two flags.
unfoldable pub upgrade_loop : ℕ → Bool → Bool → Bytes → Bool
upgrade_loop zero up con s = up && con
upgrade_loop (suc fuel) up con [] = up && con
upgrade_loop (suc fuel) up con (c ∷ s) =
    let up' = up || names_upgrade (c ∷ s) in
    let con' = con || not (names_upgrade (c ∷ s)) && names_connection (c ∷ s) in
    elim (past b'\n' (c ∷ s)) [ none ↦ up' && con' | some rest ↦ upgrade_loop fuel up' con' rest ]

-- `is_websocket_upgrade`, of a text that ends with its NUL.
abbrev pub is_websocket_upgrade : Bytes → Bool
is_websocket_upgrade raw =
    if ltb (length raw) 16
    then false
    else if not (is_some (after_ci (codes "GET") raw))
    then false
    else upgrade_loop (suc (length raw)) false false raw

-- `hexval`; `none` is -1.
abbrev pub hexval : ℕ → Option ℕ
hexval c =
    if leb b'0' c && leb c b'9'
    then some (c - b'0')
    else if leb b'a' c && leb c b'f'
    then some (c - b'a' + 10)
    else if leb b'A' c && leb c b'F'
    then some (c - b'A' + 10)
    else none

abbrev pub hex_byte : Option ℕ → Option ℕ → ℕ
hex_byte (some a) (some b) = a * 16 + b
hex_byte none b = b'%'
hex_byte (some a) none = b'%'

-- The value of a field, into a buffer with room for so many bytes and a NUL.
unfoldable pub decode_value : ℕ → Bytes → Bytes
decode_value zero v = []
decode_value (suc room) [] = []
decode_value (suc room) (c ∷ []) = (if c == b'+' then b' ' else c) ∷ []
decode_value (suc room) (c ∷ d ∷ []) = (if c == b'+' then b' ' else c) ∷ decode_value room (d ∷ [])
decode_value (suc room) (c ∷ a ∷ b ∷ v) =
    let escaped = decode_value room v in
    let rest = decode_value room (a ∷ b ∷ v) in
    if c == b'+'
    then b' ' ∷ rest
    else if c == b'%'
    then hex_byte (hexval a) (hexval b) ∷ escaped
    else c ∷ rest

abbrev pub value_in : Bytes → ℕ → Bytes → Option Bytes → Option Bytes
value_in name out_size seg none = none
value_in name out_size seg (some v) =
    if same (before b'=' seg) name then some (decode_value (out_size - 1) v) else none

-- The loop of `form_field` over the parts between ampersands.
unfoldable pub field_loop : ℕ → Bytes → ℕ → Bytes → Option Bytes
field_loop zero name out_size p = none
field_loop (suc fuel) name out_size [] = none
field_loop (suc fuel) name out_size (c ∷ s) =
    let seg = before b'&' (c ∷ s) in
    elim (value_in name out_size seg (past b'=' seg)) [
      | some v ↦ some v
      | none ↦ elim (past b'&' (c ∷ s)) [
        | none ↦ none
        | some rest ↦ field_loop fuel name out_size rest
      ]
    ]

-- `form_field`, of the bytes up to `len`; `none` is 0.
unfoldable pub form_field : Bytes → Bytes → ℕ → Option Bytes
form_field body name out_size = field_loop (suc (length body)) name out_size body

abbrev pub is_control : ℕ → Bool
is_control c = ltb c 32 || c == 127

unfoldable pub no_control : Bytes → Bool
no_control [] = true
no_control (c ∷ s) = not (is_control c) && no_control s

abbrev pub starts_slash : Bytes → Bool
starts_slash [] = false
starts_slash (c ∷ s) = c == b'/'

-- `is_safe_back`.
abbrev pub is_safe_back : Bytes → Bool
is_safe_back [] = false
is_safe_back (c ∷ s) =
    if not (c == b'/') || starts_slash s || is_some (past b'\\' (c ∷ s))
    then false
    else no_control (c ∷ s)

abbrev pub query_of : Option Bytes → Bytes
query_of none = []
query_of (some qs) = qs

abbrev pub root : Bytes
root = b'/' ∷ []

-- The buffer `back_buf`, read up to its first NUL, if the test lets it pass.
abbrev pub safe_or_root : Option Bytes → Bytes
safe_or_root none = root
safe_or_root (some b) = if is_safe_back (before 0 b) then before 0 b else root

abbrev pub back_of : Bytes → Bytes
back_of [] = root
back_of (c ∷ qs) = safe_or_root (form_field (c ∷ qs) (codes "back") 256)

-- What the client gets: the form with a message, 429 with Retry-After, 500, or 303 with the session's
-- token, and the cookie whose sessions are deleted. The page and the redirect carry `back`.
pub data Answer : Type 0 where
  form : Bytes → Bytes → Answer
  locked : ℕ → Answer
  no_session : Answer
  see_other : Bytes → Bytes → Bytes → Answer

-- The limiter's table, and the two readings of the clock.
abbrev pub Login : Type 0
Login = Option (Answer × Option Table)

module _ (check : Bytes → Bytes → Bool) (create : Bytes → Option Bytes) where
  abbrev pub session : Option Bytes → Bytes → Bytes → Answer
  session none cookie back = no_session
  session (some token) cookie back = see_other token cookie back

  -- With both fields, not locked out.
  abbrev pub verify : Bytes → Bytes → Bytes → Bytes → Bytes → Option Table → ℕ → Login
  verify user pass ip cookie back t later =
      if check user pass
      then some (session (create user) cookie back, success t user ip)
      else and_then (fail t user ip later)
          (λ t'. some (form (codes "Invalid username or password.") back, t'))

  abbrev pub attempt :
      Option Bytes → Option Bytes → Bytes → Bytes → Bytes → Option Table → ℕ → ℕ → Login
  attempt none pass ip cookie back t now later =
      some (form (codes "Missing username or password.") back, t)
  attempt (some user) none ip cookie back t now later =
      some (form (codes "Missing username or password.") back, t)
  attempt (some u) (some p) ip cookie back t now later =
      let user = before 0 u in
      let lock_for = blocked_for t user ip now in
      if ltb 0 lock_for
      then some (locked (min lock_for 2147483647), t)
      else verify user (before 0 p) ip cookie back t later

  -- `handle_login`. `body` has the bytes up to Content-Length; an unknown address is written `-`.
  unfoldable pub handle_login : Bytes → Bytes → Bytes → Bytes → Bytes → Option Table → ℕ → ℕ → Login
  handle_login method path body cookie ip t now later =
      let back = back_of (query_of (past b'?' path)) in
      if same method (codes "GET") || same method (codes "HEAD")
      then some (form [] back, t)
      else attempt (form_field body (codes "username") 128) (form_field body (codes "password") 256)
          ip cookie back t now later
