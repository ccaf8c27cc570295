-- ===== src/Auth/Gate.antt =====
-- What stands beside the checks in src/security/auth.c: the paths that need none (AUTH_PUBLIC_PATHS), the
-- reload of the table, the roles, the name of the session cookie and its header.
use agent_httpd.Base.{
  ℕ, zero, suc, ◌+◌, ◌*◌, Bool, true, false, ◌&&◌, ◌||◌, Option, none, some, List, [], ◌∷◌, ◌++◌,
  length, drop, ltb, leb, ◌==◌, if◌then◌else◌, Bytes, codes, before, past, after, is_some, is_alnum,
}
use agent_httpd.Text.{set_str}
use agent_httpd.Response.{decimal}
use agent_httpd.Request.{max_path_size}
use agent_httpd.Auth.{Entry, entry_named, load_htpasswd}
use agent_httpd.Auth.Sessions.{auth_session_verify}

-- `next == '\0' || next == '/' || next == '?'`.
abbrev pub ends_entry : Bytes → Bool
ends_entry [] = true
ends_entry (c ∷ s) = c == b'/' || c == b'?'

-- One entry against a path of fewer than MAX_PATH_SIZE bytes; `plen` is the length before the query.
abbrev pub entry_allows : Bytes → Bytes → Bool
entry_allows entry path =
    ltb 0 (length entry)
    && leb (length entry) (length (before b'?' path))
    && is_some (after entry path)
    && ends_entry (drop (length entry) path)

-- The loop of `is_public_path` over the entries. Behind the last one the code reads the byte after the NUL,
-- which is 0 in a buffer that is not full.
unfoldable pub public_loop : ℕ → Bytes → Bytes → Bool
public_loop zero paths path = false
public_loop (suc fuel) [] path = false
public_loop (suc fuel) (c ∷ s) path =
    let rest = elim (past b';' (c ∷ s)) as (λ o. Bool) [
      | none ↦ false
      | some t ↦ public_loop fuel t path
    ] in
    if entry_allows (before b';' (c ∷ s)) path then true else rest

-- `is_public_path`, with a value of AUTH_PUBLIC_PATHS of fewer than 2047 bytes.
unfoldable pub is_public_path : Bytes → Bytes → Bool
is_public_path env path =
    let paths = set_str (max_path_size * 2) env in public_loop (suc (length paths)) paths path

-- `htpasswd_reload_if_changed`, with whether the file is there with another time.
unfoldable pub htpasswd_reload_if_changed : Bool → Bool → Option Bytes → List Entry → List Entry
htpasswd_reload_if_changed changed weak_allowed file table =
    if changed then (load_htpasswd weak_allowed file table).1 else table

abbrev pub roles_of : ℕ → Option Entry → Option Bytes
roles_of out_size none = none
roles_of out_size (some e) = some (set_str out_size e.roles)

-- `auth_user_roles`, of the table after the reload.
unfoldable pub auth_user_roles : List Entry → Bytes → ℕ → Option Bytes
auth_user_roles table user out_size =
    if out_size == 0 then none else roles_of out_size (entry_named user table)

-- `auth_session_valid`: the answer, and the file.
abbrev pub auth_session_valid : Bool → Bytes → List Entry → ℕ → Bytes → Bytes → Bool × Bytes
auth_session_valid enabled name users now header file =
    let r = auth_session_verify enabled name users now header 128 file in (is_some r.0, r.1)

abbrev pub is_cookie_byte : ℕ → Bool
is_cookie_byte c = is_alnum c || c == b'-' || c == b'_' || c == b'.' || c == b'!' || c == b'~'

unfoldable pub all_cookie_bytes : Bytes → Bool
all_cookie_bytes [] = true
all_cookie_bytes (c ∷ s) = is_cookie_byte c && all_cookie_bytes s

-- `is_safe_cookie_name`.
abbrev pub is_safe_cookie_name : Bytes → Bool
is_safe_cookie_name [] = false
is_safe_cookie_name (c ∷ s) = all_cookie_bytes (c ∷ s)

-- The name of the cookie, by the value of AUTH_SESSION_COOKIE.
abbrev pub session_cookie : Option Bytes → Bytes
session_cookie none = codes "lume_session"
session_cookie (some e) =
    if leb (length e + 1) 64 && is_safe_cookie_name e then e else codes "lume_session"

-- `auth_session_cookie_line`, into a buffer of `out_size`: the line, and the answer.
unfoldable pub auth_session_cookie_line : Bool → ℕ → Bytes → Bytes → ℕ → Bytes × ℕ
auth_session_cookie_line secure ttl_days name [] out_size = (
  set_str out_size (
      name
      ++ codes "=; Path=/; HttpOnly; SameSite=Lax; "
      ++ (if secure then codes "Secure; " else [])
      ++ codes "Max-Age=0"),
  0,
)
auth_session_cookie_line secure ttl_days name (c ∷ token) out_size = (
  set_str out_size (
      name
      ++ codes "="
      ++ (c ∷ token)
      ++ codes "; Path=/; HttpOnly; SameSite=Lax; "
      ++ (if secure then codes "Secure; " else [])
      ++ codes "Max-Age="
      ++ decimal (ttl_days * 86400)),
  ttl_days * 86400,
)
