-- ===== src/Auth/Sessions.antt =====
-- Session cookies: the table of src/security/auth.c in the file that AUTH_SESSION_FILE names, with its
-- bytes as an argument and a result. The file can be opened and locked, and a write is whole; the
-- htpasswd table is the one after `htpasswd_reload_if_changed`. Times are seconds.
pub mod Words
pub mod Table
pub mod Cookies
pub mod Collected
pub mod Presented
pub mod Loops
pub mod Expiry
pub mod Live
pub mod Last
pub mod Revoked
mod Tests
use agent_httpd.Base.{
  ℕ, zero, suc, ◌+◌, ◌-◌, ◌*◌, Bool, true, false, not, ◌&&◌, ◌||◌, Option, none, some, List, [],
  ◌∷◌, ◌++◌, length, take, drop, ltb, leb, ◌==◌, if◌then◌else◌, and_then, Bytes, same, past, before,
  is_some, is_whitespace, drop_while,
}
use agent_httpd.Text.{set_str}
use agent_httpd.Range.{strtoll, is_negative}
use agent_httpd.Response.{decimal}
use agent_httpd.Auth.{Entry, htpasswd_has_user, ct_eq}

abbrev pub token_hex_len : ℕ
token_hex_len = 32

-- What the buffers hold, without the terminating NUL.
abbrev pub buffer_room : ℕ
buffer_room = 49151

abbrev pub max_session_cookies : ℕ
max_session_cookies = 8

abbrev pub is_tab_or_space : ℕ → Bool
is_tab_or_space c = c == b' ' || c == b'\t'

abbrev pub drop_first : ℕ → Bytes → Bytes
drop_first c [] = []
drop_first c (x ∷ s) = if x == c then s else x ∷ s

unfoldable pub drop_last : ℕ → Bytes → Bytes
drop_last c [] = []
drop_last c (x ∷ []) = if x == c then [] else x ∷ []
drop_last c (x ∷ y ∷ s) = x ∷ drop_last c (y ∷ s)

-- The value of a cookie, without its quotes.
abbrev pub cookie_value : Bytes → Bytes
cookie_value v = drop_last b';' (drop_last b'"' (drop_first b'"' (drop_while is_tab_or_space v)))

-- The value of a segment that has the name.
abbrev pub value_named : Bytes → Bytes → Option Bytes
value_named name seg =
    and_then (past b'=' seg)
      (λ v. if same (before b'=' seg) name then some (cookie_value v) else none)

-- `cookie_next`, from the cursor on: a value and the next cursor; `none` is 0.
unfoldable pub cookie_loop : ℕ → ℕ → Bytes → Bytes → Option (Bytes × Option Bytes)
cookie_loop zero out_size name p = none
cookie_loop (suc fuel) out_size name [] = none
cookie_loop (suc fuel) out_size name (c ∷ p) =
    elim (value_named name (drop_while is_tab_or_space (before b';' (c ∷ p)))) [
      | some v ↦
          if ltb 0 (length v) && ltb (length v) out_size then some (v, past b';' (c ∷ p)) else none
      | none ↦ elim (past b';' (c ∷ p)) [
        | none ↦ none
        | some rest ↦ cookie_loop fuel out_size name rest
      ]
    ]

unfoldable pub cookie_next : Bytes → ℕ → Bytes → Option (Bytes × Option Bytes)
cookie_next name out_size p = cookie_loop (suc (length p)) out_size name p

-- The loop of `session_cookie_tokens`, with `room` tokens still to store.
unfoldable pub tokens_loop : ℕ → ℕ → Bytes → Option Bytes → List Bytes
tokens_loop zero room name p = []
tokens_loop (suc fuel) room name none = []
tokens_loop (suc fuel) room name (some p) =
    if room == 0 then [] else elim (cookie_next name (suc token_hex_len) p) [
      | none ↦ []
      | some (t, next) ↦
          let whole = length t == token_hex_len in
          let rest = tokens_loop fuel (if whole then room - 1 else room) name next in
          if whole then t ∷ rest else rest
    ]

-- `session_cookie_tokens`; every round passes a segment.
unfoldable pub session_cookie_tokens : Bytes → Bytes → List Bytes
session_cookie_tokens name header =
    tokens_loop (suc (length header)) max_session_cookies name (some header)

-- A line of the file.
pub record Session : Type 0 where
  pub token : Bytes
  pub user : Bytes
  pub expiry : Bytes

abbrev pub cons_first : ℕ → List Bytes → List Bytes
cons_first c [] = (c ∷ []) ∷ []
cons_first c (l ∷ ls) = (c ∷ l) ∷ ls

-- What stands between the line feeds.
unfoldable pub segments : Bytes → List Bytes
segments [] = [] ∷ []
segments (c ∷ s) = let rest = segments s in if c == b'\n' then [] ∷ rest else cons_first c rest

-- The lines that `strtok_r(buf, "\n", &save)` gives: those that are not empty.
unfoldable pub filled : List Bytes → List Bytes
filled [] = []
filled ([] ∷ ls) = filled ls
filled ((c ∷ l) ∷ ls) = (c ∷ l) ∷ filled ls

-- `session_lock_read`: what the buffer holds.
abbrev pub session_lock_read : Bytes → Bytes
session_lock_read file = before 0 (take buffer_room file)

unfoldable pub lines : Bytes → List Bytes
lines file = filled (segments (session_lock_read file))

-- At most `n` bytes that are not whitespace.
unfoldable pub word_of : ℕ → Bytes → Bytes
word_of zero s = []
word_of (suc n) [] = []
word_of (suc n) (c ∷ s) = let rest = word_of n s in if is_whitespace c then [] else c ∷ rest

-- `%<n>s`, and what follows.
abbrev pub scan_word : ℕ → Bytes → Option (Bytes × Bytes)
scan_word n s =
    let t = drop_while is_whitespace s in
    if length (word_of n t) == 0 then none else some (word_of n t, drop (length (word_of n t)) t)

-- `sscanf(line, "%32s %127s %31s", tok, user, exp) == 3`.
unfoldable pub scan_line : Bytes → Option Session
scan_line line = and_then (scan_word 32 line) (λ a. and_then (scan_word 127 a.1) (λ b.
    and_then (scan_word 31 b.1) (λ c. some (record { token = a.0; user = b.0; expiry = c.0 }))))

-- `atol(exp) > now`.
abbrev pub is_after : Option (Bool × ℕ × Bytes) → ℕ → Bool
is_after none now = false
is_after (some (neg, n, rest)) now = not (is_negative neg n) && ltb now n

abbrev pub is_live : ℕ → Session → Bool
is_live now e = is_after (strtoll e.expiry) now

-- "%s %s %s\n".
abbrev pub printed : Session → Bytes
printed e = e.token ++ (b' ' ∷ (e.user ++ (b' ' ∷ (e.expiry ++ (b'\n' ∷ [])))))

-- `snprintf` behind what the buffer holds.
abbrev pub add_line : Bytes → Session → Bytes
add_line keep e = take buffer_room (keep ++ printed e)

-- Whether a token is one of those presented.
unfoldable pub presented : Bytes → List Bytes → Bool
presented token [] = false
presented token (t ∷ ts) = let rest = presented token ts in if ct_eq token t then true else rest

-- The loop of `auth_session_verify`: the lines kept, whether one was dropped, and the user found.
pub record Scan : Type 0 where
  pub keep : Bytes
  pub dropped : Bool
  pub found : Option Bytes

abbrev pub verify_entry : ℕ → List Entry → List Bytes → ℕ → Option Session → Scan → Scan
verify_entry now users toks out_size none r = record r { dropped = true }
verify_entry now users toks out_size (some e) r =
    if is_live now e && htpasswd_has_user e.user users
    then record r {
      keep = add_line r.keep e;
      found = if presented e.token toks then some (set_str out_size e.user) else r.found;
    }
    else record r { dropped = true }

unfoldable pub verify_loop : ℕ → List Entry → List Bytes → ℕ → List Bytes → Scan → Scan
verify_loop now users toks out_size [] r = r
verify_loop now users toks out_size (l ∷ ls) r =
    verify_loop now users toks out_size ls (verify_entry now users toks out_size (scan_line l) r)

-- `auth_session_verify`, with `enabled` for `auth_session_enabled()`: the user, and the file.
unfoldable pub auth_session_verify :
    Bool → Bytes → List Entry → ℕ → Bytes → ℕ → Bytes → Option Bytes × Bytes
auth_session_verify enabled name users now header out_size file =
    let toks = session_cookie_tokens name header in
    let r =
      verify_loop now users toks out_size (lines file)
        (record { keep = []; dropped = false; found = none }) in
    if not enabled || out_size == 0
    then (none, file)
    else if length toks == 0
    then (none, file)
    else (r.found, if r.dropped then r.keep else file)

-- The loop of `auth_session_create`.
unfoldable pub create_loop : ℕ → List Bytes → Bytes → Bytes
create_loop now [] keep = keep
create_loop now (l ∷ ls) keep = elim (scan_line l) [
  | none ↦ create_loop now ls keep
  | some e ↦ create_loop now ls (if is_live now e then add_line keep e else keep)
]

-- The names that are refused.
abbrev pub refuses : Bytes → Bool
refuses user =
    length user == 0
    || is_some (past b' ' user)
    || is_some (past b'\t' user)
    || is_some (past b'\n' user)
    || ltb 64 (length user + 1)

-- The line of a new session; `%ld` of a number of at most ten digits.
abbrev pub minted : ℕ → ℕ → Bytes → Bytes → Session
minted now ttl_days token user = record {
  token = token;
  user = user;
  expiry = decimal (now + ttl_days * 86400);
}

-- `auth_session_create`, with the token of `random_token_hex`, where there is entropy: the token handed
-- out, and the file.
unfoldable pub auth_session_create :
    Bool → List Entry → ℕ → ℕ → Option Bytes → Bytes → Bytes → Option Bytes × Bytes
auth_session_create enabled users now ttl_days none user file = (none, file)
auth_session_create enabled users now ttl_days (some token) user file =
    if not enabled || refuses user || not (htpasswd_has_user user users)
    then (none, file)
    else (some token, add_line (create_loop now (lines file) []) (minted now ttl_days token user))

-- The loop of `auth_session_delete`: the lines kept, and whether one was removed.
abbrev pub delete_entry : ℕ → List Bytes → Option Session → Bytes × Bool → Bytes × Bool
delete_entry now toks none r = r
delete_entry now toks (some e) r =
    if is_live now e
    then (if presented e.token toks then (r.0, true) else (add_line r.0 e, r.1))
    else r

unfoldable pub delete_loop : ℕ → List Bytes → List Bytes → Bytes × Bool → Bytes × Bool
delete_loop now toks [] r = r
delete_loop now toks (l ∷ ls) r = delete_loop now toks ls (delete_entry now toks (scan_line l) r)

-- `auth_session_delete`: whether a session was removed, and the file.
unfoldable pub auth_session_delete : Bool → Bytes → ℕ → Bytes → Bytes → Bool × Bytes
auth_session_delete enabled name now header file =
    let toks = session_cookie_tokens name header in
    let r = delete_loop now toks (lines file) ([], false) in
    if not enabled || length toks == 0 then (false, file) else (r.1, r.0)
