-- ===== src/Auth.antt =====
-- Credentials: the htpasswd table of src/security/auth.c and the checks against it. `crypt` and the
-- bundled bcrypt are parameters. A text field is the bytes before its NUL.
pub mod Sessions
pub mod Realm
pub mod Once
pub mod Strong
pub mod Gate
pub mod Public
mod Tests
use agent_httpd.Base.{
  ℕ, zero, suc, ◌+◌, ◌-◌, ◌*◌, ◌/◌, ◌%◌, ◌^◌, Bool, true, false, not, ◌&&◌, ◌||◌, Option, none,
  some, List, [], ◌∷◌, ◌++◌, length, ltb, leb, ◌==◌, if◌then◌else◌, and_then, or_value, take, drop,
  Bytes, codes, same, after, after_ci, past, before, is_some,
}

-- One entry of the table.
pub record Entry : Type 0 where
  pub user : Bytes
  pub secret : Bytes
  pub roles : Bytes

-- `htpasswd_has_user`.
unfoldable pub htpasswd_has_user : Bytes → List Entry → Bool
htpasswd_has_user user [] = false
htpasswd_has_user user (e ∷ es) =
    let rest = htpasswd_has_user user es in if same user e.user then true else rest

-- The loop of `ct_eq`, by whether `diff` is still 0: an or is 0 where both are, an exclusive or where
-- they are equal.
unfoldable pub ct_loop : Bool → Bytes → Bytes → Bool
ct_loop equal [] b = equal
ct_loop equal (x ∷ a) [] = equal
ct_loop equal (x ∷ a) (y ∷ b) = ct_loop (equal && x == y) a b

-- `ct_eq`; the lengths are compared as 32 bits.
unfoldable pub ct_eq : Bytes → Bytes → Bool
ct_eq a b = ct_loop (length a % 2 ^ 32 == length b % 2 ^ 32) a b

-- The index in the alphabet of `b64_decode`; `none` is -1.
abbrev pub b64_value : ℕ → Option ℕ
b64_value c =
    if leb b'A' c && leb c b'Z'
    then some (c - b'A')
    else if leb b'a' c && leb c b'z'
    then some (c - b'a' + 26)
    else if leb b'0' c && leb c b'9'
    then some (c - b'0' + 52)
    else if c == b'+'
    then some 62
    else if c == b'/'
    then some 63
    else none

-- The loop of `b64_decode`: the room left for bytes, `acc` and `bits`.
unfoldable pub b64_loop : ℕ → ℕ → ℕ → Bytes → Bytes
b64_loop room acc bits [] = []
b64_loop room acc bits (c ∷ s) = elim (b64_value c) [
  | none ↦ []
  | some v ↦
      let acc' = acc * 64 % 2 ^ 32 + v in
      let full = leb 8 (bits + 6) in
      let rest =
        b64_loop (if full then room - 1 else room) acc' (if full then bits - 2 else bits + 6) s in
      if c == b'=' || room == 0
      then []
      else if full
      then acc' / 2 ^ (bits - 2) % 256 ∷ rest
      else rest
]

-- `b64_decode`, into a buffer of at least one byte.
unfoldable pub b64_decode : Bytes → ℕ → Bytes
b64_decode s out_size = b64_loop (out_size - 1) 0 0 s

-- `is_strong_hash`.
abbrev pub is_strong_hash : Bytes → Bool
is_strong_hash s =
    is_some (after (codes "$5$") s)
    || is_some (after (codes "$6$") s)
    || is_some (after (codes "$2a$") s)
    || is_some (after (codes "$2b$") s)
    || is_some (after (codes "$2y$") s)

-- The alphabet of a DES hash.
abbrev pub is_des : ℕ → Bool
is_des c =
    c == b'.'
    || c == b'/'
    || leb b'0' c && leb c b'9'
    || leb b'A' c && leb c b'Z'
    || leb b'a' c && leb c b'z'

unfoldable pub all_des : Bytes → Bool
all_des [] = true
all_des (c ∷ s) = is_des c && all_des s

abbrev pub stored_is_hash : Bytes → Bool
stored_is_hash [] = false
stored_is_hash (c ∷ s) = c == b'$' || length (c ∷ s) == 13 && all_des (c ∷ s)

-- A password against a stored secret, with `bcrypt_is_hash`, `bcrypt_verify` and `crypt`; without
-- HAVE_CRYPT the last has no answer.
module _ (bcrypt_is_hash : Bytes → Bool) (bcrypt_verify : Bytes → Bytes → Bool)
    (crypt : Bytes → Bytes → Option Bytes) where
  abbrev pub crypt_matches : Option Bytes → Bytes → Bool
  crypt_matches none stored = false
  crypt_matches (some got) stored = ct_eq got stored

  -- `secret_matches`.
  unfoldable pub secret_matches : Bytes → Bytes → Bool
  secret_matches supplied stored =
      if not (stored_is_hash stored)
      then ct_eq supplied stored
      else if bcrypt_is_hash stored
      then bcrypt_verify supplied stored
      else crypt_matches (crypt supplied stored) stored

-- `fgets` of a line of at most `n` bytes, and what follows.
unfoldable pub fgets : ℕ → Bytes → Bytes × Bytes
fgets zero s = ([], s)
fgets (suc n) [] = ([], [])
fgets (suc n) (c ∷ s) =
    let rest = fgets n s in if c == b'\n' then (c ∷ [], s) else (c ∷ rest.0, rest.1)

abbrev pub starts_hash : Bytes → Bool
starts_hash [] = true
starts_hash (c ∷ s) = c == b'#'

-- The secret and the roles behind the user.
abbrev pub entry_of : Bool → Bytes → Bytes → Option Entry
entry_of weak_allowed user rest =
    let secret = before b':' rest in
    let roles = or_value (past b':' rest) [] in
    if leb 256 (length secret) || leb 128 (length roles)
    then none
    else if not (is_strong_hash secret) && not weak_allowed
    then none
    else some (record { user = user; secret = secret; roles = roles })

-- One line, without its line end; `none` is one that is skipped.
unfoldable pub read_entry : Bool → Bytes → Option Entry
read_entry weak_allowed line =
    if starts_hash line
    then none
    else and_then (past b':' line) (λ rest.
      if length (before b':' line) == 0 || leb 64 (length (before b':' line))
      then none
      else entry_of weak_allowed (before b':' line) rest)

abbrev pub max_entries : ℕ
max_entries = 64

-- The line in the buffer, cut at its first NUL, CR or LF.
abbrev pub line_text : Bytes → Bytes
line_text line = before b'\r' (before b'\n' (before 0 line))

-- The loop over the lines, with `room` entries still to fill.
unfoldable pub load_loop : ℕ → Bool → ℕ → Bytes → List Entry
load_loop zero weak_allowed room s = []
load_loop (suc fuel) weak_allowed room [] = []
load_loop (suc fuel) weak_allowed room (c ∷ s) =
    let line = fgets 511 (c ∷ s) in
    elim (if room == 0 then none else read_entry weak_allowed (line_text line.0)) [
      | none ↦ load_loop fuel weak_allowed room line.1
      | some e ↦ e ∷ load_loop fuel weak_allowed (room - 1) line.1
    ]

-- `load_htpasswd`, of a file that may be missing: whether it is 0, and the table.
unfoldable pub load_htpasswd : Bool → Option Bytes → List Entry → Bool × List Entry
load_htpasswd weak_allowed none table = (false, table)
load_htpasswd weak_allowed (some file) table =
    let es = load_loop (suc (length file)) weak_allowed max_entries file in
    (not (length es == 0), es)

-- The first entry of a user.
unfoldable pub entry_named : Bytes → List Entry → Option Entry
entry_named user [] = none
entry_named user (e ∷ es) =
    let rest = entry_named user es in if same user e.user then some e else rest

-- The user and the password of an Authorization header; `none` where there are none.
unfoldable pub credentials : Bytes → Option (Bytes × Bytes)
credentials header = and_then (after_ci (codes "Basic ") header) (λ rest.
    let creds = before 0 (b64_decode rest 386) in
    and_then (past b':' creds) (λ pass. some (before b':' creds, pass)))
