-- ===== src/Auth/Realm.antt =====
-- The realm file of src/security/auth.c (AUTH_REALM_FILE): a counter, and the user who has just logged
-- out. The file can be read and written. Then the check of a header, which
-- consumes that record.
use agent_httpd.Base.{
  ℕ, zero, suc, ◌+◌, ◌-◌, ◌%◌, ◌^◌, leb, Bool, true, false, not, ◌||◌, Option, none, some, List, [],
  ◌∷◌, ◌++◌, length, drop, ltb, ◌==◌, if◌then◌else◌, Bytes, same, before,
}
use agent_httpd.Range.{strtoll, is_negative}
use agent_httpd.Response.{decimal}
use agent_httpd.Auth.{Entry, secret_matches, fgets, entry_named, credentials}

-- The counter that "%d" reads: a C int, by its 32 bits; what cannot be read is 0.
abbrev pub count_of : Option (Bool × ℕ × Bytes) → ℕ
count_of none = 0
count_of (some (true, n, rest)) = (2 ^ 32 - n % 2 ^ 32) % 2 ^ 32
count_of (some (false, n, rest)) = n % 2 ^ 32

-- A C int in decimal, as "%d" prints it.
abbrev pub signed_decimal : ℕ → Bytes
signed_decimal n = if ltb n (2 ^ 31) then decimal n else b'-' ∷ decimal (2 ^ 32 - n)

-- `n++` on a C int; at the greatest one it has no value.
abbrev pub increased : ℕ → Option ℕ
increased n = if n == 2 ^ 31 - 1 then none else some ((n + 1) % 2 ^ 32)

abbrev pub next_count : Option Bytes → Option ℕ
next_count none = some 1
next_count (some s) = increased (count_of (strtoll s))

abbrev pub record_of : Bytes → ℕ → ℕ → Bytes
record_of user now n =
    if length user == 0
    then signed_decimal n ++ (b'\n' ∷ [])
    else signed_decimal n ++ (b'\n' ∷ (user ++ (b'|' ∷ (decimal now ++ (b'\n' ∷ [])))))

abbrev pub recorded : Bytes → ℕ → Option ℕ → Option Bytes
recorded user now none = none
recorded user now (some n) = some (record_of user now n)

-- `auth_logout_realm_bump`, with the file as it is, where `none` is one that is not there: the file it
-- writes, or none where the counter overflows.
unfoldable pub auth_logout_realm_bump : Bytes → ℕ → Option Bytes → Option Bytes
auth_logout_realm_bump user now file = recorded user now (next_count file)

-- Up to `n` bytes that are not a bar.
unfoldable pub up_to_bar : ℕ → Bytes → Bytes
up_to_bar zero s = []
up_to_bar (suc n) [] = []
up_to_bar (suc n) (c ∷ s) = let rest = up_to_bar n s in if c == b'|' then [] else c ∷ rest

abbrev pub stamp_of : Bytes → Option (Bool × ℕ × Bytes) → Option (Bytes × Bool × ℕ)
stamp_of user none = none
stamp_of user (some (neg, n, rest)) = some (user, neg, n)

abbrev pub behind_bar : Bytes → Bytes → Option (Bytes × Bool × ℕ)
behind_bar user [] = none
behind_bar user (c ∷ s) = if c == b'|' then stamp_of user (strtoll s) else none

-- `sscanf(line2, "%63[^|]|%ld", lu, &ts) == 2`.
unfoldable pub scan_record : Bytes → Option (Bytes × Bool × ℕ)
scan_record line =
    let user = up_to_bar 63 line in
    if length user == 0 then none else behind_bar user (drop (length user) line)

-- `now - ts < 30`.
abbrev pub is_fresh : ℕ → Bool → ℕ → Bool
is_fresh now neg ts = if is_negative neg ts then ltb (now + ts) 30 else ltb now (ts + 30)

-- The record of a user, whether fresh or not: the file is left with its counter.
abbrev pub taken : ℕ → Bytes → Bytes → Bytes → Option (Bytes × Bool × ℕ) → Bool × Bytes
taken now user line1 file none = (false, file)
taken now user line1 file (some (lu, neg, ts)) =
    if same lu user
    then (is_fresh now neg ts, signed_decimal (count_of (strtoll line1)) ++ (b'\n' ∷ []))
    else (false, file)

-- `auth_logout_consume`, on the file as it is: whether to refuse, and the file.
unfoldable pub auth_logout_consume : Bytes → ℕ → Bytes → Bool × Bytes
auth_logout_consume user now file =
    let line1 = fgets 31 file in
    let line2 = fgets 159 line1.1 in
    if length user == 0 || length line1.1 == 0
    then (false, file)
    else taken now user (before 0 line1.0) file (scan_record (before 0 line2.0))

abbrev pub consumed : Bytes → ℕ → Option Bytes → Bool × Option Bytes
consumed user now none = (false, none)
consumed user now (some file) = let r = auth_logout_consume user now file in (r.0, some r.1)

module _ (bcrypt_is_hash : Bytes → Bool) (bcrypt_verify : Bytes → Bytes → Bool)
    (crypt : Bytes → Bytes → Option Bytes) where
  abbrev pub entry_matches : Bytes → Option Entry → Bool
  entry_matches pass none = false
  entry_matches pass (some e) = secret_matches bcrypt_is_hash bcrypt_verify crypt pass e.secret

  -- `check_basic_auth`, on the table after `htpasswd_reload_if_changed`, with `enabled` for a password
  -- file and the realm file as it is, `none` where there is none: the answer, and the realm file.
  unfoldable pub check_basic_auth :
      Bool → List Entry → ℕ → Option Bytes → Bytes → Bool × Option Bytes
  check_basic_auth false table now realm header = (true, realm)
  check_basic_auth true table now realm header = elim (credentials header) [
    | none ↦ (false, realm)
    | some (user, pass) ↦
        let c = consumed user now realm in
        if c.0 then (false, c.1) else (entry_matches pass (entry_named user table), c.1)
  ]

  -- `auth_check_credentials`.
  unfoldable pub auth_check_credentials : Bool → List Entry → Bytes → Bytes → Bool
  auth_check_credentials enabled table user pass =
      if not enabled
      then true
      else if length user == 0 || length pass == 0
      then false
      else entry_matches pass (entry_named user table)

-- `auth_realm_current`, with the configured realm and the realm file.
abbrev pub auth_realm_current : Bytes → Option Bytes → Bytes
auth_realm_current realm none = realm
auth_realm_current realm (some file) =
    let n = count_of (strtoll file) in
    if n == 0 || leb (2 ^ 31) n then realm else realm ++ (b'#' ∷ decimal n)
