-- ===== src/Auth/Tests.antt =====
-- Credentials: runs, and the theorems at concrete inputs.
use agent_httpd.Base.{
  ◌<◌, Bool, true, false, Option, none, some, [], ◌∷◌, ◌++◌, length, Bytes, codes, before, past,
  same, after, after_ci, is_some, ◌≡◌, ◌⊎◌, refl, ap, ◌∙◌, arith,
}
use agent_httpd.Response.{decimal_loop}
use agent_httpd.Range.{strtoll, skip_space, signed, convert, scan_decimal}
use agent_httpd.Auth.{
  Entry, b64_decode, b64_loop, is_strong_hash, secret_matches, fgets, read_entry, load_loop,
  load_htpasswd, entry_named, credentials,
}
use agent_httpd.Auth.Gate.{public_loop, is_public_path}
use agent_httpd.Auth.Public.{Listed, is_public_path-Listed}
use agent_httpd.Auth.Realm.{next_count, auth_logout_realm_bump, entry_matches, check_basic_auth}
use agent_httpd.Auth.Once.{IsName, check_basic_auth_once}
use agent_httpd.Auth.Strong.{IsHashOf, check_basic_auth_strong}

b64_decode-pair : b64_decode (codes "Ym9iOnB3") 386 ≡ codes "bob:pw"
unfolding b64_decode b64_loop
b64_decode-pair = refl

b64_decode-padded : b64_decode (codes "Ym9iOnA=") 386 ≡ codes "bob:p"
unfolding b64_decode b64_loop
b64_decode-padded = refl

-- A byte outside the alphabet ends the text.
b64_decode-cut : b64_decode (codes "Ym9i*nB3") 386 ≡ codes "bob"
unfolding b64_decode b64_loop
b64_decode-cut = refl

abbrev is_bcrypt : Bytes → Bool
is_bcrypt s = is_some (after (codes "$2") s)

abbrev pw_only : Bytes → Bytes → Bool
pw_only pass stored = same pass (codes "pw")

abbrev no_crypt : Bytes → Bytes → Option Bytes
no_crypt pass stored = none

abbrev bob : Entry
bob = record { user = codes "bob"; secret = codes "$2b$x"; roles = [] }

abbrev bob_header : Bytes
bob_header = codes "basic Ym9iOnB3"

credentials-bob : credentials bob_header ≡ some (codes "bob", codes "pw")
unfolding credentials after_ci b64_decode b64_loop before past
credentials-bob = refl

abbrev users_file : Bytes
users_file = codes "# users\nann:secret\nbob:$2b$x\n"

-- The plain secret is skipped.
load_htpasswd-users : load_htpasswd false (some users_file) [] ≡ (true, bob ∷ [])
unfolding load_htpasswd load_loop fgets read_entry before past after
load_htpasswd-users = refl

-- A file without an entry leaves an empty table, although its loading fails.
load_htpasswd-emptied : load_htpasswd false (some (codes "ann:secret\n")) (bob ∷ []) ≡ (false, [])
unfolding load_htpasswd load_loop fgets read_entry before past after
load_htpasswd-emptied = refl

accepted_table :
    (check_basic_auth is_bcrypt pw_only no_crypt true (bob ∷ []) 7 none bob_header).0 ≡ true
unfolding check_basic_auth secret_matches entry_named same after credentials after_ci b64_decode
    b64_loop before past
accepted_table = refl

accepted_bob :
    (check_basic_auth is_bcrypt pw_only no_crypt true
      (load_htpasswd false (some users_file) []).1
      7
      none
      bob_header).0
    ≡ true
accepted_bob =
    ap (λ r. (check_basic_auth is_bcrypt pw_only no_crypt true r.1 7 none bob_header).0)
      load_htpasswd-users
    ∙ accepted_table

check_basic_auth_strong_example :
    (user : Bytes) × (pass : Bytes) × (e : Entry) × (credentials bob_header ≡ some (user, pass))
    × (entry_named user (load_htpasswd false (some users_file) []).1 ≡ some e)
    × (same user e.user ≡ true)
    × (is_strong_hash e.secret ≡ true)
    × IsHashOf is_bcrypt pw_only no_crypt e.secret pass
check_basic_auth_strong_example =
    check_basic_auth_strong is_bcrypt pw_only no_crypt users_file [] 7 none bob_header accepted_bob

bob-IsName : IsName (codes "bob")
bob-IsName = record {
  filled = refl;
  short = omega arith;
  bytes = (
    ((λ e. omega (arith, e)), (λ e. omega (arith, e)), (λ e. omega (arith, e))),
    (
      ((λ e. omega (arith, e)), (λ e. omega (arith, e)), (λ e. omega (arith, e))),
      (((λ e. omega (arith, e)), (λ e. omega (arith, e)), (λ e. omega (arith, e))), tt),
    ),
  );
}

next_count-four : next_count (some (codes "4\n")) ≡ some 5
unfolding strtoll skip_space signed convert scan_decimal
next_count-four = refl

-- A counter that the file holds as the greatest int cannot be raised.
next_count-greatest : next_count (some (codes "2147483647\n")) ≡ none
unfolding strtoll skip_space signed convert scan_decimal
next_count-greatest = refl

next_count-negative : next_count (some (codes "-1\n")) ≡ some 0
unfolding strtoll skip_space signed convert scan_decimal
next_count-negative = refl

abbrev ann_header : Bytes
ann_header = codes "Basic YW5uOnB3"

credentials-ann : credentials ann_header ≡ some (codes "ann", codes "pw")
unfolding credentials after_ci b64_decode b64_loop before past
credentials-ann = refl

abbrev logged_out : Bytes
logged_out = codes "5\nbob|1000\n"

bump-four : auth_logout_realm_bump (codes "bob") 1000 (some (codes "4\n")) ≡ some logged_out
unfolding auth_logout_realm_bump strtoll skip_space signed convert scan_decimal decimal_loop
bump-four = refl

check_basic_auth_once_example :
    ((check_basic_auth is_bcrypt pw_only no_crypt true
        (bob ∷ [])
        1010
        (some logged_out)
        bob_header).0
      ≡ false)
    × ((check_basic_auth is_bcrypt pw_only no_crypt true
          (bob ∷ [])
          1011
          (check_basic_auth is_bcrypt pw_only no_crypt true
            (bob ∷ [])
            1010
            (some logged_out)
            bob_header).1
          ann_header).0
        ≡ entry_matches is_bcrypt pw_only no_crypt
            (codes "pw")
            (entry_named (codes "ann") (bob ∷ [])))
check_basic_auth_once_example =
    check_basic_auth_once is_bcrypt pw_only no_crypt (bob ∷ []) 1000 1010 1011 5 (codes "bob")
      (codes "pw") bob_header (codes "ann") (codes "pw") ann_header logged_out (some (codes "4\n"))
      bob-IsName next_count-four (omega arith) (omega arith) (omega arith) credentials-bob
      credentials-ann bump-four

abbrev public_paths : Bytes
public_paths = codes "/accounts;/"

is_public_path-list : is_public_path public_paths (codes "/accounts/list?x") ≡ true
unfolding is_public_path public_loop before past after
is_public_path-list = refl

-- Another path with the same beginning is not public, nor is what the root entry is a prefix of.
is_public_path-accounting : is_public_path public_paths (codes "/accounting") ≡ false
unfolding is_public_path public_loop before past after
is_public_path-accounting = refl

is_public_path-Listed_example :
    (entry : Bytes) × (rest : Bytes) × Listed entry public_paths
    × (codes "/accounts/list?x" ≡ entry ++ rest)
    × (0 < length entry)
    × ((rest ≡ []) ⊎ ((t : Bytes) × ((rest ≡ b'/' ∷ t) ⊎ (rest ≡ b'?' ∷ t))))
is_public_path-Listed_example =
    is_public_path-Listed public_paths (codes "/accounts/list?x") (omega arith) is_public_path-list
