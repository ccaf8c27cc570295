-- ===== src/Auth/Sessions/Tests.antt =====
-- Session cookies: runs, and the theorems at concrete inputs.
use agent_httpd.Base.{
  ℕ, ◌%◌, ◌^◌, ◌≤◌, ◌<◌, subst, take, Bool, true, false, not, ◌&&◌, none, some, List, [], ◌∷◌,
  length, ◌==◌, if◌then◌else◌, Bytes, codes, before, past, same, drop_while, All, is_whitespace,
  ◌≡◌, refl, sym, ap, ◌∙◌, arith, and_left, and_right, Bool-cases, inl, inr,
}
use agent_httpd.Range.{strtoll, skip_space, signed, convert, scan_decimal}
use agent_httpd.Response.{decimal_loop}
use agent_httpd.Auth.{Entry, htpasswd_has_user, ct_eq, ct_loop}
use agent_httpd.Auth.Sessions.{
  buffer_room, segments, filled, lines, scan_line, word_of, drop_last, cookie_loop, cookie_next,
  tokens_loop, session_cookie_tokens, presented, refuses, auth_session_verify, auth_session_create,
  auth_session_delete,
}
use agent_httpd.Auth.Sessions.Words.{IsPlain, IsWord}
use agent_httpd.Auth.Sessions.Table.{entries, entries_of, rendered, keep_if}
use agent_httpd.Auth.Sessions.Cookies.{Cookie, cookie_header, is_cookie_part, IsCookie, tokens_of}
use agent_httpd.Auth.Sessions.Presented.{one_of}
use agent_httpd.Auth.Sessions.Live.{with_new, auth_session_verify-auth_session_create}
use agent_httpd.Auth.Sessions.Last.{last_user, auth_session_verify-last_user}
use agent_httpd.Auth.Sessions.Revoked.{
  left_over, auth_session_verify-revoked, auth_session_verify-kept,
}

abbrev cookie_name : Bytes
cookie_name = codes "lume_session"

abbrev bob_token : Bytes
bob_token = codes "0123456789abcdef0123456789abcdef"

abbrev eve_token : Bytes
eve_token = codes "f0f0f0f0f0f0f0f0f0f0f0f0f0f0f0f0"

abbrev bob_cookie : Bytes
bob_cookie = codes "a=1; lume_session=0123456789abcdef0123456789abcdef"

abbrev eve_cookie : Bytes
eve_cookie = codes "lume_session=f0f0f0f0f0f0f0f0f0f0f0f0f0f0f0f0"

abbrev eve_file : Bytes
eve_file = codes "f0f0f0f0f0f0f0f0f0f0f0f0f0f0f0f0 eve 5000\n"

abbrev users : List Entry
users =
    record { user = codes "bob"; secret = codes "$2b$x"; roles = [] }
    ∷ record { user = codes "eve"; secret = codes "$2b$y"; roles = [] }
    ∷ []

session_cookie_tokens-bob : session_cookie_tokens cookie_name bob_cookie ≡ bob_token ∷ []
unfolding session_cookie_tokens tokens_loop cookie_next cookie_loop before past same drop_while
    drop_last
session_cookie_tokens-bob = refl

session_cookie_tokens-eve : session_cookie_tokens cookie_name eve_cookie ≡ eve_token ∷ []
unfolding session_cookie_tokens tokens_loop cookie_next cookie_loop before past same drop_while
    drop_last
session_cookie_tokens-eve = refl

entries-eve :
    entries eve_file ≡ record { token = eve_token; user = codes "eve"; expiry = codes "5000" } ∷ []
unfolding lines segments filled entries_of scan_line word_of before drop_while
entries-eve = refl

-- A value of another length is passed over; an empty one ends the search.
session_cookie_tokens-short :
    session_cookie_tokens (codes "s") (codes "s=abc; s=0123456789abcdef0123456789abcdef")
    ≡ bob_token ∷ []
unfolding session_cookie_tokens tokens_loop cookie_next cookie_loop before past same drop_while
    drop_last
session_cookie_tokens-short = refl

session_cookie_tokens-empty :
    session_cookie_tokens (codes "s") (codes "s=; s=0123456789abcdef0123456789abcdef") ≡ []
unfolding session_cookie_tokens tokens_loop cookie_next cookie_loop before past same drop_while
    drop_last
session_cookie_tokens-empty = refl

abbrev every : (ℕ → Bool) → Bytes → Bool
every p [] = true
every p (c ∷ s) = p c && every p s

All-every : (p : ℕ → Bool) (s : Bytes) → every p s ≡ true → All (λ c. p c ≡ true) s
All-every p [] h = tt
All-every p (c ∷ s) h =
    (and_left (p c) (every p s) h, All-every p s (and_right (p c) (every p s) h))

abbrev bob_cookies : List Cookie
bob_cookies = (codes "a", codes "1") ∷ (cookie_name, bob_token) ∷ []

abbrev eve_cookies : List Cookie
eve_cookies = (cookie_name, eve_token) ∷ []

cookie_header-bob : cookie_header bob_cookies ≡ bob_cookie
unfolding cookie_header
cookie_header-bob = refl

cookie_header-eve : cookie_header eve_cookies ≡ eve_cookie
unfolding cookie_header
cookie_header-eve = refl

bob_cookies-IsCookie : All (IsCookie cookie_name) bob_cookies
bob_cookies-IsCookie = (
  record {
    name_bytes = All-every (λ c. is_cookie_part c && not (c == b'=')) (codes "a") refl;
    value_bytes = All-every is_cookie_part (codes "1") refl;
    sized = λ q. (omega arith, omega arith);
  },
  (
    record {
      name_bytes = All-every (λ c. is_cookie_part c && not (c == b'=')) cookie_name refl;
      value_bytes = All-every is_cookie_part bob_token refl;
      sized = λ q. (omega arith, omega arith);
    },
    tt,
  ),
)

eve_cookies-IsCookie : All (IsCookie cookie_name) eve_cookies
eve_cookies-IsCookie = (
  record {
    name_bytes = All-every (λ c. is_cookie_part c && not (c == b'=')) cookie_name refl;
    value_bytes = All-every is_cookie_part eve_token refl;
    sized = λ q. (omega arith, omega arith);
  },
  tt,
)

auth_session_verify-last_user_example :
    (auth_session_verify true cookie_name users 1000 (cookie_header eve_cookies) 128 eve_file).0
    ≡ last_user (take 8 (tokens_of cookie_name eve_cookies)) users 1000 (entries eve_file) none
auth_session_verify-last_user_example =
    auth_session_verify-last_user cookie_name users 1000 eve_cookies eve_file eve_cookies-IsCookie

abbrev plain_text : Bytes → Bool
plain_text [] = true
plain_text (c ∷ s) = (not (is_whitespace c) && not (c == 0)) && plain_text s

negated : (b : Bool) → not b ≡ true → b ≡ false
negated true h = sym h
negated false h = refl

All-plain : (s : Bytes) → plain_text s ≡ true → All IsPlain s
All-plain [] h = tt
All-plain (c ∷ s) h =
    let a = and_left (not (is_whitespace c) && not (c == 0)) (plain_text s) h in
    let n = negated (c == 0) (and_right (not (is_whitespace c)) (not (c == 0)) a) in
    (
      (
        negated (is_whitespace c) (and_left (not (is_whitespace c)) (not (c == 0)) a),
        λ z. absurd (ground (arith, n, z)),
      ),
      All-plain s (and_right (not (is_whitespace c) && not (c == 0)) (plain_text s) h),
    )

bob_token-IsWord : IsWord 32 bob_token
bob_token-IsWord = record { filled = refl; short = omega arith; plain = All-plain bob_token refl }

bob-IsWord : IsWord 63 (codes "bob")
bob-IsWord = record { filled = refl; short = omega arith; plain = All-plain (codes "bob") refl }

bob-accepted : refuses (codes "bob") ≡ false
unfolding past
bob-accepted = refl

bob-listed : htpasswd_has_user (codes "bob") users ≡ true
unfolding htpasswd_has_user same
bob-listed = refl

length-with_new :
    length (rendered (with_new 1000 30 bob_token (codes "bob") eve_file)) ≤ buffer_room
unfolding rendered lines segments filled entries_of scan_line word_of before drop_while keep_if
    strtoll skip_space signed convert scan_decimal decimal_loop
length-with_new = omega arith

bob-carried : one_of bob_token (take 8 (tokens_of cookie_name bob_cookies)) ≡ true
unfolding tokens_of same
bob-carried = refl

auth_session_verify-auth_session_create_example :
    ((auth_session_create true users 1000 30 (some bob_token) (codes "bob") eve_file).0
      ≡ some bob_token)
    × ((auth_session_verify true cookie_name users 2000000
          (cookie_header bob_cookies)
          128
          (auth_session_create true users 1000 30 (some bob_token) (codes "bob") eve_file).1).0
        ≡ some (codes "bob"))
auth_session_verify-auth_session_create_example =
    auth_session_verify-auth_session_create cookie_name users users 1000 2000000 30 bob_token
      (codes "bob") eve_file bob_cookies bob_token-IsWord bob-IsWord bob-accepted bob-listed
      bob-listed (omega arith) (omega arith) length-with_new bob_cookies-IsCookie bob-carried

length-tokens_eve : (length (session_cookie_tokens cookie_name eve_cookie) == 0) ≡ false
length-tokens_eve = rw (session_cookie_tokens-eve) refl

length-left_over : length (rendered (left_over cookie_name 1000 eve_cookie eve_file)) ≤ buffer_room
unfolding keep_if rendered presented ct_eq ct_loop strtoll skip_space signed convert scan_decimal
length-left_over = rw (session_cookie_tokens-eve, entries-eve) (omega arith)

tokens_of-eve : 0 < length (tokens_of cookie_name eve_cookies)
unfolding tokens_of same
tokens_of-eve = omega arith

auth_session_verify-revoked_example :
    (auth_session_verify true cookie_name users 2000
      (cookie_header eve_cookies)
      128
      (auth_session_delete true cookie_name 1000 (cookie_header eve_cookies) eve_file).1).0
    ≡ none
auth_session_verify-revoked_example =
    auth_session_verify-revoked cookie_name users 1000 2000 eve_cookies eve_cookies eve_file
      eve_cookies-IsCookie eve_cookies-IsCookie tokens_of-eve
      (subst (λ h. length (rendered (left_over cookie_name 1000 h eve_file)) ≤ buffer_room)
        (sym cookie_header-eve) length-left_over)
      (λ t h. h)

-- Two tokens with another first byte.
ct_loop-false : (a b : Bytes) → ct_loop false a b ≡ false
unfolding ct_loop
ct_loop-false [] b = refl
ct_loop-false (x ∷ a) [] = refl
ct_loop-false (x ∷ a) (y ∷ b) = ct_loop-false a b

first_byte :
    (e : Bool) (t b : Bytes) (x y : ℕ) → (x == y) ≡ false → ct_loop e (x ∷ t) (y ∷ b) ≡ false
unfolding ct_loop
first_byte e t b x y h = elim (Bool-cases e) [
  | inl q ↦ rw (q, h) (ct_loop-false t b)
  | inr q ↦ rw (q) (ct_loop-false t b)
]

other_token :
    (t : Bytes) → presented t (bob_token ∷ []) ≡ true → presented t (eve_token ∷ []) ≡ false
unfolding presented ct_eq ct_loop
other_token [] h = refl
other_token (c ∷ t) h = elim (Bool-cases (c == b'f')) [
  | inl e ↦
      let n : (c == b'0') ≡ false = ground (arith, e) in
      let z : presented (c ∷ t) (bob_token ∷ []) ≡ false =
        rw
          (
            first_byte (length (c ∷ t) % 2 ^ 32 == 32) t (codes "123456789abcdef0123456789abcdef") c
                b'0' n,
            if◌then◌else◌,
          )
          refl in
      absurd (cc)
  | inr e ↦
      rw
        (
          first_byte (length (c ∷ t) % 2 ^ 32 == 32) t (codes "0f0f0f0f0f0f0f0f0f0f0f0f0f0f0f0") c
              b'f' e,
          if◌then◌else◌,
        )
        refl
]

bob_not_eve :
    (t : Bytes)
    → presented t (session_cookie_tokens cookie_name bob_cookie) ≡ true
    → presented t (session_cookie_tokens cookie_name eve_cookie) ≡ false
bob_not_eve t h =
    ap (presented t) session_cookie_tokens-eve
    ∙ other_token t (ap (presented t) (sym session_cookie_tokens-bob) ∙ h)

auth_session_verify-kept_example :
    (auth_session_verify true cookie_name users 2000 bob_cookie 128
      (auth_session_delete true cookie_name 1000 eve_cookie eve_file).1).0
    ≡ (auth_session_verify true cookie_name users 2000 bob_cookie 128 eve_file).0
auth_session_verify-kept_example =
    auth_session_verify-kept cookie_name users 1000 2000 eve_cookie bob_cookie eve_file
      length-tokens_eve length-left_over (omega arith) bob_not_eve
