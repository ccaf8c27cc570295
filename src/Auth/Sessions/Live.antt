-- ===== src/Auth/Sessions/Live.antt =====
-- Login and verification together, src/security/auth.c.
use agent_httpd.Base.{
  ℕ, ◌+◌, ◌*◌, ◌≤◌, ◌<◌, Bool, true, false, ◌&&◌, Option, none, some, List, [], ◌∷◌, ◌++◌, length,
  ltb, ◌==◌, if◌then◌else◌, Bytes, All, All-append, ◌≡◌, inl, inr, refl, sym, ap, subst, ◌∙◌, arith,
  Bool-cases, length-append, append-nil, take_all, take,
}
use agent_httpd.Text.{set_str}
use agent_httpd.Auth.{Entry, htpasswd_has_user}
use agent_httpd.Auth.Sessions.{
  buffer_room, Session, session_cookie_tokens, lines, is_after, is_live, printed, add_line,
  presented, create_loop, refuses, minted, auth_session_verify, auth_session_create,
}
use agent_httpd.Auth.Sessions.Words.{IsWord, IsSession}
use agent_httpd.Auth.Sessions.Table.{
  entries, rendered, keep_if, entries-rendered, entries-IsSession, keep_if-IsSession,
}
use agent_httpd.Auth.Sessions.Loops.{
  fill-rendered, rendered-append, create_loop-fill, newer, newest, counts, verify_loop-newest,
}
use agent_httpd.Auth.Sessions.Cookies.{Cookie, cookie_header, IsCookie, tokens_of}
use agent_httpd.Auth.Sessions.Collected.{session_cookie_tokens-cookie_header}
use agent_httpd.Auth.Sessions.Presented.{one_of, presented-one_of, carried, carried-IsToken}
use agent_httpd.Auth.Sessions.Expiry.{strtoll-decimal, decimal-IsWord}

-- Who is let in, by the sessions in the file.
abbrev pub let_in : Bytes → List Entry → ℕ → Bytes → List Session → Option Bytes
let_in name users now header es =
    newest (session_cookie_tokens name header) 128 (keep_if (counts now users) es) none

no_tokens : (out_size : ℕ) (es : List Session) (o : Option Bytes) → newest [] out_size es o ≡ o
unfolding newest presented
no_tokens out_size [] o = refl
no_tokens out_size (e ∷ es) o = no_tokens out_size es o

-- The newest session of those presented, as the loop sees them.
pub auth_session_verify-let_in :
    (name : Bytes) (users : List Entry) (now : ℕ) (header file : Bytes)
    → (auth_session_verify true name users now header 128 file).0
      ≡ let_in name users now header (entries file)
unfolding auth_session_verify
auth_session_verify-let_in name users now header file =
    let toks = session_cookie_tokens name header in
    elim (Bool-cases (length toks == 0)) [
      | inl e ↦
          let q : toks ≡ [] = empty toks e in
          rw (e, if◌then◌else◌)
            (sym (
              ap (λ ts. newest ts 128 (keep_if (counts now users) (entries file)) none) q
              ∙ no_tokens 128 (keep_if (counts now users) (entries file)) none))
      | inr e ↦
          rw (e, if◌then◌else◌)
            (verify_loop-newest now users toks 128 (lines file)
              (record { keep = []; dropped = false; found = none }))
    ]
  where
    empty : (ts : List Bytes) → (length ts == 0) ≡ true → ts ≡ []
    empty [] e = refl
    empty (t ∷ ts) e = absurd (ground arith)

-- The sessions in the file that a login leaves: those that have not expired, and the new one.
abbrev pub with_new : ℕ → ℕ → Bytes → Bytes → Bytes → List Session
with_new now ttl_days token user file =
    keep_if (is_live now) (entries file) ++ (minted now ttl_days token user ∷ [])

minted-IsSession :
    (now ttl_days : ℕ) (token user : Bytes)
    → IsWord 32 token
    → IsWord 63 user
    → now + ttl_days * 86400 < 10000000000
    → IsSession (minted now ttl_days token user)
minted-IsSession now ttl_days token user t u h = record {
  token = t;
  user = record { filled = u.filled; short = omega (arith, u.short); plain = u.plain };
  expiry = decimal-IsWord (now + ttl_days * 86400) h;
}

-- The file that a login writes, where it fits the buffer.
written :
    (now ttl_days : ℕ) (token user file : Bytes)
    → length (rendered (with_new now ttl_days token user file)) ≤ buffer_room
    → add_line (create_loop now (lines file) []) (minted now ttl_days token user)
      ≡ rendered (with_new now ttl_days token user file)
unfolding rendered
written now ttl_days token user file h =
    let es = keep_if (is_live now) (entries file) in
    let m = minted now ttl_days token user in
    let r = rendered-append es (m ∷ []) in
    let n : length (rendered es ++ (printed m ++ [])) ≤ buffer_room =
      subst (λ t. length t ≤ buffer_room) r h in
    let k : length (rendered es) ≤ buffer_room =
      omega (arith, n, length-append (rendered es) (printed m ++ [])) in
    let e = create_loop-fill now (lines file) [] ∙ fill-rendered [] es (omega (arith, k)) in
    let j : length (rendered es ++ printed m) ≤ buffer_room =
      subst (λ t. length (rendered es ++ t) ≤ buffer_room) (append-nil (printed m)) n in
    ap (λ t. add_line t m) e
    ∙ take_all buffer_room (rendered es ++ printed m) j
    ∙ ap (λ t. rendered es ++ t) (sym (append-nil (printed m)))
    ∙ sym r

keep_if-append :
    (p : Session → Bool) (xs ys : List Session)
    → keep_if p (xs ++ ys) ≡ keep_if p xs ++ keep_if p ys
unfolding keep_if
keep_if-append p [] ys = refl
keep_if-append p (e ∷ xs) ys = elim (Bool-cases (p e)) [
  | inl q ↦ rw (keep_if, q, if◌then◌else◌) (ap (◌∷◌ e) (keep_if-append p xs ys))
  | inr q ↦ rw (keep_if, q, if◌then◌else◌) (keep_if-append p xs ys)
]

newest-last :
    (toks : List Bytes) (out_size : ℕ) (es : List Session) (e : Session) (o : Option Bytes)
    → presented e.token toks ≡ true
    → newest toks out_size (es ++ (e ∷ [])) o ≡ some (set_str out_size e.user)
unfolding newest
newest-last toks out_size [] e o h = rw (h, if◌then◌else◌) refl
newest-last toks out_size (x ∷ es) e o h =
    newest-last toks out_size es e (newer toks out_size x o) h

verify_created :
    (name : Bytes) (users later_users : List Entry) (now later ttl_days : ℕ)
    (token user header file : Bytes)
    → IsWord 32 token
    → IsWord 63 user
    → refuses user ≡ false
    → htpasswd_has_user user users ≡ true
    → htpasswd_has_user user later_users ≡ true
    → now + ttl_days * 86400 < 10000000000
    → later < now + ttl_days * 86400
    → length (rendered (with_new now ttl_days token user file)) ≤ buffer_room
    → presented token (session_cookie_tokens name header) ≡ true
    → ((auth_session_create true users now ttl_days (some token) user file).0 ≡ some token)
      × ((auth_session_verify true name later_users later header 128
            (auth_session_create true users now ttl_days (some token) user file).1).0
          ≡ some user)
unfolding auth_session_create keep_if
verify_created name users later_users now later ttl_days token user header file t u r a b h l k p =
    let m = minted now ttl_days token user in
    let es = keep_if (is_live now) (entries file) in
    let toks = session_cookie_tokens name header in
    let all : All IsSession (with_new now ttl_days token user file) =
      All-append IsSession es (m ∷ [])
        (keep_if-IsSession (is_live now) (entries file) (entries-IsSession file))
        (minted-IsSession now ttl_days token user t u h, tt) in
    let back =
      ap entries (written now ttl_days token user file k)
      ∙ entries-rendered (with_new now ttl_days token user file) all k in
    let z : ltb later (now + ttl_days * 86400) ≡ true = ground (arith, l) in
    let live : is_live later m ≡ true =
      ap (λ o. is_after o later) (strtoll-decimal (now + ttl_days * 86400) h) ∙ z in
    let q : counts later later_users m ≡ true =
      ap (λ x. x && htpasswd_has_user user later_users) live ∙ b in
    let last : keep_if (counts later later_users) (m ∷ []) ≡ m ∷ [] = rw (q, if◌then◌else◌) refl in
    let short : set_str 128 user ≡ user = take_all 127 user (omega (arith, u.short)) in
    rw (r, a, if◌then◌else◌)
      (
        refl,
        auth_session_verify-let_in name later_users later header _
            ∙ ap (let_in name later_users later header) back
            ∙ ap (λ xs. newest toks 128 xs none)
                (keep_if-append (counts later later_users) es (m ∷ [])
                  ∙ ap (λ xs. keep_if (counts later later_users) es ++ xs) last)
            ∙ newest-last toks 128 (keep_if (counts later later_users) es) m none p
            ∙ ap some short,
      )

-- A login of a user that the table has, whose name is a word of at most 63 bytes, hands out its token.
-- Where the file fits the buffer, a request with any cookies, whose values have none of the bytes that
-- are trimmed and, under the session's name, 1 to 32 bytes, and which has that token among the first
-- eight values of 32 bytes under that name, is let in as that user before the token expires and while
-- the table has the user.
pub auth_session_verify-auth_session_create :
    (name : Bytes) (users later_users : List Entry) (now later ttl_days : ℕ)
    (token user file : Bytes) (cs : List Cookie)
    → IsWord 32 token
    → IsWord 63 user
    → refuses user ≡ false
    → htpasswd_has_user user users ≡ true
    → htpasswd_has_user user later_users ≡ true
    → now + ttl_days * 86400 < 10000000000
    → later < now + ttl_days * 86400
    → length (rendered (with_new now ttl_days token user file)) ≤ buffer_room
    → All (IsCookie name) cs
    → one_of token (take 8 (tokens_of name cs)) ≡ true
    → ((auth_session_create true users now ttl_days (some token) user file).0 ≡ some token)
      × ((auth_session_verify true name later_users later
            (cookie_header cs)
            128
            (auth_session_create true users now ttl_days (some token) user file).1).0
          ≡ some user)
auth_session_verify-auth_session_create name users later_users now later ttl_days token user file cs
      t u r a b h l k c o =
    verify_created name users later_users now later ttl_days token user (cookie_header cs) file t u
      r a b h l k
      (ap (presented token) (session_cookie_tokens-cookie_header name cs c)
        ∙ presented-one_of token (carried name cs) t.short (carried-IsToken name cs)
        ∙ o)
