-- ===== src/Auth/Sessions/Last.antt =====
-- Which session of the file `auth_session_verify` of src/security/auth.c takes.
use agent_httpd.Base.{
  ℕ, ◌≤◌, true, ◌&&◌, Option, none, some, List, [], ◌∷◌, length, if◌then◌else◌, Bytes, All, ◌≡◌,
  inl, inr, refl, ap, ◌∙◌, arith, Bool-cases, take_all, take,
}
use agent_httpd.Text.{set_str}
use agent_httpd.Auth.{Entry, htpasswd_has_user}
use agent_httpd.Auth.Sessions.{Session, is_live, presented, auth_session_verify}
use agent_httpd.Auth.Sessions.Words.{IsSession}
use agent_httpd.Auth.Sessions.Table.{entries, keep_if, entries-IsSession}
use agent_httpd.Auth.Sessions.Loops.{newest, counts}
use agent_httpd.Auth.Sessions.Cookies.{Cookie, cookie_header, IsCookie, tokens_of}
use agent_httpd.Auth.Sessions.Collected.{session_cookie_tokens-cookie_header}
use agent_httpd.Auth.Sessions.Presented.{one_of, presented-one_of, carried, carried-IsToken}
use agent_httpd.Auth.Sessions.Live.{auth_session_verify-let_in}

-- The user of the last session that is one of the tokens, has not expired and is of a listed user.
abbrev pub last_user : List Bytes → List Entry → ℕ → List Session → Option Bytes → Option Bytes
last_user toks users now [] o = o
last_user toks users now (e ∷ es) o = last_user toks users now es (
    if one_of e.token toks && (is_live now e && htpasswd_has_user e.user users)
    then some e.user
    else o)

newest-last_user :
    (toks : List Bytes) (users : List Entry) (now : ℕ) (es : List Session) (o : Option Bytes)
    → ((t : Bytes) → length t ≤ 32 → presented t toks ≡ one_of t toks)
    → All IsSession es
    → newest toks 128 (keep_if (counts now users) es) o ≡ last_user toks users now es o
unfolding newest keep_if
newest-last_user toks users now [] o f h = refl
newest-last_user toks users now (e ∷ es) o f (h, hs) =
    let short : set_str 128 e.user ≡ e.user = take_all 127 e.user (omega (arith, h.user.short)) in
    let p = f e.token h.token.short in
    elim (Bool-cases (counts now users e)) [
      | inl q ↦ elim (Bool-cases (one_of e.token toks)) [
        | inl r ↦
            rw (keep_if, q, if◌then◌else◌, newest, p, r, ◌&&◌, short)
              (newest-last_user toks users now es (some e.user) f hs)
        | inr r ↦
            rw (keep_if, q, if◌then◌else◌, newest, p, r, ◌&&◌)
              (newest-last_user toks users now es o f hs)
      ]
      | inr q ↦ elim (Bool-cases (one_of e.token toks)) [
        | inl r ↦
            rw (keep_if, q, if◌then◌else◌, r, ◌&&◌) (newest-last_user toks users now es o f hs)
        | inr r ↦
            rw (keep_if, q, if◌then◌else◌, r, ◌&&◌) (newest-last_user toks users now es o f hs)
      ]
    ]

-- Who is let in. For a request with any cookies, whose values have none of the bytes that are trimmed
-- and, under the session's name, 1 to 32 bytes: the user of the last session in the file whose token is
-- among the first eight values of 32 bytes under that name, that has not expired and whose user is
-- listed; nobody where there is none.
pub auth_session_verify-last_user :
    (name : Bytes) (users : List Entry) (now : ℕ) (cs : List Cookie) (file : Bytes)
    → All (IsCookie name) cs
    → (auth_session_verify true name users now (cookie_header cs) 128 file).0
      ≡ last_user (take 8 (tokens_of name cs)) users now (entries file) none
auth_session_verify-last_user name users now cs file h =
    auth_session_verify-let_in name users now (cookie_header cs) file
    ∙ ap (λ toks. newest toks 128 (keep_if (counts now users) (entries file)) none)
        (session_cookie_tokens-cookie_header name cs h)
    ∙ newest-last_user (carried name cs) users now (entries file) none
        (λ t l. presented-one_of t (carried name cs) l (carried-IsToken name cs))
        (entries-IsSession file)
