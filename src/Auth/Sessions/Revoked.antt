-- ===== src/Auth/Sessions/Revoked.antt =====
-- Logout and verification together, src/security/auth.c.
use agent_httpd.Base.{
  ℕ, ◌≤◌, ◌<◌, take, Bool, true, false, not, ◌&&◌, Option, none, some, List, [], ◌∷◌, length, ◌==◌,
  if◌then◌else◌, Bytes, All, ◌≡◌, inl, inr, refl, sym, ap, ◌∙◌, arith, Bool-cases,
}
use agent_httpd.Range.{strtoll}
use agent_httpd.Auth.{Entry, htpasswd_has_user}
use agent_httpd.Auth.Sessions.{
  buffer_room, Session, session_cookie_tokens, lines, is_after, is_live, presented,
  auth_session_verify, auth_session_delete,
}
use agent_httpd.Auth.Sessions.Words.{IsSession}
use agent_httpd.Auth.Sessions.Table.{
  entries, rendered, keep_if, entries-rendered, entries-IsSession, keep_if-IsSession,
}
use agent_httpd.Auth.Sessions.Loops.{
  fill-rendered, outlives, delete_loop-fill, newer, newest, counts,
}
use agent_httpd.Auth.Sessions.Cookies.{Cookie, cookie_header, IsCookie, tokens_of}
use agent_httpd.Auth.Sessions.Collected.{session_cookie_tokens-cookie_header}
use agent_httpd.Auth.Sessions.Presented.{one_of, presented-one_of, carried, carried-IsToken}
use agent_httpd.Auth.Sessions.Live.{let_in, auth_session_verify-let_in}

-- What is live later is live now.
is_after_earlier :
    (o : Option (Bool × ℕ × Bytes)) (now later : ℕ)
    → now ≤ later
    → is_after o now ≡ false
    → is_after o later ≡ false
is_after_earlier none now later h e = refl
is_after_earlier (some (neg, n, rest)) now later h e = ground (arith, h, e)

both : (b : Bool) → b ≡ true → b ≡ false → ⊥
both true p q = cc
both false p q = cc

not_true : (b : Bool) → (b ≡ true → ⊥) → b ≡ false
not_true true h = absurd (h refl)
not_true false h = refl

apart : (a b : Bool) → (if a then not b else false) ≡ true → b ≡ true → ⊥
apart true true p q = cc
apart true false p q = cc
apart false b p q = cc

-- The sessions that a logout leaves in the file.
abbrev pub left_over : Bytes → ℕ → Bytes → Bytes → List Session
left_over name now header file =
    keep_if (outlives now (session_cookie_tokens name header)) (entries file)

module _ (name : Bytes) (now : ℕ) (header file : Bytes) where
  -- The sessions in the file behind a logout that presented some token, where the file fits the buffer.
  pub entries-auth_session_delete :
      (length (session_cookie_tokens name header) == 0) ≡ false
      → length (rendered (left_over name now header file)) ≤ buffer_room
      → entries (auth_session_delete true name now header file).1 ≡ left_over name now header file
  unfolding auth_session_delete
  entries-auth_session_delete f k =
      let es = left_over name now header file in
      let toks = session_cookie_tokens name header in
      let written =
        delete_loop-fill now toks (lines file) ([], false)
        ∙ fill-rendered [] es (omega (arith, k)) in
      let all : All IsSession es =
        keep_if-IsSession (outlives now toks) (entries file) (entries-IsSession file) in
      rw (f, if◌then◌else◌) (ap entries written ∙ entries-rendered es all k)

take_some : (ts : List Bytes) → 0 < length ts → (length (take 8 ts) == 0) ≡ false
take_some [] h = absurd (omega arith)
take_some (t ∷ ts) h = ground arith

-- Nobody is let in by sessions of which none is presented.
newest-revoked :
    (now : ℕ) (toks later_toks : List Bytes) (p : Session → Bool) (es : List Session)
    (o : Option Bytes)
    → ((t : Bytes) → length t ≤ 32 → presented t later_toks ≡ true → presented t toks ≡ true)
    → All IsSession es
    → newest later_toks 128 (keep_if p (keep_if (outlives now toks) es)) o ≡ o
unfolding newest keep_if
newest-revoked now toks later_toks p [] o h w = refl
newest-revoked now toks later_toks p (e ∷ es) o h (w, ws) =
    elim (Bool-cases (outlives now toks e)) [
      | inr q ↦ rw (keep_if, q, if◌then◌else◌) (newest-revoked now toks later_toks p es o h ws)
      | inl q ↦ elim (Bool-cases (p e)) [
        | inr r ↦ rw (keep_if, q, if◌then◌else◌, r) (newest-revoked now toks later_toks p es o h ws)
        | inl r ↦
            let absent : presented e.token later_toks ≡ false =
              not_true (presented e.token later_toks) (λ t.
                apart (is_live now e) (presented e.token toks) q (h e.token w.token.short t)) in
            rw (keep_if, q, if◌then◌else◌, r, newest, absent)
              (newest-revoked now toks later_toks p es o h ws)
      ]
    ]

-- The sessions that were not presented count as before.
newest-kept :
    (now later : ℕ) (users : List Entry) (toks later_toks : List Bytes) (es : List Session)
    (o : Option Bytes)
    → now ≤ later
    → ((t : Bytes) → presented t later_toks ≡ true → presented t toks ≡ false)
    → newest later_toks 128 (keep_if (counts later users) (keep_if (outlives now toks) es)) o
      ≡ newest later_toks 128 (keep_if (counts later users) es) o
unfolding newest keep_if
newest-kept now later users toks later_toks [] o l h = refl
newest-kept now later users toks later_toks (e ∷ es) o l h = elim (Bool-cases (is_live now e)) [
  | inr q ↦
      let z : counts later users e ≡ false =
        ap (λ x. x && htpasswd_has_user e.user users)
          (is_after_earlier (strtoll e.expiry) now later l q) in
      rw (keep_if, q, if◌then◌else◌, z) (newest-kept now later users toks later_toks es o l h)
  | inl q ↦ elim (Bool-cases (presented e.token toks)) [
    | inr p ↦ elim (Bool-cases (counts later users e)) [
      | inl r ↦
          rw (keep_if, q, p, if◌then◌else◌, r, newest)
            (newest-kept now later users toks later_toks es (newer later_toks 128 e o) l h)
      | inr r ↦
          rw (keep_if, q, p, if◌then◌else◌, r)
            (newest-kept now later users toks later_toks es o l h)
    ]
    | inl p ↦
        let absent : presented e.token later_toks ≡ false =
          not_true (presented e.token later_toks)
            (λ t. both (presented e.token toks) p (h e.token t)) in
        elim (Bool-cases (counts later users e)) [
          | inl r ↦
              rw (keep_if, q, p, if◌then◌else◌, r, newest, absent)
                (newest-kept now later users toks later_toks es o l h)
          | inr r ↦
              rw (keep_if, q, p, if◌then◌else◌, r)
                (newest-kept now later users toks later_toks es o l h)
        ]
  ]
]

-- A logout ends every session it presents. For a logout and a later request, each with any cookies whose
-- values have none of the bytes that are trimmed and, under the session's name, 1 to 32 bytes: if the
-- logout has a value of 32 bytes under that name, what it leaves fits the buffer, and the first eight such
-- values of the request are among the first eight of the logout, then the request is not let in, at any
-- time and whatever the table of users.
pub auth_session_verify-revoked :
    (name : Bytes) (users : List Entry) (now later : ℕ) (cs later_cs : List Cookie) (file : Bytes)
    → All (IsCookie name) cs
    → All (IsCookie name) later_cs
    → 0 < length (tokens_of name cs)
    → length (rendered (left_over name now (cookie_header cs) file)) ≤ buffer_room
    → ((t : Bytes)
        → one_of t (take 8 (tokens_of name later_cs)) ≡ true
        → one_of t (take 8 (tokens_of name cs)) ≡ true)
    → (auth_session_verify true name users later
        (cookie_header later_cs)
        128
        (auth_session_delete true name now (cookie_header cs) file).1).0
      ≡ none
auth_session_verify-revoked name users now later cs later_cs file c d f k h =
    let header = cookie_header cs in
    let later_header = cookie_header later_cs in
    let toks = session_cookie_tokens-cookie_header name cs c in
    let later_toks = session_cookie_tokens-cookie_header name later_cs d in
    let as_text : (t : Bytes)
        → length t ≤ 32
        → presented t (session_cookie_tokens name later_header) ≡ true
        → presented t (session_cookie_tokens name header) ≡ true =
      λ t l p.
        ap (presented t) toks
        ∙ presented-one_of t (carried name cs) l (carried-IsToken name cs)
        ∙ h t (
            sym (presented-one_of t (carried name later_cs) l (carried-IsToken name later_cs))
            ∙ ap (presented t) (sym later_toks)
            ∙ p) in
    let some_token : (length (session_cookie_tokens name header) == 0) ≡ false =
      ap (λ ts. length ts == 0) toks ∙ take_some (tokens_of name cs) f in
    auth_session_verify-let_in name users later later_header
      (auth_session_delete true name now header file).1
    ∙ ap (let_in name users later later_header)
        (entries-auth_session_delete name now header file some_token k)
    ∙ newest-revoked now (session_cookie_tokens name header)
        (session_cookie_tokens name later_header) (counts later users) (entries file) none as_text
        (entries-IsSession file)

-- Whoever presents only tokens that a logout did not, at that time or later, is answered as without the
-- logout, where the file fits the buffer.
pub auth_session_verify-kept :
    (name : Bytes) (users : List Entry) (now later : ℕ) (header later_header file : Bytes)
    → (length (session_cookie_tokens name header) == 0) ≡ false
    → length (rendered (left_over name now header file)) ≤ buffer_room
    → now ≤ later
    → ((t : Bytes)
        → presented t (session_cookie_tokens name later_header) ≡ true
        → presented t (session_cookie_tokens name header) ≡ false)
    → (auth_session_verify true name users later later_header 128
        (auth_session_delete true name now header file).1).0
      ≡ (auth_session_verify true name users later later_header 128 file).0
auth_session_verify-kept name users now later header later_header file f k l h =
    auth_session_verify-let_in name users later later_header
      (auth_session_delete true name now header file).1
    ∙ ap (let_in name users later later_header)
        (entries-auth_session_delete name now header file f k)
    ∙ newest-kept now later users (session_cookie_tokens name header)
        (session_cookie_tokens name later_header) (entries file) none l h
    ∙ sym (auth_session_verify-let_in name users later later_header file)
