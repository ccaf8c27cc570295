-- ===== src/Route/Back.antt =====
-- Where the login form of src/http/http_route.c leads back to.
use agent_httpd.Base.{
  ℕ, Bool, true, false, not, ◌&&◌, ◌||◌, Option, none, some, [], ◌∷◌, ltb, leb, is_some, ◌==◌,
  if◌then◌else◌, and_then_inv, Bytes, codes, past, before, same, ◌≡◌, inl, inr, refl, ap, subst,
  arith, Bool-cases, then_branch, else_branch, eq_of_some,
}
use agent_httpd.LoginLimit.{Table, blocked_for, fail}
use agent_httpd.Route.{
  no_control, starts_slash, is_safe_back, query_of, root, safe_or_root, back_of, form_field, Answer,
  form, locked, no_session, see_other, session, verify, attempt, handle_login,
}

-- A path of this server: one slash in front, not two.
abbrev pub own_path : Bytes → Bool
own_path [] = false
own_path (c ∷ s) = c == b'/' && not (starts_slash s)

-- No byte is a backslash, which browsers read as a slash.
abbrev pub no_backslash : Bytes → Bool
no_backslash [] = true
no_backslash (c ∷ s) = not (c == b'\\') && no_backslash s

-- No byte is below 32 or 127.
abbrev pub printable : Bytes → Bool
printable [] = true
printable (c ∷ s) = leb 32 c && not (c == 127) && printable s

-- A target without control bytes and backslashes that stays on this server.
abbrev pub IsSafe : Bytes → Type 0
IsSafe b = (own_path b ≡ true) × (no_backslash b ≡ true) × (printable b ≡ true)

past-no_backslash : (b : Bytes) → is_some (past b'\\' b) ≡ false → no_backslash b ≡ true
unfolding past
past-no_backslash [] h = refl
past-no_backslash (c ∷ s) h = elim (Bool-cases (c == b'\\')) [
  | inl e ↦ absurd (ground (arith, e, h))
  | inr e ↦ rw (e, not, ◌&&◌) (past-no_backslash s (ground (arith, e, h)))
]

no_control-printable : (b : Bytes) → no_control b ≡ true → printable b ≡ true
unfolding no_control
no_control-printable [] h = refl
no_control-printable (c ∷ s) h =
    let rest = no_control-printable s (ground (arith, h)) in ground (arith, rest, h)

-- The target that an answer carries, if it carries one.
abbrev pub target : Answer → Bytes
target (form m back) = back
target (locked n) = root
target no_session = root
target (see_other token cookie back) = back

root-IsSafe : IsSafe root
root-IsSafe = (refl, refl, refl)

is_safe_back-IsSafe : (b : Bytes) → is_safe_back b ≡ true → IsSafe b
is_safe_back-IsSafe [] h = absurd (cc)
is_safe_back-IsSafe (c ∷ s) h = (
  ground (arith, h),
  past-no_backslash (c ∷ s) (ground (arith, h)),
  no_control-printable (c ∷ s) (ground (arith, h)),
)

safe_or_root-IsSafe : (o : Option Bytes) → IsSafe (safe_or_root o)
safe_or_root-IsSafe none = root-IsSafe
safe_or_root-IsSafe (some b) = elim (Bool-cases (is_safe_back (before 0 b))) [
  | inl e ↦ rw (e, if◌then◌else◌) (is_safe_back-IsSafe (before 0 b) e)
  | inr e ↦ rw (e, if◌then◌else◌) root-IsSafe
]

back_of-IsSafe : (qs : Bytes) → IsSafe (back_of qs)
back_of-IsSafe [] = root-IsSafe
back_of-IsSafe (c ∷ qs) = safe_or_root-IsSafe (form_field (c ∷ qs) (codes "back") 256)

module _ (check : Bytes → Bytes → Bool) (create : Bytes → Option Bytes) where
  session-IsSafe :
      (o : Option Bytes) (cookie back : Bytes)
      → IsSafe back
      → IsSafe (target (session check create o cookie back))
  session-IsSafe none cookie back h = root-IsSafe
  session-IsSafe (some token) cookie back h = h

  same_target :
      {a b : Answer} {t u : Option Table}
      → ◌≡◌ {A = Option (Answer × Option Table)} (some (a, t)) (some (b, u))
      → IsSafe (target a)
      → IsSafe (target b)
  same_target e h = subst (λ x. IsSafe (target x)) (ap (λ x. x.0) (eq_of_some e)) h

  verify-IsSafe :
      (user pass ip cookie back : Bytes) (t t' : Option Table) (later : ℕ) (a : Answer)
      → IsSafe back
      → verify check create user pass ip cookie back t later ≡ some (a, t')
      → IsSafe (target a)
  verify-IsSafe user pass ip cookie back t t' later a h e = elim (Bool-cases (check user pass)) [
    | inl k ↦ same_target (then_branch _ k e) (session-IsSafe (create user) cookie back h)
    | inr k ↦
        let (u, f, g) =
          and_then_inv (fail t user ip later)
            (λ x. some (form (codes "Invalid username or password.") back, x)) (a, t')
            (else_branch _ k e) in
        same_target g h
  ]

  attempt-IsSafe :
      (u p : Option Bytes) (ip cookie back : Bytes) (t t' : Option Table) (now later : ℕ)
      (a : Answer)
      → IsSafe back
      → attempt check create u p ip cookie back t now later ≡ some (a, t')
      → IsSafe (target a)
  attempt-IsSafe none p ip cookie back t t' now later a h e = same_target e h
  attempt-IsSafe (some u) none ip cookie back t t' now later a h e = same_target e h
  attempt-IsSafe (some u) (some p) ip cookie back t t' now later a h e =
      elim (Bool-cases (ltb 0 (blocked_for t (before 0 u) ip now))) [
        | inl k ↦ same_target (then_branch _ k e) root-IsSafe
        | inr k ↦
            verify-IsSafe (before 0 u) (before 0 p) ip cookie back t t' later a h
              (else_branch _ k e)
      ]

  -- The redirect stays here. For every request to the login form, whatever its method, path, body and
  -- cookie, every limiter state, and every answer: the target that a page or a redirect carries begins
  -- with one slash, not two, and has no backslash (which browsers read as a slash), no byte below 32 and
  -- no 127.
  pub handle_login-IsSafe :
      (method path body cookie ip : Bytes) (t t' : Option Table) (now later : ℕ) (a : Answer)
      → handle_login check create method path body cookie ip t now later ≡ some (a, t')
      → (own_path (target a) ≡ true)
        × (no_backslash (target a) ≡ true)
        × (printable (target a) ≡ true)
  unfolding handle_login
  handle_login-IsSafe method path body cookie ip t t' now later a e =
      let back = back_of (query_of (past b'?' path)) in
      let h = back_of-IsSafe (query_of (past b'?' path)) in
      elim (Bool-cases (same method (codes "GET") || same method (codes "HEAD"))) [
        | inl k ↦ same_target (then_branch _ k e) h
        | inr k ↦
            attempt-IsSafe (form_field body (codes "username") 128)
              (form_field body (codes "password") 256) ip cookie back t t' now later a h
              (else_branch _ k e)
      ]
