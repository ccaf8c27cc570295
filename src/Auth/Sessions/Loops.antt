-- ===== src/Auth/Sessions/Loops.antt =====
-- The loops of src/security/auth.c over the lines of the session file, as functions of the sessions.
use agent_httpd.Base.{
  ℕ, ◌+◌, ◌≤◌, Bool, true, false, not, ◌&&◌, Option, some, List, [], ◌∷◌, ◌++◌, length,
  if◌then◌else◌, Bytes, ◌≡◌, inl, inr, refl, sym, ap, ◌∙◌, arith, Bool-cases, Option-cases,
  length-append, append_assoc, append-nil, take_all,
}
use agent_httpd.Text.{set_str}
use agent_httpd.Auth.{Entry, htpasswd_has_user}
use agent_httpd.Auth.Sessions.{
  buffer_room, Session, scan_line, is_live, printed, add_line, presented, Scan, verify_loop,
  create_loop, delete_loop,
}
use agent_httpd.Auth.Sessions.Table.{entries_of, rendered, keep_if}

-- Lines added one after the other.
unfoldable pub fill : Bytes → List Session → Bytes
fill keep [] = keep
fill keep (e ∷ es) = fill (add_line keep e) es

pub fill-rendered :
    (keep : Bytes) (es : List Session)
    → length keep + length (rendered es) ≤ buffer_room
    → fill keep es ≡ keep ++ rendered es
unfolding fill rendered
fill-rendered keep [] h = sym (append-nil keep)
fill-rendered keep (e ∷ es) h =
    let n = length-append (printed e) (rendered es) in
    let m = length-append keep (printed e) in
    let q : add_line keep e ≡ keep ++ printed e =
      take_all buffer_room (keep ++ printed e) (omega (arith, h, n, m)) in
    ap (λ k. fill k es) q
    ∙ fill-rendered (keep ++ printed e) es (omega (arith, h, n, m))
    ∙ append_assoc keep (printed e) (rendered es)

pub rendered-append : (xs ys : List Session) → rendered (xs ++ ys) ≡ rendered xs ++ rendered ys
unfolding rendered
rendered-append [] ys = refl
rendered-append (e ∷ xs) ys =
    ap (λ t. printed e ++ t) (rendered-append xs ys)
    ∙ sym (append_assoc (printed e) (rendered xs) (rendered ys))

pub create_loop-fill :
    (now : ℕ) (ls : List Bytes) (keep : Bytes)
    → create_loop now ls keep ≡ fill keep (keep_if (is_live now) (entries_of ls))
unfolding create_loop fill keep_if entries_of
create_loop-fill now [] keep = refl
create_loop-fill now (l ∷ ls) keep = elim (Option-cases (scan_line l)) [
  | inl e ↦ rw (create_loop, entries_of, e) (create_loop-fill now ls keep)
  | inr (s, e) ↦ elim (Bool-cases (is_live now s)) [
    | inl q ↦
        rw (create_loop, entries_of, e, keep_if, q, if◌then◌else◌)
          (create_loop-fill now ls (add_line keep s))
    | inr q ↦
        rw (create_loop, entries_of, e, keep_if, q, if◌then◌else◌) (create_loop-fill now ls keep)
  ]
]

-- What a logout keeps.
abbrev pub outlives : ℕ → List Bytes → Session → Bool
outlives now toks e = if is_live now e then not (presented e.token toks) else false

pub delete_loop-fill :
    (now : ℕ) (toks ls : List Bytes) (r : Bytes × Bool)
    → (delete_loop now toks ls r).0 ≡ fill r.0 (keep_if (outlives now toks) (entries_of ls))
unfolding delete_loop fill keep_if entries_of
delete_loop-fill now toks [] r = refl
delete_loop-fill now toks (l ∷ ls) r = elim (Option-cases (scan_line l)) [
  | inl e ↦ rw (delete_loop, entries_of, e) (delete_loop-fill now toks ls r)
  | inr (s, e) ↦ elim (Bool-cases (is_live now s)) [
    | inl q ↦ elim (Bool-cases (presented s.token toks)) [
      | inl p ↦
          rw (delete_loop, entries_of, e, keep_if, q, p, if◌then◌else◌)
            (delete_loop-fill now toks ls (r.0, true))
      | inr p ↦
          rw (delete_loop, entries_of, e, keep_if, q, p, if◌then◌else◌)
            (delete_loop-fill now toks ls (add_line r.0 s, r.1))
    ]
    | inr q ↦
        rw (delete_loop, entries_of, e, keep_if, q, if◌then◌else◌) (delete_loop-fill now toks ls r)
  ]
]

-- Who is let in: the user of the last session that is presented.
abbrev pub newer : List Bytes → ℕ → Session → Option Bytes → Option Bytes
newer toks out_size e o = if presented e.token toks then some (set_str out_size e.user) else o

unfoldable pub newest : List Bytes → ℕ → List Session → Option Bytes → Option Bytes
newest toks out_size [] o = o
newest toks out_size (e ∷ es) o = newest toks out_size es (newer toks out_size e o)

-- What verification takes for a session.
abbrev pub counts : ℕ → List Entry → Session → Bool
counts now users e = is_live now e && htpasswd_has_user e.user users

module _ (now : ℕ) (users : List Entry) (toks : List Bytes) (out_size : ℕ) where
  pub verify_loop-newest :
      (ls : List Bytes) (r : Scan)
      → (verify_loop now users toks out_size ls r).found
        ≡ newest toks out_size (keep_if (counts now users) (entries_of ls)) r.found
  unfolding verify_loop newest keep_if entries_of
  verify_loop-newest [] r = refl
  verify_loop-newest (l ∷ ls) r = elim (Option-cases (scan_line l)) [
    | inl e ↦ rw (verify_loop, entries_of, e) (verify_loop-newest ls (record r { dropped = true }))
    | inr (s, e) ↦ elim (Bool-cases (counts now users s)) [
      | inl q ↦
          rw (verify_loop, entries_of, e, keep_if, q, if◌then◌else◌)
            (verify_loop-newest ls
              (record r { keep = add_line r.keep s; found = newer toks out_size s r.found }))
      | inr q ↦
          rw (verify_loop, entries_of, e, keep_if, q, if◌then◌else◌)
            (verify_loop-newest ls (record r { dropped = true }))
    ]
  ]
