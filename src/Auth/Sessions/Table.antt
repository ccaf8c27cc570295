-- ===== src/Auth/Sessions/Table.antt =====
-- The session file of src/security/auth.c as a list of sessions.
use agent_httpd.Base.{
  ℕ, ◌≤◌, Bool, false, none, some, List, [], ◌∷◌, ◌++◌, length, take, ◌==◌, if◌then◌else◌, Bytes,
  All, All-append, LacksNul, before-LacksNul, LacksNul-before, before, ◌≡◌, ◌≢◌, inl, inr, refl,
  sym, ap, ◌∙◌, arith, Bool-cases, Option-cases, append_assoc, take_all,
}
use agent_httpd.Auth.Sessions.{
  buffer_room, Session, cons_first, segments, filled, session_lock_read, lines, scan_line, printed,
}
use agent_httpd.Auth.Sessions.Words.{
  IsPlain, IsSession, line_of, scan_line-line_of, scan_line-IsSession,
}

-- The sessions among the lines, and those of a file.
unfoldable pub entries_of : List Bytes → List Session
entries_of [] = []
entries_of (l ∷ ls) = elim (scan_line l) [ none ↦ entries_of ls | some e ↦ e ∷ entries_of ls ]

abbrev pub entries : Bytes → List Session
entries file = entries_of (lines file)

-- The file that holds sessions.
unfoldable pub rendered : List Session → Bytes
rendered [] = []
rendered (e ∷ es) = printed e ++ rendered es

unfoldable pub keep_if : (Session → Bool) → List Session → List Session
keep_if p [] = []
keep_if p (e ∷ es) = if p e then e ∷ keep_if p es else keep_if p es

rendered_line : (e : Session) (s : Bytes) → printed e ++ s ≡ line_of e ++ (b'\n' ∷ s)
rendered_line e s =
    let tail = b'\n' ∷ [] in
    let expiry = e.expiry ++ tail in
    let left =
      append_assoc e.token (b' ' ∷ (e.user ++ (b' ' ∷ expiry))) s
      ∙ ap (λ t. e.token ++ (b' ' ∷ t))
          (append_assoc e.user (b' ' ∷ expiry) s
            ∙ ap (λ t. e.user ++ (b' ' ∷ t)) (append_assoc e.expiry tail s)) in
    let right =
      append_assoc e.token (b' ' ∷ (e.user ++ (b' ' ∷ e.expiry))) (b'\n' ∷ s)
      ∙ ap (λ t. e.token ++ (b' ' ∷ t)) (append_assoc e.user (b' ' ∷ e.expiry) (b'\n' ∷ s)) in
    left ∙ sym right

-- What a line holds.
abbrev IsInLine : ℕ → Type 0
IsInLine c = (c ≢ b'\n') × (c ≢ 0)

plain-IsInLine : (s : Bytes) → All IsPlain s → All IsInLine s
plain-IsInLine [] h = tt
plain-IsInLine (c ∷ s) ((b, z), hs) =
    (((λ e. absurd (ground (arith, e, b))), z), plain-IsInLine s hs)

line_of-IsInLine : (e : Session) → IsSession e → All IsInLine (line_of e)
line_of-IsInLine e h =
    let space : IsInLine b' ' = ((λ q. omega (arith, q)), (λ q. omega (arith, q))) in
    All-append IsInLine e.token (b' ' ∷ (e.user ++ (b' ' ∷ e.expiry)))
      (plain-IsInLine e.token h.token.plain)
      (
        space,
        All-append IsInLine e.user (b' ' ∷ e.expiry) (plain-IsInLine e.user h.user.plain)
            (space, plain-IsInLine e.expiry h.expiry.plain),
      )

in_line-LacksNul : (s : Bytes) → All IsInLine s → LacksNul s
in_line-LacksNul [] h = tt
in_line-LacksNul (c ∷ s) ((a, z), hs) = (z, in_line-LacksNul s hs)

segments_line : (l s : Bytes) → All IsInLine l → segments (l ++ (b'\n' ∷ s)) ≡ l ∷ segments s
unfolding segments
segments_line [] s h = refl
segments_line (c ∷ l) s ((a, z), hs) =
    let n : (c == b'\n') ≡ false = ground arith in
    rw (segments, n, if◌then◌else◌) (ap (cons_first c) (segments_line l s hs))

filled_cons :
    (t s : Bytes) (ls : List Bytes)
    → filled ((t ++ (b' ' ∷ s)) ∷ ls) ≡ (t ++ (b' ' ∷ s)) ∷ filled ls
unfolding filled
filled_cons [] s ls = refl
filled_cons (c ∷ t) s ls = refl

filled_line : (e : Session) (ls : List Bytes) → filled (line_of e ∷ ls) ≡ line_of e ∷ filled ls
filled_line e ls = filled_cons e.token (e.user ++ (b' ' ∷ e.expiry)) ls

entries_of-rendered :
    (es : List Session) → All IsSession es → entries_of (filled (segments (rendered es))) ≡ es
unfolding entries_of filled segments rendered
entries_of-rendered [] h = refl
entries_of-rendered (e ∷ es) (h, hs) =
    rw
      (
        rendered_line e (rendered es),
        segments_line (line_of e) (rendered es) (line_of-IsInLine e h),
        filled_line e (segments (rendered es)),
        entries_of,
        scan_line-line_of e h,
      )
      (ap (◌∷◌ e) (entries_of-rendered es hs))

rendered-LacksNul : (es : List Session) → All IsSession es → LacksNul (rendered es)
unfolding rendered
rendered-LacksNul [] h = tt
rendered-LacksNul (e ∷ es) (h, hs) = rw (rendered_line e (rendered es)) (
    All-append (λ c. c ≢ 0) (line_of e) (b'\n' ∷ rendered es)
      (in_line-LacksNul (line_of e) (line_of-IsInLine e h))
      ((λ q. omega (arith, q)), rendered-LacksNul es hs))

-- What is written is read back, where the buffers hold it.
pub entries-rendered :
    (es : List Session)
    → All IsSession es
    → length (rendered es) ≤ buffer_room
    → entries (rendered es) ≡ es
unfolding lines
entries-rendered es h k =
    ap (λ s. entries_of (filled (segments s)))
      (ap (before 0) (take_all buffer_room (rendered es) k)
        ∙ before-LacksNul (rendered es) (rendered-LacksNul es h))
    ∙ entries_of-rendered es h

-- What is read are sessions that a line can hold.
cons_first-LacksNul :
    (c : ℕ) (ls : List Bytes) → c ≢ 0 → All LacksNul ls → All LacksNul (cons_first c ls)
cons_first-LacksNul c [] z h = ((z, tt), tt)
cons_first-LacksNul c (l ∷ ls) z (h, hs) = ((z, h), hs)

segments-LacksNul : (s : Bytes) → LacksNul s → All LacksNul (segments s)
unfolding segments
segments-LacksNul [] h = (tt, tt)
segments-LacksNul (c ∷ s) (z, hs) = elim (Bool-cases (c == b'\n')) [
  | inl e ↦ rw (segments, e, if◌then◌else◌) (tt, segments-LacksNul s hs)
  | inr e ↦
      rw (segments, e, if◌then◌else◌)
        (cons_first-LacksNul c (segments s) z (segments-LacksNul s hs))
]

filled-LacksNul : (ls : List Bytes) → All LacksNul ls → All LacksNul (filled ls)
unfolding filled
filled-LacksNul [] h = tt
filled-LacksNul ([] ∷ ls) (h, hs) = filled-LacksNul ls hs
filled-LacksNul ((c ∷ l) ∷ ls) (h, hs) = (h, filled-LacksNul ls hs)

entries_of-IsSession : (ls : List Bytes) → All LacksNul ls → All IsSession (entries_of ls)
unfolding entries_of
entries_of-IsSession [] h = tt
entries_of-IsSession (l ∷ ls) (h, hs) = elim (Option-cases (scan_line l)) [
  | inl e ↦ rw (entries_of, e) (entries_of-IsSession ls hs)
  | inr (s, e) ↦ rw (entries_of, e) (scan_line-IsSession l s h e, entries_of-IsSession ls hs)
]

pub entries-IsSession : (file : Bytes) → All IsSession (entries file)
unfolding lines
entries-IsSession file =
    let text = session_lock_read file in
    entries_of-IsSession (lines file) (
      filled-LacksNul (segments text)
        (segments-LacksNul text (LacksNul-before (take buffer_room file))))

pub keep_if-IsSession :
    (p : Session → Bool) (es : List Session) → All IsSession es → All IsSession (keep_if p es)
unfolding keep_if
keep_if-IsSession p [] h = tt
keep_if-IsSession p (e ∷ es) (h, hs) = elim (Bool-cases (p e)) [
  | inl q ↦ rw (keep_if, q, if◌then◌else◌) (h, keep_if-IsSession p es hs)
  | inr q ↦ rw (keep_if, q, if◌then◌else◌) (keep_if-IsSession p es hs)
]
