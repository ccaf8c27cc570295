-- ===== src/Sql/Read.antt =====
-- What `db_validate_read` of src/agent/sqlite_tool.c lets pass.
use agent_httpd.Base.{
  ℕ, zero, suc, ◌-◌, Bool, true, false, not, ◌&&◌, Option, none, some, [], ◌∷◌, ◌++◌, take, ◌==◌,
  if◌then◌else◌, Bytes, is_some, past, drop_while, ◌≡◌, inl, inr, refl, sym, ap, ◌∙◌, arith,
  Bool-cases, and_left, and_right,
}
use agent_httpd.Sql.{
  Refusal, is_blank, is_select, unless_refused, without_semicolon, one_of, one_statement,
  strip_loop, body_of, statement, db_validate_read,
}
use agent_httpd.Sql.Suffix.{Ends, drop_while-Ends, strip_loop-Ends}

-- A semicolon stands at the end only.
abbrev pub single : Bytes → Bool
single [] = true
single (c ∷ []) = true
single (c ∷ d ∷ s) = not (c == b';') && single (d ∷ s)

single_without : (s : Bytes) → is_some (past b';' (without_semicolon s)) ≡ false → single s ≡ true
unfolding past without_semicolon
single_without [] h = refl
single_without (c ∷ []) h = refl
single_without (c ∷ d ∷ s) h = elim (Bool-cases (c == b';')) [
  | inl e ↦ absurd (ground (arith, e, h))
  | inr e ↦ rw (e, not) (single_without (d ∷ s) (ground (arith, e, h)))
]

single_tail : (c : ℕ) (s : Bytes) → single (c ∷ s) ≡ true → single s ≡ true
single_tail c [] h = refl
single_tail c (d ∷ s) h = and_right (not (c == b';')) (single (d ∷ s)) h

single-append : (a s : Bytes) → single (a ++ s) ≡ true → single s ≡ true
single-append [] s h = h
single-append (c ∷ a) s h = single-append a s (single_tail c (a ++ s) h)

single-Ends : (s t : Bytes) → Ends t s → single s ≡ true → single t ≡ true
single-Ends s t (a, e) h = single-append a t (ap single (sym e) ∙ h)

single-take : (n : ℕ) (s : Bytes) → single s ≡ true → single (take n s) ≡ true
single-take zero s h = refl
single-take (suc n) [] h = refl
single-take (suc zero) (c ∷ s) h = refl
single-take (suc (suc n)) (c ∷ []) h = refl
single-take (suc (suc n)) (c ∷ d ∷ s) h =
    let k = single-take (suc n) (d ∷ s) (and_right (not (c == b';')) (single (d ∷ s)) h) in
    let e = and_left (not (c == b';')) (single (d ∷ s)) h in rw (e) k

single-one_of : (s : Bytes) → one_of s ≡ none → single s ≡ true
single-one_of [] h = refl
single-one_of (c ∷ t) h = elim (Bool-cases (is_some (past b';' (without_semicolon (c ∷ t))))) [
  | inl e ↦ absurd (ground (arith, e, h))
  | inr e ↦ single_without (c ∷ t) e
]

single-one_statement : (s : Bytes) → one_statement s ≡ none → single (drop_while is_blank s) ≡ true
unfolding one_statement
single-one_statement s h = single-one_of (drop_while is_blank s) h

-- Both tests passed.
pub unless_refused-none :
    (a b : Option Refusal) → unless_refused a b ≡ none → (a ≡ none) × (b ≡ none)
unless_refused-none none b h = (refl, h)
unless_refused-none (some r) b h = absurd (cc)

-- What either guard looks at is one statement.
pub single-statement : (s : Bytes) (n : ℕ) → one_statement s ≡ none → single (statement s n) ≡ true
single-statement s n h =
    let t = drop_while is_blank s in
    let a = single-one_statement s h in
    let b = single-Ends t (strip_loop 64 t) (strip_loop-Ends 64 t) a in
    let c = single-take (n - 1) (strip_loop 64 t) b in
    single-Ends (body_of s n) (statement s n) (drop_while-Ends is_blank (body_of s n)) c

-- What a read may be. For every text and every buffer: if `db_validate_read` accepts it, then the
-- statement that is prepared, behind blanks and comments and cut to the buffer, has no semicolon but
-- at its end, and begins with SELECT in any case and a blank.
pub db_validate_read-single :
    (s : Bytes) (n : ℕ)
    → db_validate_read s n ≡ none
    → (single (statement s n) ≡ true) × (is_select (statement s n) ≡ true)
unfolding db_validate_read
db_validate_read-single s n h =
    let (a, b) =
      unless_refused-none (one_statement s)
        (if is_select (statement s n) then none else some Refusal.only_select) h in
    (single-statement s n a, ground (arith, b))
