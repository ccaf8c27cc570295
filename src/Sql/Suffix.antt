-- ===== src/Sql/Suffix.antt =====
-- What the scanners of src/agent/sqlite_tool.c leave is the end of the text they are given.
use agent_httpd.Base.{
  ℕ, zero, suc, ◌≤◌, ◌<◌, Bool, true, false, ◌&&◌, Option, none, some, [], ◌∷◌, ◌++◌, append_assoc,
  append-nil, length, length-append, drop, ◌==◌, if◌then◌else◌, Bytes, codes, after, after_ci, past,
  drop_while, or_else, ◌≡◌, ◌⊎◌, inl, inr, refl, sym, ap, ◌∙◌, arith, Bool-cases, Option-cases,
  eq_of_some,
}
use agent_httpd.Host.{behind_text}
use agent_httpd.Sql.{
  Comment, comment_at, ended_by, is_blank, is_word, strip_loop, keyword, at_break, sql_break,
  sql_scan_ident,
}

-- `t` is the end of `s`.
abbrev pub Ends : Bytes → Bytes → Type 0
Ends t s = (a : Bytes) × (s ≡ a ++ t)

pub Ends-refl : (s : Bytes) → Ends s s
Ends-refl s = ([], refl)

pub Ends-tail : {t s : Bytes} (c : ℕ) → Ends t s → Ends t (c ∷ s)
Ends-tail c (a, e) = (c ∷ a, ap (λ x. c ∷ x) e)

pub Ends-trans : {t u s : Bytes} → Ends t u → Ends u s → Ends t s
Ends-trans (a, e) (b, f) = (b ++ a, f ∙ ap (λ x. b ++ x) e ∙ sym (append_assoc b a _))

pub length-Ends : {t s : Bytes} → Ends t s → length t ≤ length s
length-Ends (a, e) = omega (arith, ap length e, length-append a _)

pub drop_while-Ends : (f : ℕ → Bool) (s : Bytes) → Ends (drop_while f s) s
unfolding drop_while
drop_while-Ends f [] = Ends-refl []
drop_while-Ends f (c ∷ s) = elim (Bool-cases (f c)) [
  | inl e ↦ rw (e, if◌then◌else◌) (Ends-tail c (drop_while-Ends f s))
  | inr e ↦ rw (e, if◌then◌else◌) (Ends-refl (c ∷ s))
]

pub drop-Ends : (n : ℕ) (s : Bytes) → Ends (drop n s) s
drop-Ends zero s = Ends-refl s
drop-Ends (suc n) [] = Ends-refl []
drop-Ends (suc n) (c ∷ s) = Ends-tail c (drop-Ends n s)

pub past-Ends : (x : ℕ) (s t : Bytes) → past x s ≡ some t → Ends t s
unfolding past
past-Ends x [] t h = absurd (cc)
past-Ends x (c ∷ s) t h = elim (Bool-cases (c == x)) [
  | inl e ↦ (c ∷ [], ap (λ y. c ∷ y) (eq_of_some (ground (arith, e, h))))
  | inr e ↦ Ends-tail c (past-Ends x s t (ground (arith, e, h)))
]

after-Ends : (w s t : Bytes) → after w s ≡ some t → Ends t s
unfolding after
after-Ends [] s t h = ([], eq_of_some h)
after-Ends (x ∷ w) [] t h = absurd (cc)
after-Ends (x ∷ w) (c ∷ s) t h = Ends-tail c (after-Ends w s t (ground (arith, h)))

pub after_ci-Ends : (w s t : Bytes) → after_ci w s ≡ some t → Ends t s
unfolding after_ci
after_ci-Ends [] s t h = ([], eq_of_some h)
after_ci-Ends (x ∷ w) [] t h = absurd (cc)
after_ci-Ends (x ∷ w) (c ∷ s) t h = Ends-tail c (after_ci-Ends w s t (ground (arith, h)))

behind_text-Ends : (w s t : Bytes) → behind_text w s ≡ some t → Ends t s
unfolding behind_text
behind_text-Ends w [] t h = after-Ends w [] t h
behind_text-Ends w (c ∷ s) t h = elim (Option-cases (after w (c ∷ s))) [
  | inl e ↦ Ends-tail c (behind_text-Ends w s t (ap (λ o. or_else o (behind_text w s)) (sym e) ∙ h))
  | inr (u, e) ↦ after-Ends w (c ∷ s) t (e ∙ sym (ap (λ o. or_else o (behind_text w s)) e) ∙ h)
]

at_break-some : (o : Option Bytes) (t : Bytes) → at_break o ≡ some t → o ≡ some t
at_break-some none t h = absurd (cc)
at_break-some (some s) t h = elim (Bool-cases (sql_break s)) [
  | inl e ↦ sym (ap (λ b. if b then some s else none) e) ∙ h
  | inr e ↦ absurd (ground (arith, e, h))
]

pub keyword-Ends : (w s t : Bytes) → keyword w s ≡ some t → Ends t s
keyword-Ends w s t h = after_ci-Ends w s t (at_break-some (after_ci w s) t h)

scan_quote : (c : ℕ) (s : Bytes) → (c == b'"') ≡ true → sql_scan_ident (c ∷ s) ≡ past b'"' s
unfolding sql_scan_ident
scan_quote c s e = rw (e, if◌then◌else◌) refl

pub scan_word :
    (c : ℕ) (s : Bytes)
    → (c == b'"') ≡ false
    → is_word c ≡ true
    → sql_scan_ident (c ∷ s) ≡ some (drop_while is_word s)
unfolding sql_scan_ident drop_while
scan_word c s e k = rw (e, k, if◌then◌else◌) refl

scan_none :
    (c : ℕ) (s : Bytes) → (c == b'"') ≡ false → is_word c ≡ false → sql_scan_ident (c ∷ s) ≡ none
unfolding sql_scan_ident
scan_none c s e k = rw (e, k, if◌then◌else◌) refl

pub sql_scan_ident-Ends : (c : ℕ) (s t : Bytes) → sql_scan_ident (c ∷ s) ≡ some t → Ends t s
sql_scan_ident-Ends c s t h = elim (Bool-cases (c == b'"')) [
  | inl e ↦ past-Ends b'"' s t (sym (scan_quote c s e) ∙ h)
  | inr e ↦ elim (Bool-cases (is_word c)) [
    | inl k ↦
        let (a, f) = drop_while-Ends is_word s in
        (a, f ∙ ap (λ x. a ++ x) (eq_of_some (sym (scan_word c s e k) ∙ h)))
    | inr k ↦ let n = sym (scan_none c s e k) ∙ h in absurd (cc)
  ]
]

ended_by-Ends : (o : Option Bytes) (t : Bytes) → ended_by o ≡ Comment.ended t → o ≡ some t
ended_by-Ends none t h = absurd (cc)
ended_by-Ends (some s) t h = cc

-- Behind a comment, with its first byte aside.
pub comment_at-Ends : (c : ℕ) (s t : Bytes) → comment_at (c ∷ s) ≡ Comment.ended t → Ends t s
unfolding comment_at
comment_at-Ends c [] t h = absurd (cc)
comment_at-Ends c (d ∷ s) t h = elim (Bool-cases (c == b'-' && d == b'-')) [
  | inl e ↦
      Ends-tail d (past-Ends b'\n' s t (ended_by-Ends (past b'\n' s) t (ground (arith, e, h))))
  | inr e ↦ elim (Bool-cases (c == b'/' && d == b'*')) [
    | inl k ↦ Ends-tail d (
        behind_text-Ends (codes "*/") s t
          (ended_by-Ends (behind_text (codes "*/") s) t (ground (arith, e, k, h))))
    | inr k ↦ absurd (ground (arith, e, k, h))
  ]
]

pub Comment-cases :
    (o : Comment)
    → (o ≡ Comment.no_comment) ⊎ (o ≡ Comment.unended) ⊎ ((t : Bytes) × (o ≡ Comment.ended t))
Comment-cases Comment.no_comment = inl refl
Comment-cases Comment.unended = inr (inl refl)
Comment-cases (Comment.ended t) = inr (inr (t, refl))

-- The same for any text, of which a comment takes a byte at least.
pub comment_at-shorter :
    (s t : Bytes) → comment_at s ≡ Comment.ended t → Ends t s × (length t < length s)
unfolding comment_at
comment_at-shorter [] t h = absurd (cc)
comment_at-shorter (c ∷ s) t h =
    let e = comment_at-Ends c s t h in (Ends-tail c e, omega (arith, length-Ends e))

pub strip_loop-Ends : (k : ℕ) (s : Bytes) → Ends (strip_loop k s) s
unfolding strip_loop
strip_loop-Ends zero s = Ends-refl s
strip_loop-Ends (suc k) s =
    let skipped = drop_while-Ends is_blank s in
    elim (Comment-cases (comment_at (drop_while is_blank s))) [
      | inl e ↦ rw (strip_loop, e) skipped
      | inr (inl e) ↦ rw (strip_loop, e) (s, sym (append-nil s))
      | inr (inr (t, e)) ↦
          rw (strip_loop, e)
            (Ends-trans (strip_loop-Ends k t)
              (Ends-trans (comment_at-shorter (drop_while is_blank s) t e).0 skipped))
    ]
