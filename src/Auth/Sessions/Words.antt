-- ===== src/Auth/Sessions/Words.antt =====
-- The words of a line of the session file, src/security/auth.c: `snprintf` and `sscanf`.
use agent_httpd.Base.{
  ℕ, zero, suc, ◌≤◌, Bool, true, false, some, [], ◌∷◌, ◌++◌, length, drop, ◌==◌, if◌then◌else◌,
  and_then, and_then_inv, Bytes, All, All-drop, LacksNul, is_whitespace, drop_while, ◌≡◌, ◌≢◌, inl,
  inr, refl, sym, ap, subst, ◌∙◌, arith, Bool-cases, eq_of_some, guard_not-some, append-nil,
  drop-append_length,
}
use agent_httpd.Auth.Sessions.{Session, word_of, scan_word, scan_line}

-- A byte of a word.
abbrev pub IsPlain : ℕ → Type 0
IsPlain c = (is_whitespace c ≡ false) × (c ≢ 0)

pub record IsWord (n : ℕ) (w : Bytes) : Type 0 where
  pub filled : (length w == 0) ≡ false
  pub short : length w ≤ n
  pub plain : All IsPlain w

-- A session as a line can hold it.
pub record IsSession (e : Session) : Type 0 where
  pub token : IsWord 32 e.token
  pub user : IsWord 127 e.user
  pub expiry : IsWord 31 e.expiry

-- What ends a word.
abbrev pub ends : Bytes → Bool
ends [] = true
ends (c ∷ s) = is_whitespace c

word_of-word :
    (n : ℕ) (w tail : Bytes)
    → length w ≤ n
    → All IsPlain w
    → ends tail ≡ true
    → word_of n (w ++ tail) ≡ w
unfolding word_of
word_of-word zero [] tail h p e = refl
word_of-word zero (c ∷ w) tail h p e = absurd (omega arith)
word_of-word (suc n) [] [] h p e = refl
word_of-word (suc n) [] (c ∷ tail) h p e = rw (e, if◌then◌else◌) refl
word_of-word (suc n) (c ∷ w) tail h ((b, z), ps) e =
    rw (b, if◌then◌else◌) (ap (◌∷◌ c) (word_of-word n w tail (omega arith) ps e))

starts_plain :
    (w tail : Bytes)
    → (length w == 0) ≡ false
    → All IsPlain w
    → drop_while is_whitespace (w ++ tail) ≡ w ++ tail
unfolding drop_while
starts_plain [] tail f p = absurd (ground arith)
starts_plain (c ∷ w) tail f ((b, z), ps) = rw (b, if◌then◌else◌) refl

-- A word is read whole.
pub scan_word-IsWord :
    (n : ℕ) (w tail : Bytes)
    → IsWord n w
    → ends tail ≡ true
    → scan_word n (w ++ tail) ≡ some (w, tail)
scan_word-IsWord n w tail h e =
    rw
      (
        starts_plain w tail h.filled h.plain,
        word_of-word n w tail h.short h.plain e,
        h.filled,
        if◌then◌else◌,
        drop-append_length (length w) w tail refl,
      )
      refl

-- A space ahead does not count.
scan_word-space : (n : ℕ) (s : Bytes) → scan_word n (b' ' ∷ s) ≡ scan_word n s
unfolding drop_while
scan_word-space n s = refl

-- A line without its line feed.
abbrev pub line_of : Session → Bytes
line_of e = e.token ++ (b' ' ∷ (e.user ++ (b' ' ∷ e.expiry)))

pub scan_line-line_of : (e : Session) → IsSession e → scan_line (line_of e) ≡ some e
unfolding scan_line
scan_line-line_of e h =
    let a = scan_word-IsWord 32 e.token (b' ' ∷ (e.user ++ (b' ' ∷ e.expiry))) h.token refl in
    let b =
      scan_word-space 127 (e.user ++ (b' ' ∷ e.expiry))
      ∙ scan_word-IsWord 127 e.user (b' ' ∷ e.expiry) h.user refl in
    let c =
      scan_word-space 31 e.expiry
      ∙ ap (scan_word 31) (sym (append-nil e.expiry))
      ∙ scan_word-IsWord 31 e.expiry [] h.expiry refl in
    rw (scan_line, a, and_then, b, c) refl

-- What is read are words.
word_of-plain : (n : ℕ) (s : Bytes) → LacksNul s → All IsPlain (word_of n s)
unfolding word_of
word_of-plain zero s h = tt
word_of-plain (suc n) [] h = tt
word_of-plain (suc n) (c ∷ s) (h, hs) = elim (Bool-cases (is_whitespace c)) [
  | inl e ↦ rw (word_of, e, if◌then◌else◌) tt
  | inr e ↦ rw (word_of, e, if◌then◌else◌) ((e, h), word_of-plain n s hs)
]

word_of-short : (n : ℕ) (s : Bytes) → length (word_of n s) ≤ n
unfolding word_of
word_of-short zero s = omega arith
word_of-short (suc n) [] = omega arith
word_of-short (suc n) (c ∷ s) = elim (Bool-cases (is_whitespace c)) [
  | inl e ↦ rw (word_of, e, if◌then◌else◌) (omega arith)
  | inr e ↦ rw (word_of, e, if◌then◌else◌) (omega (arith, word_of-short n s))
]

drop_while-LacksNul : (s : Bytes) → LacksNul s → LacksNul (drop_while is_whitespace s)
unfolding drop_while
drop_while-LacksNul [] h = tt
drop_while-LacksNul (c ∷ s) (h, hs) = elim (Bool-cases (is_whitespace c)) [
  | inl e ↦ rw (drop_while, e, if◌then◌else◌) (drop_while-LacksNul s hs)
  | inr e ↦ rw (drop_while, e, if◌then◌else◌) (h, hs)
]

scan_word_inv :
    (n : ℕ) (s : Bytes) (r : Bytes × Bytes)
    → LacksNul s
    → scan_word n s ≡ some r
    → IsWord n r.0 × LacksNul r.1
scan_word_inv n s r h e =
    let t = drop_while is_whitespace s in
    let ht = drop_while-LacksNul s h in
    let (f, q) =
      guard_not-some (length (word_of n t) == 0) (some (word_of n t, drop (length (word_of n t)) t))
        r e in
    let w : IsWord n (word_of n t) = record {
      filled = f;
      short = word_of-short n t;
      plain = word_of-plain n t ht;
    } in
    subst (λ x. IsWord n x.0 × LacksNul x.1) (eq_of_some q)
      (w, All-drop (λ c. c ≢ 0) (length (word_of n t)) t ht)

pub scan_line-IsSession :
    (l : Bytes) (e : Session) → LacksNul l → scan_line l ≡ some e → IsSession e
unfolding scan_line
scan_line-IsSession l e h q =
    let (a, qa, ra) = and_then_inv (scan_word 32 l) _ e q in
    let (b, qb, rb) = and_then_inv (scan_word 127 a.1) _ e ra in
    let (c, qc, rc) = and_then_inv (scan_word 31 b.1) _ e rb in
    let (wa, ha) = scan_word_inv 32 l a h qa in
    let (wb, hb) = scan_word_inv 127 a.1 b ha qb in
    let (wc, hc) = scan_word_inv 31 b.1 c hb qc in
    subst IsSession (eq_of_some rc) (record { token = wa; user = wb; expiry = wc })
