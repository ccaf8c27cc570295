-- ===== src/Sql/Words.antt =====
-- The search for a whole word: `kw_anywhere` and `sql_touches_hidden` of src/agent/sqlite_tool.c.
use agent_httpd.Base.{
  ℕ, zero, suc, ◌+◌, ◌<◌, Bool, true, false, not, ◌&&◌, ◌||◌, Option, none, some, [], ◌∷◌, length,
  ◌==◌, if◌then◌else◌, Bytes, after_ci, is_some, to_lower, ◌≡◌, inl, inr, refl, sym, ap, ◌∙◌, arith,
  Bool-cases, Option-cases, eq_of_some, and_left, and_right,
}
use agent_httpd.Sql.{
  is_word, sql_break, left_ok, matched, seek, kw_loop, kw_anywhere, kw_at, at_break,
}

-- A word stands at some place: matched in any case, a boundary on either side.
unfoldable pub has_word : Bytes → Option ℕ → Bytes → Bool
has_word w prev [] = false
has_word w prev (c ∷ s) = left_ok prev && kw_at (c ∷ s) w || has_word w (some c) s

abbrev pub all_word : Bytes → Bool
all_word [] = true
all_word (c ∷ s) = is_word c && all_word s

matched-none : (prev : Option ℕ) (w s : Bytes) → matched prev w s ≡ none → after_ci w s ≡ none
unfolding matched after_ci
matched-none prev [] s h = absurd (cc)
matched-none prev (x ∷ w) [] h = refl
matched-none prev (x ∷ w) (c ∷ s) h = elim (Bool-cases (to_lower c == to_lower x)) [
  | inl e ↦ rw (e, if◌then◌else◌) (matched-none (some c) w s (ground (arith, e, h)))
  | inr e ↦ rw (e, if◌then◌else◌) refl
]

matched-some :
    (prev last : Option ℕ) (w s t : Bytes)
    → matched prev w s ≡ some (last, t)
    → after_ci w s ≡ some t
unfolding matched after_ci
matched-some prev last [] s t h = ap some (ap (λ x. x.1) (eq_of_some h))
matched-some prev last (x ∷ w) [] t h = absurd (cc)
matched-some prev last (x ∷ w) (c ∷ s) t h = elim (Bool-cases (to_lower c == to_lower x)) [
  | inl e ↦ rw (e, if◌then◌else◌) (matched-some (some c) last w s t (ground (arith, e, h)))
  | inr e ↦ absurd (ground (arith, e, h))
]

word_byte : (c x : ℕ) → (to_lower c == to_lower x) ≡ true → is_word x ≡ true → is_word c ≡ true
word_byte c x h k = ground (arith, h, k)

-- Within a match of word bytes no word begins.
has_word_behind :
    (v w s t : Bytes) (c : ℕ) (last : Option ℕ)
    → all_word w ≡ true
    → is_word c ≡ true
    → matched (some c) w s ≡ some (last, t)
    → has_word v (some c) s ≡ has_word v last t
unfolding matched has_word
has_word_behind v [] s t c last h k e = let p = eq_of_some e in ap (λ x. has_word v x.0 x.1) p
has_word_behind v (x ∷ w) [] t c last h k e = absurd (cc)
has_word_behind v (x ∷ w) (d ∷ s) t c last h k e = elim (Bool-cases (to_lower d == to_lower x)) [
  | inr m ↦ absurd (ground (arith, m, e))
  | inl m ↦
      let n =
        has_word_behind v w s t d last (and_right (is_word x) (all_word w) h)
          (word_byte d x m (and_left (is_word x) (all_word w) h)) (ground (arith, m, e)) in
      rw (k, not) n
]

kw_at-none : (w s : Bytes) → after_ci w s ≡ none → kw_at s w ≡ false
kw_at-none w s h = ap (λ o. is_some (at_break o)) h

some_if : (b : Bool) (t : Bytes) → is_some (if b then some t else none) ≡ b
some_if true t = refl
some_if false t = refl

kw_at-some : (w s t : Bytes) → after_ci w s ≡ some t → kw_at s w ≡ sql_break t
kw_at-some w s t h = ap (λ o. is_some (at_break o)) h ∙ some_if (sql_break t) t

or_skip : (a b x : Bool) → b ≡ false → (a && b || x) ≡ x
or_skip true b x h = ap (λ y. y || x) h
or_skip false b x h = refl

step_none :
    (w : Bytes) (prev : Option ℕ) (c : ℕ) (s : Bytes)
    → kw_at (c ∷ s) w ≡ false
    → has_word w prev (c ∷ s) ≡ has_word w (some c) s
unfolding has_word
step_none w prev c s h = or_skip (left_ok prev) (kw_at (c ∷ s) w) (has_word w (some c) s) h

seek_next :
    (w : Bytes) (prev : Option ℕ) (c : ℕ) (s : Bytes)
    → matched prev w (c ∷ s) ≡ none
    → seek w prev (c ∷ s) ≡ seek w (some c) s
unfolding seek
seek_next w prev c s e = rw (seek, e) refl

seek_here :
    (w : Bytes) (prev last : Option ℕ) (c : ℕ) (s t : Bytes)
    → matched prev w (c ∷ s) ≡ some (last, t)
    → seek w prev (c ∷ s) ≡ some (prev, last, t)
unfolding seek
seek_here w prev last c s t e = rw (seek, e) refl

seek-none-has_word :
    (w : Bytes) (prev : Option ℕ) (s : Bytes) → seek w prev s ≡ none → has_word w prev s ≡ false
unfolding has_word
seek-none-has_word w prev [] h = refl
seek-none-has_word w prev (c ∷ s) h = elim (Option-cases (matched prev w (c ∷ s))) [
  | inl e ↦
      step_none w prev c s (kw_at-none w (c ∷ s) (matched-none prev w (c ∷ s) e))
      ∙ seek-none-has_word w (some c) s (sym (seek_next w prev c s e) ∙ h)
  | inr ((last, t), e) ↦ let n = sym (seek_here w prev last c s t e) ∙ h in absurd (cc)
]

seek_empty : (x : ℕ) (w : Bytes) (prev : Option ℕ) → seek (x ∷ w) prev [] ≡ none
unfolding seek
seek_empty x w prev = refl

here_word :
    (x : ℕ) (w : Bytes) (prev last : Option ℕ) (c : ℕ) (s t : Bytes)
    → all_word (x ∷ w) ≡ true
    → matched prev (x ∷ w) (c ∷ s) ≡ some (last, t)
    → has_word (x ∷ w) prev (c ∷ s) ≡ (left_ok prev && sql_break t || has_word (x ∷ w) last t)
unfolding has_word matched
here_word x w prev last c s t k e = elim (Bool-cases (to_lower c == to_lower x)) [
  | inr m ↦ absurd (ground (arith, m, e))
  | inl m ↦
      let n =
        has_word_behind (x ∷ w) w s t c last (and_right (is_word x) (all_word w) k)
          (word_byte c x m (and_left (is_word x) (all_word w) k)) (ground (arith, m, e)) in
      let p = kw_at-some (x ∷ w) (c ∷ s) t (matched-some prev last (x ∷ w) (c ∷ s) t e) in
      ap (λ y. left_ok prev && y || has_word (x ∷ w) (some c) s) p
      ∙ ap (λ y. left_ok prev && sql_break t || y) n
]

-- At the first match: it is one, or one is behind it.
seek-some-has_word :
    (x : ℕ) (w : Bytes) (prev before last : Option ℕ) (s t : Bytes)
    → all_word (x ∷ w) ≡ true
    → seek (x ∷ w) prev s ≡ some (before, last, t)
    → has_word (x ∷ w) prev s ≡ (left_ok before && sql_break t || has_word (x ∷ w) last t)
seek-some-has_word x w prev before last [] t k h = let n = seek_empty x w prev in absurd (cc)
seek-some-has_word x w prev before last (c ∷ s) t k h =
    elim (Option-cases (matched prev (x ∷ w) (c ∷ s))) [
      | inl e ↦
          step_none (x ∷ w) prev c s
            (kw_at-none (x ∷ w) (c ∷ s) (matched-none prev (x ∷ w) (c ∷ s) e))
          ∙ seek-some-has_word x w (some c) before last s t k
              (sym (seek_next (x ∷ w) prev c s e) ∙ h)
      | inr ((l, u), e) ↦
          let n = eq_of_some (sym (seek_here (x ∷ w) prev l c s u e) ∙ h) in
          here_word x w prev l c s u k e
          ∙ ap (λ y. left_ok y.0 && sql_break y.2 || has_word (x ∷ w) y.1 y.2) n
    ]

matched-shorter :
    (prev last : Option ℕ) (w s t : Bytes)
    → matched prev w s ≡ some (last, t)
    → length t + length w ≡ length s
unfolding matched
matched-shorter prev last [] s t h = omega (arith, ap (λ x. length x.1) (eq_of_some h))
matched-shorter prev last (x ∷ w) [] t h = absurd (cc)
matched-shorter prev last (x ∷ w) (c ∷ s) t h = elim (Bool-cases (to_lower c == to_lower x)) [
  | inl e ↦ omega (arith, matched-shorter (some c) last w s t (ground (arith, e, h)))
  | inr e ↦ absurd (ground (arith, e, h))
]

seek-shorter :
    (x : ℕ) (w : Bytes) (prev before last : Option ℕ) (s t : Bytes)
    → seek (x ∷ w) prev s ≡ some (before, last, t)
    → length t < length s
seek-shorter x w prev before last [] t h = let n = seek_empty x w prev in absurd (cc)
seek-shorter x w prev before last (c ∷ s) t h = elim (Option-cases (matched prev (x ∷ w) (c ∷ s))) [
  | inl e ↦
      omega
        (arith, seek-shorter x w (some c) before last s t (sym (seek_next (x ∷ w) prev c s e) ∙ h))
  | inr ((l, u), e) ↦
      let n = eq_of_some (sym (seek_here (x ∷ w) prev l c s u e) ∙ h) in
      omega (arith, matched-shorter prev l (x ∷ w) (c ∷ s) u e, ap (λ y. length y.2) n)
]

loop_none :
    (fuel : ℕ) (w : Bytes) (prev : Option ℕ) (s : Bytes)
    → seek w prev s ≡ none
    → kw_loop (suc fuel) w prev s ≡ false
unfolding kw_loop
loop_none fuel w prev s e = rw (kw_loop, e) refl

loop_some :
    (fuel : ℕ) (w : Bytes) (prev before last : Option ℕ) (s t : Bytes)
    → seek w prev s ≡ some (before, last, t)
    → kw_loop (suc fuel) w prev s ≡ (left_ok before && sql_break t || kw_loop fuel w last t)
unfolding kw_loop
loop_some fuel w prev before last s t e = rw (kw_loop, e) refl

kw_loop-has_word :
    (fuel x : ℕ) (w : Bytes) (prev : Option ℕ) (s : Bytes)
    → all_word (x ∷ w) ≡ true
    → length s < fuel
    → kw_loop fuel (x ∷ w) prev s ≡ has_word (x ∷ w) prev s
kw_loop-has_word zero x w prev s k h = absurd (omega arith)
kw_loop-has_word (suc fuel) x w prev s k h = elim (Option-cases (seek (x ∷ w) prev s)) [
  | inl e ↦ loop_none fuel (x ∷ w) prev s e ∙ sym (seek-none-has_word (x ∷ w) prev s e)
  | inr ((b, l, t), e) ↦
      let n = kw_loop-has_word fuel x w l t k (omega (arith, seek-shorter x w prev b l s t e)) in
      loop_some fuel (x ∷ w) prev b l s t e
      ∙ ap (λ y. left_ok b && sql_break t || y) n
      ∙ sym (seek-some-has_word x w prev b l s t k e)
]

-- The search for a keyword is exact. For a keyword that is not empty and made of letters, digits and
-- underscores, and every text: `kw_anywhere` finds it exactly if it stands somewhere in the text, in
-- any case, with the end or another byte on either side, although the loop steps over a whole match
-- that has no boundary.
pub kw_anywhere-has_word :
    (x : ℕ) (w s : Bytes)
    → all_word (x ∷ w) ≡ true
    → kw_anywhere s (x ∷ w) ≡ has_word (x ∷ w) none s
unfolding kw_anywhere
kw_anywhere-has_word x w s k = kw_loop-has_word (suc (length s)) x w none s k (omega arith)
