-- ===== src/Text/Html.antt =====
-- `html_escape` of src/core/util.c.
use agent_httpd.Base.{
  ℕ, zero, suc, ◌+◌, ◌-◌, ◌≤◌, ◌<◌, Bool, true, false, [], ◌∷◌, ◌++◌, append-nil, append_assoc,
  length, length-append, take, take_all, ltb, ◌==◌, if◌then◌else◌, Bytes, ◌≡◌, inl, inr, refl, sym,
  ap, ◌∙◌, arith, Bool-cases, pair_eq, and_left, and_right, not, ◌&&◌, ◌||◌,
}
use agent_httpd.Text.{entity, escape_loop, html_escape}

-- The text with every special byte replaced.
abbrev pub escaped : Bytes → Bytes
escaped [] = []
escaped (c ∷ s) = entity c ++ escaped s

entity_pos : (c : ℕ) → 0 < length (entity c)
entity_pos c = ground arith

module _ (size p : ℕ) (out : Bytes) (c : ℕ) (s : Bytes) where
  loop_more :
      p < size - 1
      → escape_loop size p out (c ∷ s)
        ≡ escape_loop size (p + length (entity c)) (out ++ take (size - 1 - p) (entity c)) s
  unfolding escape_loop
  loop_more h = let t : ltb p (size - 1) ≡ true = ground arith in rw (t, if◌then◌else◌) refl

escape_loop-append :
    (size p : ℕ) (out a s : Bytes)
    → p + length (escaped a) < size
    → escape_loop size p out (a ++ s)
      ≡ escape_loop size (p + length (escaped a)) (out ++ escaped a) s
escape_loop-append size p out [] s h =
    ap (λ n. escape_loop size n out s) (omega arith)
    ∙ ap (λ o. escape_loop size (p + 0) o s) (sym (append-nil out))
escape_loop-append size p out (c ∷ a) s h =
    let l = length-append (entity c) (escaped a) in
    let q = entity_pos c in
    let t = take_all (size - 1 - p) (entity c) (omega (arith, h, l)) in
    let n : p + length (entity c) + length (escaped a) ≡ p + length (escaped (c ∷ a)) =
      omega (arith, l) in
    loop_more size p out c (a ++ s) (omega (arith, h, l, q))
    ∙ ap (λ x. escape_loop size (p + length (entity c)) (out ++ x) (a ++ s)) t
    ∙ escape_loop-append size (p + length (entity c)) (out ++ entity c) a s (omega (arith, h, l))
    ∙ ap (λ x. escape_loop size x (out ++ entity c ++ escaped a) s) n
    ∙ ap (λ o. escape_loop size (p + length (escaped (c ∷ a))) o s)
        (append_assoc out (entity c) (escaped a))

-- Where the escaped text fits. For every text and every buffer longer than its escaped form:
-- `html_escape` leaves exactly that form, and the NUL stands right behind it.
pub html_escape-escaped :
    (src : Bytes) (dst_size : ℕ)
    → length (escaped src) < dst_size
    → html_escape src dst_size ≡ (length (escaped src), escaped src)
unfolding html_escape escape_loop
html_escape-escaped src dst_size h =
    ap (λ x. escape_loop dst_size 0 [] x) (sym (append-nil src))
    ∙ escape_loop-append dst_size 0 [] src [] (omega (arith, h))
    ∙ pair_eq (omega arith) refl

length-escaped :
    (a : Bytes) (c : ℕ) → length (escaped (a ++ c ∷ [])) ≡ length (escaped a) + length (entity c)
length-escaped [] c = omega (arith, length-append (entity c) [])
length-escaped (d ∷ a) c =
    let l = length-append (entity d) (escaped (a ++ c ∷ [])) in
    let m = length-append (entity d) (escaped a) in omega (arith, l, m, length-escaped a c)

loop_end : (size p : ℕ) (out s : Bytes) → size - 1 ≤ p → (escape_loop size p out s).0 ≡ p
unfolding escape_loop
loop_end size p out [] h = refl
loop_end size p out (c ∷ s) h =
    let t : ltb p (size - 1) ≡ false = ground arith in rw (t, if◌then◌else◌) refl

-- No byte opens or closes a tag, or ends a quoted attribute.
abbrev pub inert : Bytes → Bool
inert [] = true
inert (c ∷ s) = not (c == b'<' || c == b'>' || c == b'"') && inert s

inert-append : (s t : Bytes) → inert s ≡ true → inert t ≡ true → inert (s ++ t) ≡ true
inert-append [] t h k = k
inert-append (c ∷ s) t h k =
    let x = and_left (not (c == b'<' || c == b'>' || c == b'"')) (inert s) h in
    let y = and_right (not (c == b'<' || c == b'>' || c == b'"')) (inert s) h in
    rw (x, ◌&&◌) (inert-append s t y k)

inert-take : (n : ℕ) (s : Bytes) → inert s ≡ true → inert (take n s) ≡ true
inert-take zero s h = refl
inert-take (suc n) [] h = refl
inert-take (suc n) (c ∷ s) h =
    let x = and_left (not (c == b'<' || c == b'>' || c == b'"')) (inert s) h in
    let y = and_right (not (c == b'<' || c == b'>' || c == b'"')) (inert s) h in
    rw (x, ◌&&◌) (inert-take n s y)

inert-entity : (c : ℕ) → inert (entity c) ≡ true
inert-entity c = elim (Bool-cases (c == b'&')) [
  | inl a ↦ rw (a, if◌then◌else◌) refl
  | inr a ↦ elim (Bool-cases (c == b'<')) [
    | inl b ↦ rw (a, b, if◌then◌else◌) refl
    | inr b ↦ elim (Bool-cases (c == b'>')) [
      | inl d ↦ rw (a, b, d, if◌then◌else◌) refl
      | inr d ↦ elim (Bool-cases (c == b'"')) [
        | inl e ↦ rw (a, b, d, e, if◌then◌else◌) refl
        | inr e ↦ rw (a, b, d, e, if◌then◌else◌) (rw (b, d, e, ◌||◌, not, ◌&&◌) refl)
      ]
    ]
  ]
]

escape_loop-inert :
    (size p : ℕ) (out s : Bytes) → inert out ≡ true → inert (escape_loop size p out s).1 ≡ true
unfolding escape_loop
escape_loop-inert size p out [] h = h
escape_loop-inert size p out (c ∷ s) h = elim (Bool-cases (ltb p (size - 1))) [
  | inr t ↦ rw (t, if◌then◌else◌) h
  | inl t ↦
      rw (t, if◌then◌else◌)
        (escape_loop-inert size (p + length (entity c)) (out ++ take (size - 1 - p) (entity c)) s (
          inert-append out (take (size - 1 - p) (entity c)) h
            (inert-take (size - 1 - p) (entity c) (inert-entity c))))
]

-- No markup comes through. For every text and every buffer size, also where the text is cut off: no
-- byte that `html_escape` leaves is one of < > and the double quote.
pub html_escape-inert : (src : Bytes) (dst_size : ℕ) → inert (html_escape src dst_size).1 ≡ true
unfolding html_escape
html_escape-inert src dst_size = escape_loop-inert dst_size 0 [] src refl

-- The NUL behind the buffer. For every text, every byte behind it and every buffer that keeps at least
-- two bytes behind the escaped text: if what stands for the byte leaves no room for the NUL, then,
-- whatever comes after it, `html_escape` writes the final NUL where the whole of it would have ended,
-- which is behind the buffer.
pub html_escape_overflow :
    (a rest : Bytes) (c dst_size : ℕ)
    → length (escaped a) + 1 < dst_size
    → dst_size ≤ length (escaped a) + length (entity c)
    → ((html_escape (a ++ c ∷ rest) dst_size).0 ≡ length (escaped (a ++ c ∷ [])))
      × (dst_size ≤ (html_escape (a ++ c ∷ rest) dst_size).0)
unfolding html_escape
html_escape_overflow a rest c dst_size h k =
    let p = 0 + length (escaped a) in
    let o' = escaped a ++ take (dst_size - 1 - p) (entity c) in
    let e : (html_escape (a ++ c ∷ rest) dst_size).0 ≡ p + length (entity c) =
      ap (λ r. r.0)
        (escape_loop-append dst_size 0 [] a (c ∷ rest) (omega (arith, h))
          ∙ loop_more dst_size p (escaped a) c rest (omega (arith, h)))
      ∙ loop_end dst_size (p + length (entity c)) o' rest (omega (arith, k)) in
    let l = length-escaped a c in (omega (arith, e, l), omega (arith, e, k))
