-- ===== src/Json/Bounds.antt =====
-- The string reader of src/core/minijson.c: what it writes, where it stops, and that it stops.
use agent_httpd.Base.{
  ℕ, zero, suc, ◌+◌, ◌<◌, false, ◌&&◌, none, some, [], ◌∷◌, ◌++◌, length, length-append, ltb,
  ltb→lt, ◌==◌, if◌then◌else◌, Bytes, ◌≡◌, ◌≢◌, inl, inr, refl, ap, sym, subst, ◌∙◌, arith,
  Bool-cases, Option-cases,
}
use agent_httpd.Json.{
  hex4, put_byte, put_bytes, utf8, utf8_put, low_escape, read_unicode, read_escape, read_loop,
  jread_string,
}

put_byte_bound :
    (size : ℕ) (out : Bytes) (c : ℕ) → length out < size → length (put_byte size out c) < size
put_byte_bound size out c h = elim (Bool-cases (ltb (length out + 1) size)) [
  | inl fits ↦
      let l = length-append out (c ∷ []) in
      let e : put_byte size out c ≡ out ++ c ∷ [] = ground arith in
      omega (arith, ltb→lt (length out + 1) size fits, l, ap length e)
  | inr full ↦ let e : put_byte size out c ≡ out = ground arith in omega (arith, h, ap length e)
]

put_bytes_bound :
    (size : ℕ) (out cs : Bytes) → length out < size → length (put_bytes size out cs) < size
unfolding put_bytes
put_bytes_bound size out [] h = h
put_bytes_bound size out (c ∷ cs) h =
    put_bytes_bound size (put_byte size out c) cs (put_byte_bound size out c h)

hex4_shorter : (p rest : Bytes) (v : ℕ) → hex4 p ≡ some (v, rest) → length rest < length p
unfolding hex4
hex4_shorter [] rest v e = absurd (cc)
hex4_shorter (a ∷ []) rest v e = absurd (cc)
hex4_shorter (a ∷ b ∷ []) rest v e = absurd (cc)
hex4_shorter (a ∷ b ∷ c ∷ []) rest v e = absurd (cc)
hex4_shorter (a ∷ b ∷ c ∷ d ∷ tail) rest v e = ground arith

low_escape_shorter :
    (p rest : Bytes) (v : ℕ) → low_escape p ≡ some (v, rest) → length rest < length p
unfolding low_escape
low_escape_shorter [] rest v e = absurd (cc)
low_escape_shorter (a ∷ []) rest v e = absurd (cc)
low_escape_shorter (a ∷ b ∷ tail) rest v e = elim (Bool-cases (a == b'\\' && b == b'u')) [
  | inl t ↦ let k = hex4_shorter tail rest v (ground (arith, t, e)) in omega (arith, k)
  | inr t ↦ absurd (ground (arith, t, e))
]

read_unicode_shorter :
    (p rest : Bytes) (cp : ℕ) → read_unicode p ≡ some (cp, rest) → length rest < length p
unfolding read_unicode
read_unicode_shorter p rest cp e = elim (Option-cases (hex4 p)) [
  | inl n ↦ absurd (ground (arith, e, n))
  | inr ((v, tail), h) ↦
      let k = hex4_shorter p tail v h in
      elim (Option-cases (low_escape tail)) [
        | inl n ↦ ground (arith, e, h, n, k)
        | inr ((lo, tail'), l) ↦
            let m = low_escape_shorter tail tail' lo l in ground (arith, e, h, l, k, m)
      ]
]

read_escape_shorter :
    (p rest : Bytes) (cp : ℕ) → read_escape p ≡ some (cp, rest) → length rest < length p
unfolding read_escape
read_escape_shorter [] rest cp e = absurd (cc)
read_escape_shorter (c ∷ cs) rest cp e = elim (Option-cases (read_unicode cs)) [
  | inl n ↦ ground (arith, e, n)
  | inr ((v, tail), h) ↦ let k = read_unicode_shorter cs tail v h in ground (arith, e, h, k)
]

-- One round, from its three branches.
read_loop_plain :
    (fuel size c : ℕ) (cs out : Bytes)
    → c ≢ b'"'
    → c ≢ b'\\'
    → read_loop (suc fuel) size (c ∷ cs) out ≡ read_loop fuel size cs (put_byte size out c)
unfolding read_loop
read_loop_plain fuel size c cs out p q =
    let x : (c == b'"') ≡ false = ground arith in
    let y : (c == b'\\') ≡ false = ground arith in rw (x, y, if◌then◌else◌) refl

read_loop_end :
    (fuel size : ℕ) (cs out : Bytes) → read_loop (suc fuel) size (b'"' ∷ cs) out ≡ some (cs, out)
unfolding read_loop
read_loop_end fuel size cs out = refl

read_loop_bad :
    (fuel size : ℕ) (cs out : Bytes)
    → read_escape cs ≡ none
    → read_loop (suc fuel) size (b'\\' ∷ cs) out ≡ none
unfolding read_loop
read_loop_bad fuel size cs out e = rw (e, if◌then◌else◌) refl

read_loop_escape :
    (fuel size cp : ℕ) (cs rest out : Bytes)
    → read_escape cs ≡ some (cp, rest)
    → read_loop (suc fuel) size (b'\\' ∷ cs) out ≡ read_loop fuel size rest (utf8_put size out cp)
unfolding read_loop
read_loop_escape fuel size cp cs rest out e = rw (e, if◌then◌else◌) refl

utf8_put_bound :
    (size : ℕ) (out : Bytes) (cp : ℕ) → length out < size → length (utf8_put size out cp) < size
unfolding utf8_put
utf8_put_bound size out cp h = put_bytes_bound size out (utf8 cp) h

read_loop_bound :
    (fuel size : ℕ) (p out rest out' : Bytes)
    → read_loop fuel size p out ≡ some (rest, out')
    → length out < size
    → (length out' < size) × (length rest < length p)
unfolding read_loop
read_loop_bound zero size p out rest out' e h = absurd (cc)
read_loop_bound (suc fuel) size [] out rest out' e h = absurd (cc)
read_loop_bound (suc fuel) size (c ∷ cs) out rest out' e h = elim (Bool-cases (c == b'"')) [
  | inl q ↦ ground (arith, q, e, h)
  | inr q ↦ elim (Bool-cases (c == b'\\')) [
    | inr r ↦
        let f = sym (read_loop_plain fuel size c cs out (ground arith) (ground arith)) ∙ e in
        let (x, y) =
          read_loop_bound fuel size cs (put_byte size out c) rest out' f
            (put_byte_bound size out c h) in
        (x, omega (arith, y))
    | inl r ↦ elim (Option-cases (read_escape cs)) [
      | inl n ↦ absurd (ground (arith, q, r, n, e))
      | inr ((cp, tail), g) ↦
          let b : c ≡ b'\\' = ground arith in
          let f =
            sym (read_loop_escape fuel size cp cs tail out g)
            ∙ ap (λ x. read_loop (suc fuel) size (x ∷ cs) out) (sym b)
            ∙ e in
          let (x, y) =
            read_loop_bound fuel size tail (utf8_put size out cp) rest out' f
              (utf8_put_bound size out cp h) in
          (x, omega (arith, y, read_escape_shorter cs tail cp g))
    ]
  ]
]

-- The loop of `jread_string` ends. For every text, buffer size and bytes already written: any two
-- numbers of rounds above the length of the text give the same result, so that the model, which gives
-- one round more than there are bytes, never fails for want of rounds.
pub read_loop_fuel :
    (f g size : ℕ) (p out : Bytes)
    → length p < f
    → length p < g
    → read_loop f size p out ≡ read_loop g size p out
unfolding read_loop
read_loop_fuel zero g size p out h k = absurd (omega arith)
read_loop_fuel (suc f) zero size p out h k = absurd (omega arith)
read_loop_fuel (suc f) (suc g) size [] out h k = refl
read_loop_fuel (suc f) (suc g) size (c ∷ cs) out h k = elim (Bool-cases (c == b'"')) [
  | inl q ↦ ground (arith, q)
  | inr q ↦ elim (Bool-cases (c == b'\\')) [
    | inr r ↦
        let x : c ≢ b'"' = ground arith in
        let y : c ≢ b'\\' = ground arith in
        read_loop_plain f size c cs out x y
        ∙ read_loop_fuel f g size cs (put_byte size out c) (omega arith) (omega arith)
        ∙ sym (read_loop_plain g size c cs out x y)
    | inl r ↦
        let b : c ≡ b'\\' = ground arith in
        subst (λ x. read_loop (suc f) size (x ∷ cs) out ≡ read_loop (suc g) size (x ∷ cs) out)
          (sym b)
          (elim (Option-cases (read_escape cs)) [
            | inl n ↦ read_loop_bad f size cs out n ∙ sym (read_loop_bad g size cs out n)
            | inr ((cp, tail), e) ↦
                let l = read_escape_shorter cs tail cp e in
                read_loop_escape f size cp cs tail out e
                ∙ read_loop_fuel f g size tail (utf8_put size out cp) (omega (arith, l))
                    (omega (arith, l))
                ∙ sym (read_loop_escape g size cp cs tail out e)
          ])
  ]
]

-- Reading a JSON string is safe. For every text and every buffer of at least one byte: if
-- `jread_string` succeeds, then what it wrote leaves a byte of the buffer for the NUL, and it stopped
-- strictly behind where it began.
pub jread_string-Bounded :
    (p : Bytes) (size : ℕ)
    → 0 < size
    → (rest out : Bytes) → jread_string p size ≡ some (rest, out)
    → (length out < size) × (length rest < length p)
unfolding jread_string
jread_string-Bounded [] size h rest out e = absurd (cc)
jread_string-Bounded (c ∷ cs) size h rest out e = elim (Bool-cases (c == b'"')) [
  | inr q ↦ absurd (ground (arith, q, e))
  | inl q ↦
      let f : read_loop (suc (length cs)) size cs [] ≡ some (rest, out) = ground (arith, q, e) in
      let (x, y) = read_loop_bound (suc (length cs)) size cs [] rest out f h in
      (x, omega (arith, y))
]
