-- ===== src/Json/RoundTrip.antt =====
-- Reading back what was written: `sb_json_str` and `jread_string` of src/core/minijson.c.
use agent_httpd.Base.{
  ℕ, zero, suc, ◌^◌, Bool, false, ◌+◌, ◌*◌, ◌/◌, ◌%◌, ◌≤◌, ◌<◌, true, false, some, [], ◌∷◌, ◌++◌,
  append-nil, append_assoc, length, length-append, ltb, ◌==◌, if◌then◌else◌, Bytes, ◌≡◌, ◌≢◌, refl,
  ap, sym, ◌∙◌, arith, inl, inr, ◌⊎◌, Bool-cases,
}
use agent_httpd.Json.{
  is_xdigit, hex_value, hex4, put_byte, put_bytes, utf8, utf8_put, between, read_unicode,
  read_escape, read_loop, jread_string,
}
use agent_httpd.Json.Buffer.{Sbuf, IsBuffer}
use agent_httpd.Json.Writer.{
  nibble, escape, json_body, json_string, sb_json_str, sb_json_str-Appended,
}

nibble-is_xdigit : (d : ℕ) → d < 16 → is_xdigit (nibble d) ≡ true
nibble-is_xdigit d h = ground arith

nibble-hex_value : (d : ℕ) → d < 16 → hex_value (nibble d) ≡ d
nibble-hex_value d h = ground arith

escaped_step :
    (fuel size c : ℕ) (cs rest out : Bytes)
    → read_escape cs ≡ some (c, rest)
    → c < 0x80
    → read_loop (suc fuel) size (b'\\' ∷ cs) out ≡ read_loop fuel size rest (put_byte size out c)
unfolding read_loop utf8_put utf8 put_bytes
escaped_step fuel size c cs rest out e h =
    let t : ltb c 0x80 ≡ true = ground arith in rw (e, t, if◌then◌else◌) refl

hex4_digits :
    (a b v : ℕ) (tail : Bytes)
    → is_xdigit a ≡ true
    → is_xdigit b ≡ true
    → hex_value a * 16 + hex_value b ≡ v
    → hex4 (b'0' ∷ b'0' ∷ a ∷ b ∷ tail) ≡ some (v, tail)
unfolding hex4
hex4_digits a b v tail p q e = ground arith

read_unicode_low :
    (p rest : Bytes) (c : ℕ) → hex4 p ≡ some (c, rest) → c < 0x20 → read_unicode p ≡ some (c, rest)
unfolding read_unicode
read_unicode_low p rest c e h =
    let s : between 0xD800 0xDBFF c ≡ false = ground arith in
    let n : between 0xD800 0xDFFF c ≡ false = ground arith in ground (arith, e, s, n)

control_escape :
    (c : ℕ) (tail : Bytes)
    → c < 0x20
    → read_escape (b'u' ∷ b'0' ∷ b'0' ∷ nibble (c / 16) ∷ nibble (c % 16) ∷ tail) ≡ some (c, tail)
unfolding read_escape
control_escape c tail h =
    let hi : c / 16 < 16 = omega arith in
    let lo : c % 16 < 16 = omega arith in
    let v : hex_value (nibble (c / 16)) * 16 + hex_value (nibble (c % 16)) ≡ c =
      omega (arith, nibble-hex_value (c / 16) hi, nibble-hex_value (c % 16) lo) in
    read_unicode_low _ tail c
      (hex4_digits (nibble (c / 16)) (nibble (c % 16)) c tail (nibble-is_xdigit (c / 16) hi)
        (nibble-is_xdigit (c % 16) lo) v)
      h

plain_step :
    (fuel size c : ℕ) (cs out : Bytes)
    → c ≢ b'"'
    → c ≢ b'\\'
    → read_loop (suc fuel) size (c ∷ cs) out ≡ read_loop fuel size cs (put_byte size out c)
unfolding read_loop
plain_step fuel size c cs out p q =
    let x : (c == b'"') ≡ false = ground arith in
    let y : (c == b'\\') ≡ false = ground arith in rw (x, y, if◌then◌else◌) refl

abbrev Escaped : ℕ → Bytes → Type 0
Escaped c tail =
    (cs : Bytes) × (escape c ++ tail ≡ b'\\' ∷ cs) × (read_escape cs ≡ some (c, tail)) × (c < 0x80)

short_escape :
    (c x : ℕ) (tail : Bytes)
    → escape c ≡ b'\\' ∷ x ∷ []
    → read_escape (x ∷ tail) ≡ some (c, tail)
    → c < 0x80
    → Escaped c tail
short_escape c x tail e r h = (x ∷ tail, ap (λ t. t ++ tail) e, r, h)

control_text :
    (c : ℕ)
    → c < 0x20
    → c ≢ 8
    → c ≢ 12
    → c ≢ b'\n'
    → c ≢ b'\r'
    → c ≢ b'\t'
    → escape c ≡ b'\\' ∷ b'u' ∷ b'0' ∷ b'0' ∷ nibble (c / 16) ∷ nibble (c % 16) ∷ []
unfolding escape
control_text c h h8 h12 hn hr ht = ground arith

escape-cases :
    (c : ℕ) (tail : Bytes) → Escaped c tail ⊎ ((escape c ≡ c ∷ []) × (c ≢ b'"') × (c ≢ b'\\'))
unfolding escape read_escape
escape-cases c tail = elim (Bool-cases (c == b'"')) [
  | inl e ↦ inl (short_escape c b'"' tail (ground arith) (ground arith) (ground arith))
  | inr n1 ↦ elim (Bool-cases (c == b'\\')) [
    | inl e ↦ inl (short_escape c b'\\' tail (ground arith) (ground arith) (ground arith))
    | inr n2 ↦ elim (Bool-cases (c == 8)) [
      | inl e ↦ inl (short_escape c b'b' tail (ground arith) (ground arith) (ground arith))
      | inr n3 ↦ elim (Bool-cases (c == 12)) [
        | inl e ↦ inl (short_escape c b'f' tail (ground arith) (ground arith) (ground arith))
        | inr n4 ↦ elim (Bool-cases (c == b'\n')) [
          | inl e ↦ inl (short_escape c b'n' tail (ground arith) (ground arith) (ground arith))
          | inr n5 ↦ elim (Bool-cases (c == b'\r')) [
            | inl e ↦ inl (short_escape c b'r' tail (ground arith) (ground arith) (ground arith))
            | inr n6 ↦ elim (Bool-cases (c == b'\t')) [
              | inl e ↦ inl (short_escape c b't' tail (ground arith) (ground arith) (ground arith))
              | inr n7 ↦ elim (Bool-cases (ltb c 0x20)) [
                | inl l ↦ inl (
                  _,
                  ap (λ t. t ++ tail)
                      (control_text c (ground arith) (ground arith) (ground arith) (ground arith)
                        (ground arith) (ground arith)),
                  control_escape c tail (ground arith),
                  ground arith,
                )
                | inr n8 ↦ inr (ground arith, ground arith, ground arith)
              ]
            ]
          ]
        ]
      ]
    ]
  ]
]

-- One escaped byte is read back in one round.
escape_step :
    (fuel size c : ℕ) (tail out : Bytes)
    → read_loop (suc fuel) size (escape c ++ tail) out
      ≡ read_loop fuel size tail (put_byte size out c)
escape_step fuel size c tail out = elim (escape-cases c tail) [
  | inl (cs, e, r, h) ↦
      ap (λ p. read_loop (suc fuel) size p out) e ∙ escaped_step fuel size c cs tail out r h
  | inr (e, p, q) ↦
      ap (λ t. read_loop (suc fuel) size (t ++ tail) out) e ∙ plain_step fuel size c tail out p q
]

read_quote :
    (fuel size : ℕ) (rest out : Bytes)
    → read_loop (suc fuel) size (b'"' ∷ rest) out ≡ some (rest, out ++ [])
unfolding read_loop
read_quote fuel size rest out = ap (λ o. some (rest, o)) (sym (append-nil out))

body_read :
    (fuel size : ℕ) (s rest out : Bytes)
    → length s < fuel
    → length out + length s < size
    → read_loop fuel size (json_body s ++ b'"' ∷ rest) out ≡ some (rest, out ++ s)
unfolding json_body
body_read zero size s rest out h k = absurd (omega arith)
body_read (suc fuel) size [] rest out h k = read_quote fuel size rest out
body_read (suc fuel) size (c ∷ cs) rest out h k =
    let q : put_byte size out c ≡ out ++ c ∷ [] = ground arith in
    let l = length-append out (c ∷ []) in
    ap (λ p. read_loop (suc fuel) size p out) (append_assoc (escape c) (json_body cs) (b'"' ∷ rest))
    ∙ escape_step fuel size c (json_body cs ++ b'"' ∷ rest) out
    ∙ ap (λ o. read_loop fuel size (json_body cs ++ b'"' ∷ rest) o) q
    ∙ body_read fuel size cs rest (out ++ c ∷ []) (omega arith) (omega (arith, l))
    ∙ ap (λ o. some (rest, o)) (append_assoc out (c ∷ []) cs)

length-escape : (c : ℕ) → 1 ≤ length (escape c)
length-escape c = elim (escape-cases c []) [
  | inl (cs, e, r, h) ↦ omega (arith, ap length e, length-append (escape c) [])
  | inr (e, p, q) ↦ omega (arith, ap length e)
]

length-json_body : (s : Bytes) → length s ≤ length (json_body s)
unfolding json_body
length-json_body [] = omega arith
length-json_body (c ∷ cs) =
    omega (arith, length-json_body cs, length-append (escape c) (json_body cs), length-escape c)

jread_string-json_string :
    (s rest : Bytes) (size : ℕ)
    → length s < size
    → jread_string (json_string s ++ rest) size ≡ some (rest, s)
unfolding jread_string
jread_string-json_string s rest size h =
    let a = append_assoc (json_body s) (b'"' ∷ []) rest in
    let l = length-append (json_body s) (b'"' ∷ rest) in
    ap (λ p. read_loop (suc (length p)) size p []) a
    ∙ body_read (suc (length (json_body s ++ b'"' ∷ rest))) size s rest []
        (omega (arith, l, length-json_body s)) (omega arith)

length-escape_bound : (c : ℕ) → length (escape c) ≤ 6
unfolding escape
length-escape_bound c = ground arith

length-json_body_bound : (s : Bytes) → length (json_body s) ≤ 6 * length s
unfolding json_body
length-json_body_bound [] = omega arith
length-json_body_bound (c ∷ cs) = omega (
  arith,
  length-json_body_bound cs,
  length-append (escape c) (json_body cs),
  length-escape_bound c,
)

-- Reading back a written string. For every valid buffer whose memory has not run out, every string and
-- every text behind it, where the bytes held, six for each of the string, and three more are at most
-- 2 ^ 63: `sb_json_str` returns, and either memory ran out, or it has appended a text from which
-- `jread_string`, with a buffer longer than the string and anything behind the text, reads the string as
-- it was and stops right behind that text.
pub jread_string-sb_json_str :
    (realloc : ℕ → Bool) (b : Sbuf) (s rest : Bytes) (size : ℕ)
    → IsBuffer b
    → b.oom ≡ false
    → length b.bytes + 6 * length s + 3 ≤ 2 ^ 63
    → length s < size
    → (b' : Sbuf) × (sb_json_str realloc b s ≡ some b')
      × ((b'.oom ≡ true)
          ⊎ ((b'.oom ≡ false)
              × ((text : Bytes) × (b'.bytes ≡ b.bytes ++ text)
                  × (jread_string (text ++ rest) size ≡ some (rest, s)))))
jread_string-sb_json_str realloc b s rest size v q h k =
    let l = length-append (json_body s) (b'"' ∷ []) in
    let m = length-json_body_bound s in
    let (b', e, a) = sb_json_str-Appended realloc b s v q (omega (arith, h, l, m)) in
    (
      b',
      e,
      elim a.result [
        | inl lost ↦ inl lost
        | inr (kept, all) ↦ inr (kept, (json_string s, all, jread_string-json_string s rest size k))
      ],
    )
