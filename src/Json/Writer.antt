-- ===== src/Json/Writer.antt =====
-- The writers on the buffer: `sb_str`, `sb_chr` and `sb_json_str` of src/core/minijson.c.
use agent_httpd.Base.{
  ℕ, ◌+◌, ◌-◌, ◌/◌, ◌%◌, ◌^◌, ◌≤◌, Bool, true, false, Option, some, [], ◌∷◌, ◌++◌, append-nil,
  append_assoc, length, length-append, ltb, ◌==◌, if◌then◌else◌, Bytes, ◌≡◌, ◌⊎◌, inl, inr, refl,
  sym, ap, ◌∙◌, arith, and_then, and_then-some,
}
use agent_httpd.Json.Buffer.{Sbuf, IsBuffer, sb_reserve, sb_mem, sb_mem-Wrote}

abbrev pub sb_chr : (ℕ → Bool) → Sbuf → ℕ → Option Sbuf
sb_chr realloc b c = sb_mem realloc b (c ∷ [])

-- A digit of `%04x`.
abbrev pub nibble : ℕ → ℕ
nibble d = if ltb d 10 then b'0' + d else b'a' + d - 10

-- What the `switch` writes for one byte.
unfoldable pub escape : ℕ → Bytes
escape c =
    if c == b'"'
    then b'\\' ∷ b'"' ∷ []
    else if c == b'\\'
    then b'\\' ∷ b'\\' ∷ []
    else if c == 8
    then b'\\' ∷ b'b' ∷ []
    else if c == 12
    then b'\\' ∷ b'f' ∷ []
    else if c == b'\n'
    then b'\\' ∷ b'n' ∷ []
    else if c == b'\r'
    then b'\\' ∷ b'r' ∷ []
    else if c == b'\t'
    then b'\\' ∷ b't' ∷ []
    else if ltb c 0x20
    then b'\\' ∷ b'u' ∷ b'0' ∷ b'0' ∷ nibble (c / 16) ∷ nibble (c % 16) ∷ []
    else c ∷ []

-- The `for` loop.
unfoldable pub write_chars : (ℕ → Bool) → Sbuf → Bytes → Option Sbuf
write_chars realloc b [] = some b
write_chars realloc b (c ∷ cs) =
    and_then (sb_mem realloc b (escape c)) (λ b'. write_chars realloc b' cs)

-- `sb_json_str`.
unfoldable pub sb_json_str : (ℕ → Bool) → Sbuf → Bytes → Option Sbuf
sb_json_str realloc b s =
    and_then (sb_chr realloc b b'"')
      (λ b1. and_then (write_chars realloc b1 s) (λ b2. sb_chr realloc b2 b'"'))

-- The text between the quotes.
unfoldable pub json_body : Bytes → Bytes
json_body [] = []
json_body (c ∷ cs) = escape c ++ json_body cs

-- The JSON text of a C string.
abbrev pub json_string : Bytes → Bytes
json_string s = b'"' ∷ json_body s ++ b'"' ∷ []

-- What a chain of writes leaves: out of memory, or the whole text appended.
pub record Appended (b b' : Sbuf) (s : Bytes) : Type 0 where
  pub valid : IsBuffer b'
  pub result : (b'.oom ≡ true) ⊎ ((b'.oom ≡ false) × (b'.bytes ≡ b.bytes ++ s))

module _ (realloc : ℕ → Bool) where
  sb_mem_oom : (b : Sbuf) (s : Bytes) → b.oom ≡ true → sb_mem realloc b s ≡ some b
  unfolding sb_mem sb_reserve
  sb_mem_oom b s q = ground arith

  write_chars_oom : (b : Sbuf) (s : Bytes) → b.oom ≡ true → write_chars realloc b s ≡ some b
  unfolding write_chars
  write_chars_oom b [] q = refl
  write_chars_oom b (c ∷ cs) q =
      and_then-some (λ b'. write_chars realloc b' cs) (sb_mem_oom b (escape c) q)
      ∙ write_chars_oom b cs q

  write_chars-Appended :
      (b : Sbuf) (s : Bytes)
      → IsBuffer b
      → b.oom ≡ false
      → length b.bytes + length (json_body s) + 1 ≤ 2 ^ 63
      → (b' : Sbuf) × (write_chars realloc b s ≡ some b') × Appended b b' (json_body s)
  unfolding write_chars json_body
  write_chars-Appended b [] v q h =
      (b, refl, record { valid = v; result = inr (q, sym (append-nil b.bytes)) })
  write_chars-Appended b (c ∷ cs) v q h =
      let l = length-append (escape c) (json_body cs) in
      let (m, e, w) = sb_mem-Wrote realloc b (escape c) v (omega (arith, l)) in
      elim w.result [
        | inl (lost, _) ↦ (
          m,
          and_then-some (λ b'. write_chars realloc b' cs) e ∙ write_chars_oom m cs lost,
          record { valid = w.valid; result = inl lost },
        )
        | inr (got, text) ↦
            let k = length-append b.bytes (escape c) in
            let (r, f, a) =
              write_chars-Appended m cs w.valid got (omega (arith, l, k, ap length text)) in
            (
              r,
              and_then-some (λ b'. write_chars realloc b' cs) e ∙ f,
              record {
                valid = a.valid;
                result = elim a.result [
                  | inl lost ↦ inl lost
                  | inr (kept, all) ↦ inr (
                    kept,
                    all
                        ∙ ap (λ x. x ++ json_body cs) text
                        ∙ append_assoc b.bytes (escape c) (json_body cs),
                  )
                ];
              },
            )
      ]

  sb_json_str_run :
      (b m r : Sbuf) (s : Bytes)
      → sb_chr realloc b b'"' ≡ some m
      → write_chars realloc m s ≡ some r
      → sb_json_str realloc b s ≡ sb_chr realloc r b'"'
  unfolding sb_json_str
  sb_json_str_run b m r s e f =
      and_then-some (λ b1. and_then (write_chars realloc b1 s) (λ b2. sb_chr realloc b2 b'"')) e
      ∙ and_then-some (λ b2. sb_chr realloc b2 b'"') f

  -- Writing a JSON string at the end of a buffer with memory left, for every C string: if the text
  -- ends below 2 ^ 63 bytes, then `sb_json_str` returns, and either memory ran out or the quoted and
  -- escaped text stands behind what the buffer held.
  pub sb_json_str-Appended :
      (b : Sbuf) (s : Bytes)
      → IsBuffer b
      → b.oom ≡ false
      → length b.bytes + length (json_string s) + 1 ≤ 2 ^ 63
      → (b' : Sbuf) × (sb_json_str realloc b s ≡ some b') × Appended b b' (json_string s)
  sb_json_str-Appended b s v q h =
      let l = length-append (json_body s) (b'"' ∷ []) in
      let (m, e, w) = sb_mem-Wrote realloc b (b'"' ∷ []) v (omega (arith, l)) in
      elim w.result [
        | inl (lost, _) ↦ (
          m,
          sb_json_str_run b m m s e (write_chars_oom m s lost) ∙ sb_mem_oom m (b'"' ∷ []) lost,
          record { valid = w.valid; result = inl lost },
        )
        | inr (got, text) ↦
            let k = length-append b.bytes (b'"' ∷ []) in
            let (r, f, a) =
              write_chars-Appended m s w.valid got (omega (arith, l, k, ap length text)) in
            elim a.result [
              | inl lost ↦ (
                r,
                sb_json_str_run b m r s e f ∙ sb_mem_oom r (b'"' ∷ []) lost,
                record { valid = a.valid; result = inl lost },
              )
              | inr (kept, all) ↦
                  let all' =
                    all
                    ∙ ap (λ x. x ++ json_body s) text
                    ∙ append_assoc b.bytes (b'"' ∷ []) (json_body s) in
                  let k' = length-append b.bytes (b'"' ∷ json_body s) in
                  let (z, g, t) =
                    sb_mem-Wrote realloc r (b'"' ∷ []) a.valid
                      (omega (arith, l, k', ap length all')) in
                  (
                    z,
                    sb_json_str_run b m r s e f ∙ g,
                    record {
                      valid = t.valid;
                      result = elim t.result [
                        | inl (lost, _) ↦ inl lost
                        | inr (kept', end) ↦ inr (
                          kept',
                          end
                              ∙ ap (λ x. x ++ b'"' ∷ []) all'
                              ∙ append_assoc b.bytes (b'"' ∷ json_body s) (b'"' ∷ []),
                        )
                      ];
                    },
                  )
            ]
      ]
