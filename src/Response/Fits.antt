-- ===== src/Response/Fits.antt =====
-- The serializer's cursor and what it writes: src/http/http_resp.c.
use agent_httpd.Base.{
  ℕ, ◌+◌, ◌-◌, ◌<◌, min, Bool, true, false, Option, none, some, List, [], ◌∷◌, ◌++◌, append_assoc,
  append-nil, length, length-append, take, take_all, ltb, leb, if◌then◌else◌, and_then,
  and_then-some, Bytes, ◌≡◌, inl, inr, refl, sym, ap, ◌∙◌, arith, Bool-cases, pair_eq,
}
use agent_httpd.Response.{
  HttpResponse, Settings, Line, header_lines, emit, emit_all, max_response_size, Built, copy_body,
  put_body, build_response,
}

-- The lines that are written, one after another.
abbrev pub text_of : List Line → Bytes
text_of [] = []
text_of ((true, t) ∷ ls) = t ++ text_of ls
text_of ((false, t) ∷ ls) = text_of ls

emit_fits :
    (t : Bytes) (p : ℕ) (out : Bytes)
    → p + length t < max_response_size
    → emit t (p, out) ≡ some (p + length t, out ++ t)
unfolding emit
emit_fits t p out h =
    let e : ltb max_response_size p ≡ false = ground (arith, h) in
    rw (e, if◌then◌else◌)
      (ap (λ x. some (p + length t, out ++ x))
        (take_all (max_response_size - p - 1) t (omega (arith, h))))

emit_all-text_of :
    (ls : List Line) (p : ℕ) (out : Bytes)
    → p + length (text_of ls) < max_response_size
    → emit_all ls (p, out) ≡ some (p + length (text_of ls), out ++ text_of ls)
unfolding emit_all
emit_all-text_of [] p out h = ap some (pair_eq (omega arith) (sym (append-nil out)))
emit_all-text_of ((false, t) ∷ ls) p out h = emit_all-text_of ls p out h
emit_all-text_of ((true, t) ∷ ls) p out h =
    let n = length-append t (text_of ls) in
    and_then-some (emit_all ls) (emit_fits t p out (omega (arith, h, n)))
    ∙ emit_all-text_of ls (p + length t) (out ++ t) (omega (arith, h, n))
    ∙ ap some (pair_eq (omega (arith, n)) (append_assoc out t (text_of ls)))

-- The bytes of the body that are sent: none of a HEAD, and no more than the buffer has left.
abbrev pub sent : Bool → Option Bytes → ℕ → ℕ → ℕ
sent head_only none n p = 0
sent head_only (some body) n p = if head_only then 0 else min n (max_response_size - 1 - p)

abbrev pub body_bytes : Option Bytes → Bytes
body_bytes none = []
body_bytes (some body) = body

built_eq :
    {a a' : Bytes} {b b' c c' : ℕ}
    → a ≡ a'
    → b ≡ b'
    → c ≡ c'
    → ◌≡◌ {A = Option Built} (some (a, b, c)) (some (a', b', c'))
built_eq e f g = λ i. some (e i, f i, g i)

no_body :
    (p : ℕ) (out body : Bytes) (n : ℕ)
    → n ≡ 0
    → ◌≡◌ {A = Option Built} (some (out, p, 0)) (some (out ++ take n body, p + n, n))
no_body p out body n h =
    built_eq (sym (append-nil out) ∙ ap (λ x. out ++ take x body) (sym h)) (omega (arith, h))
      (sym h)

copy_body-sent :
    (body : Bytes) (n p : ℕ) (out : Bytes)
    → p < max_response_size
    → copy_body body n (p, out)
      ≡ some (
        out ++ take (min n (max_response_size - 1 - p)) body,
        p + min n (max_response_size - 1 - p),
        min n (max_response_size - 1 - p),
      )
copy_body-sent body n p out h = elim (Bool-cases (leb (p + n) (max_response_size - 1))) [
  | inl e ↦
      let m : n ≡ min n (max_response_size - 1 - p) = ground (arith, e) in
      rw (e, if◌then◌else◌) (built_eq (ap (λ x. out ++ take x body) m) (ap (λ x. p + x) m) m)
  | inr e ↦
      let k : leb p (max_response_size - 1) ≡ true = ground (arith, h) in
      let m : max_response_size - 1 - p ≡ min n (max_response_size - 1 - p) =
        ground (arith, e, h) in
      rw (e, k, if◌then◌else◌) (built_eq (ap (λ x. out ++ take x body) m) (omega (arith, m, h)) m)
]

put_body-sent :
    (head_only : Bool) (body : Option Bytes) (n p : ℕ) (out : Bytes)
    → p < max_response_size
    → put_body head_only body n (p, out)
      ≡ some (
        out ++ take (sent head_only body n p) (body_bytes body),
        p + sent head_only body n p,
        sent head_only body n p,
      )
put_body-sent head_only none n p out h = no_body p out [] 0 refl
put_body-sent true (some body) n p out h = no_body p out body 0 refl
put_body-sent false (some body) n p out h = elim (Bool-cases (ltb 0 n)) [
  | inl e ↦ rw (e, if◌then◌else◌) (copy_body-sent body n p out h)
  | inr e ↦
      let m : min n (max_response_size - 1 - p) ≡ 0 = ground (arith, e) in
      rw (e, if◌then◌else◌) (no_body p out body (min n (max_response_size - 1 - p)) m)
]

-- The header text, what fits of the body behind it, its length, and the length of that part.
abbrev pub whole : Bytes → Bool → Option Bytes → ℕ → Built
whole text head_only body n = (
  text ++ take (sent head_only body n (length text)) (body_bytes body),
  length text + sent head_only body n (length text),
  sent head_only body n (length text),
)

lines_whole :
    (ls : List Line) (head_only : Bool) (body : Option Bytes) (n : ℕ)
    → length (text_of ls) < max_response_size
    → and_then (emit_all ls (0, [])) (put_body head_only body n)
      ≡ some (whole (text_of ls) head_only body n)
lines_whole ls head_only body n h =
    let k = length (text_of ls) in
    and_then-some (put_body head_only body n) (emit_all-text_of ls 0 [] (omega (arith, h)))
    ∙ ap (λ x. put_body head_only body n (x, text_of ls)) (omega arith)
    ∙ put_body-sent head_only body n k (text_of ls) h

-- The response in full. For every response whose header lines, one after another, are shorter than the
-- buffer: the serializer writes them all, behind them as much of the body as the buffer has left
-- before its last byte (nothing for a HEAD), and answers with that length and that part; the cursor
-- never leaves the buffer.
pub build_response-whole :
    (e : Settings) (r : HttpResponse) (head_only keep_alive : Bool)
    → length (text_of (header_lines e keep_alive r)) < max_response_size
    → build_response e r head_only keep_alive
      ≡ some (whole (text_of (header_lines e keep_alive r)) head_only r.body r.body_length)
unfolding build_response
build_response-whole e r head_only keep_alive h =
    lines_whole (header_lines e keep_alive r) head_only r.body r.body_length h
