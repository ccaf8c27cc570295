-- ===== src/Request/Strict.antt =====
-- Line endings under the strict policy of src/http/http_parse.c.
use agent_httpd.Base.{
  ℕ, zero, suc, ◌-◌, Bool, true, false, not, ◌&&◌, none, some, [], ◌∷◌, ◌++◌, length, take, ◌==◌,
  if◌then◌else◌, and_then, and_then_inv, Bytes, drop_while, ◌≡◌, inl, inr, refl, sym, ap, subst,
  ◌∙◌, arith, Bool-cases, eq_of_some, guard-some, guard_not-some,
}
use agent_httpd.Request.{
  HttpRequest, consume_eol, is_eol, line_of, rest_of, starts_eol, header_loop, parse_headers,
  parse_header_line, request_line, max_path_size,
}
use agent_httpd.Request.Rounds.{behind_eol, header_loop_eol, header_loop_line, from_line}

-- Every carriage return and every line feed stands in a pair of them.
abbrev pub paired : Bytes → Bool
paired [] = true
paired (c ∷ []) = not (is_eol c)
paired (c ∷ d ∷ s) =
    let pair = d == b'\n' && paired s in
    let plain = paired (d ∷ s) in if c == b'\r' then pair else if c == b'\n' then false else plain

paired_plain : (c : ℕ) (s : Bytes) → is_eol c ≡ false → paired s ≡ true → paired (c ∷ s) ≡ true
paired_plain c [] h k = rw (h, not) refl
paired_plain c (d ∷ s) h k = ground (arith, h, k)

-- The part up to a body, all of its line endings paired.
abbrev Head : Bytes → Bytes → Type 0
Head s body = (head : Bytes) × (s ≡ head ++ body) × (paired head ≡ true)

Head-pair : (s body : Bytes) → Head s body → Head (b'\r' ∷ b'\n' ∷ s) body
Head-pair s body (h, e, p) = (b'\r' ∷ b'\n' ∷ h, ap (λ x. b'\r' ∷ b'\n' ∷ x) e, p)

rest_of_eol : (c : ℕ) (s : Bytes) → is_eol c ≡ true → rest_of (c ∷ s) ≡ c ∷ s
unfolding drop_while
rest_of_eol c s h = rw (h, not, if◌then◌else◌) refl

rest_of_plain : (c : ℕ) (s : Bytes) → is_eol c ≡ false → rest_of (c ∷ s) ≡ rest_of s
unfolding drop_while
rest_of_plain c s h = rw (h, not, if◌then◌else◌) refl

Head-line : (s body : Bytes) → Head (rest_of s) body → Head s body
unfolding drop_while
Head-line [] body h = h
Head-line (c ∷ s) body h = elim (Bool-cases (is_eol c)) [
  | inl k ↦ subst (λ x. Head x body) (rest_of_eol c s k) h
  | inr k ↦
      let (front, e, p) = Head-line s body (subst (λ x. Head x body) (rest_of_plain c s k) h) in
      (c ∷ front, ap (λ x. c ∷ x) e, paired_plain c front k p)
]

consume_strict :
    (s t : Bytes) → starts_eol s ≡ true → consume_eol false s ≡ some t → s ≡ b'\r' ∷ b'\n' ∷ t
unfolding consume_eol
consume_strict [] t h e = absurd (cc)
consume_strict (c ∷ []) t h e = absurd (ground (arith, h, e))
consume_strict (c ∷ d ∷ s) t h e = elim (Bool-cases (c == b'\r')) [
  | inr m ↦ absurd (ground (arith, h, e, m))
  | inl m ↦ elim (Bool-cases (d == b'\n')) [
    | inr n ↦ absurd (ground (arith, h, e, m, n))
    | inl n ↦
        let x : c ≡ b'\r' = ground arith in
        let y : d ≡ b'\n' = ground arith in
        let z : s ≡ t = eq_of_some (ground (arith, m, n, e)) in cc
  ]
]

behind_eol-Head :
    (spool fuel : ℕ) (r : HttpRequest) (t body : Bytes) (r' : HttpRequest)
    → (header_loop fuel false spool t r ≡ some (body, r') → Head t body)
    → behind_eol false spool fuel r t ≡ some (body, r')
    → Head t body
behind_eol-Head spool fuel r t body r' f e = elim (Bool-cases (starts_eol t)) [
  | inl k ↦
      let e' : and_then (consume_eol false t) (λ b. some (b, r)) ≡ some (body, r') =
        ap
          (λ x.
            if x
            then and_then (consume_eol false t) (λ b. some (b, r))
            else header_loop fuel false spool t r)
          (sym k)
        ∙ e in
      let (b, g, q) = and_then_inv (consume_eol false t) (λ b. some (b, r)) (body, r') e' in
      let same : b ≡ body = ap (λ x. x.0) (eq_of_some q) in
      (b'\r' ∷ b'\n' ∷ [], consume_strict t b k g ∙ ap (λ x. b'\r' ∷ b'\n' ∷ x) same, refl)
  | inr k ↦ f (
      ap
        (λ x.
          if x
          then and_then (consume_eol false t) (λ b. some (b, r))
          else header_loop fuel false spool t r)
        (sym k)
      ∙ e)
]

header_loop-Head :
    (fuel spool : ℕ) (s : Bytes) (r : HttpRequest) (body : Bytes) (r' : HttpRequest)
    → header_loop fuel false spool s r ≡ some (body, r')
    → Head s body
unfolding header_loop
header_loop-Head zero spool s r body r' e = absurd (cc)
header_loop-Head (suc fuel) spool [] r body r' e = absurd (cc)
header_loop-Head (suc fuel) spool (c ∷ s) r body r' e = elim (Bool-cases (is_eol c)) [
  | inl k ↦
      let (t, g, q) =
        and_then_inv (consume_eol false (c ∷ s)) (behind_eol false spool fuel r) (body, r')
          (sym (header_loop_eol false spool fuel c s r k) ∙ e) in
      let h =
        behind_eol-Head spool fuel r t body r' (λ x. header_loop-Head fuel spool t r body r' x) q in
      subst (λ x. Head x body) (sym (consume_strict (c ∷ s) t k g)) (Head-pair t body h)
  | inr k ↦
      let rest = rest_of (c ∷ s) in
      let r1 = parse_header_line spool (take (max_path_size - 1) (line_of (c ∷ s))) r in
      let (_, q) =
        guard-some (starts_eol rest) (header_loop fuel false spool rest r1) (body, r')
          (sym (header_loop_line false spool fuel c s r k) ∙ e) in
      Head-line (c ∷ s) body (header_loop-Head fuel spool rest r1 body r' q)
]

-- No bare line ending under the strict policy. For every input and request: if the parser succeeds,
-- then the input is the head it consumed and the body it points to, and in the head every carriage
-- return and every line feed stands in a pair of the two.
pub parse_headers-paired :
    (spool : ℕ) (raw : Bytes) (r r' : HttpRequest) (body : Bytes)
    → parse_headers false spool raw r ≡ some (body, r')
    → (head : Bytes) × (raw ≡ head ++ body) × (paired head ≡ true)
unfolding parse_headers
parse_headers-paired spool raw r r' body e =
    let loop = from_line false spool r raw in
    let (_, f) =
      guard_not-some (starts_eol raw) (if starts_eol (rest_of raw) then loop else none) (body, r')
        (e) in
    let (_, g) = guard-some (starts_eol (rest_of raw)) loop (body, r') f in
    let (r1, _, q) =
      and_then_inv (request_line (take max_path_size (line_of raw)) r)
        (λ x. header_loop (suc (length (rest_of raw))) false spool (rest_of raw) x) (body, r') g in
    Head-line raw body
      (header_loop-Head (suc (length (rest_of raw))) spool (rest_of raw) r1 body r' q)
