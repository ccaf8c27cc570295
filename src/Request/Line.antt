-- ===== src/Request/Line.antt =====
-- The request line and its tokens: the `sscanf` call of src/http/http_parse.c.
use agent_httpd.Base.{
  ℕ, zero, suc, ◌≤◌, Bool, true, false, not, ◌&&◌, Option, some, [], ◌∷◌, ◌++◌, append-nil, length,
  if◌then◌else◌, and_then, and_then-some, Bytes, is_whitespace, drop_while, ◌≡◌, refl, sym, ap, ◌∙◌,
  arith, and_right, pair_eq,
}
use agent_httpd.Request.{HttpRequest, take_token, some_token, token, request_line}

abbrev pub no_blank : Bytes → Bool
no_blank [] = true
no_blank (c ∷ s) = not (is_whitespace c) && no_blank s

abbrev pub filled : Bytes → Bool
filled [] = false
filled (c ∷ s) = true

-- A word: not empty, without blanks, short enough for a conversion of at most `n` bytes.
pub record IsWord (n : ℕ) (t : Bytes) : Type 0 where
  pub some_byte : filled t ≡ true
  pub plain : no_blank t ≡ true
  pub short : length t ≤ n

-- What ends a word: the end of the text, or a blank.
abbrev pub ends : Bytes → Bool
ends [] = true
ends (c ∷ s) = is_whitespace c

take_token_word :
    (n : ℕ) (t rest : Bytes)
    → no_blank t ≡ true
    → length t ≤ n
    → ends rest ≡ true
    → take_token n (t ++ rest) ≡ (t, rest)
unfolding take_token
take_token_word zero [] rest h k e = refl
take_token_word zero (c ∷ t) rest h k e = absurd (omega (arith, k))
take_token_word (suc n) [] [] h k e = refl
take_token_word (suc n) [] (c ∷ s) h k e = rw (e, if◌then◌else◌) refl
take_token_word (suc n) (c ∷ t) rest h k e =
    let b : is_whitespace c ≡ false = ground (arith, h) in
    let f =
      take_token_word n t rest (and_right (not (is_whitespace c)) (no_blank t) h) (omega (arith, k))
        e in
    rw (b, if◌then◌else◌) (pair_eq (ap (λ x. c ∷ x.0) f) (ap (λ x. x.1) f))

skip_nothing :
    (t rest : Bytes)
    → filled t ≡ true
    → no_blank t ≡ true
    → drop_while is_whitespace (t ++ rest) ≡ t ++ rest
unfolding drop_while
skip_nothing [] rest h k = absurd (cc)
skip_nothing (c ∷ t) rest h k =
    let b : is_whitespace c ≡ false = ground (arith, k) in rw (b, if◌then◌else◌) refl

some_filled : (t rest : Bytes) → filled t ≡ true → some_token (t, rest) ≡ some (t, rest)
some_filled [] rest h = absurd (cc)
some_filled (c ∷ t) rest h = refl

token_word :
    (n : ℕ) (t rest : Bytes) → IsWord n t → ends rest ≡ true → token n (t ++ rest) ≡ some (t, rest)
unfolding token
token_word n t rest h e =
    ap (λ s. some_token (take_token n s)) (skip_nothing t rest h.some_byte h.plain)
    ∙ ap some_token (take_token_word n t rest h.plain h.short e)
    ∙ some_filled t rest h.some_byte

token_blank : (n : ℕ) (s : Bytes) → token n (b' ' ∷ s) ≡ token n s
unfolding token drop_while
token_blank n s = refl

token_last : (n : ℕ) (t : Bytes) → IsWord n t → token n t ≡ some (t, [])
token_last n t h = ap (token n) (sym (append-nil t)) ∙ token_word n t [] h refl

abbrev pub words : Bytes → Bytes → Bytes → Bytes
words m p v = m ++ (b' ' ∷ p ++ b' ' ∷ v)

pub request_line-words :
    (m p v : Bytes) (r : HttpRequest)
    → IsWord 15 m
    → IsWord 1023 p
    → IsWord 15 v
    → request_line (words m p v) r ≡ some (record r { method = m; path = p; protocol = v })
unfolding request_line
request_line-words m p v r hm hp hv =
    let last : Bytes → Bytes → Bytes → Option HttpRequest =
      λ x y z. some (record r { method = x; path = y; protocol = z }) in
    and_then-some
      (λ a. and_then (token 1023 a.1) (λ b. and_then (token 15 b.1) (λ c. last a.0 b.0 c.0)))
      (token_word 15 m (b' ' ∷ p ++ b' ' ∷ v) hm refl)
    ∙ and_then-some (λ b. and_then (token 15 b.1) (λ c. last m b.0 c.0))
        (token_blank 1023 (p ++ b' ' ∷ v) ∙ token_word 1023 p (b' ' ∷ v) hp refl)
    ∙ and_then-some (λ c. last m p c.0) (token_blank 15 v ∙ token_last 15 v hv)
