-- ===== src/Auth/Sessions/Cookies.antt =====
-- The Cookie header as a list of cookies, and `session_cookie_tokens` of src/security/auth.c.
use agent_httpd.Base.{
  ℕ, ◌≤◌, ◌<◌, Bool, true, false, not, ◌&&◌, ◌||◌, Option, none, some, List, [], ◌∷◌, ◌++◌, length,
  ◌==◌, if◌then◌else◌, and_then, Bytes, All, All-append, Lacks, same, past, before, drop_while,
  before-append, past-append, before-Lacks, past-Lacks, ◌≡◌, refl, ap, arith, length-append,
}
use agent_httpd.Auth.Sessions.{is_tab_or_space, drop_first, drop_last, cookie_value, value_named}

-- A name and a value.
abbrev pub Cookie : Type 0
Cookie = Bytes × Bytes

abbrev pub cookie_text : Cookie → Bytes
cookie_text c = c.0 ++ (b'=' ∷ c.1)

-- The header, with a semicolon and a space between the cookies.
unfoldable pub cookie_header : List Cookie → Bytes
cookie_header [] = []
cookie_header (c ∷ []) = cookie_text c
cookie_header (c ∷ d ∷ cs) = cookie_text c ++ (b';' ∷ b' ' ∷ cookie_header (d ∷ cs))

abbrev pub is_cookie_part : ℕ → Bool
is_cookie_part c = not (c == b';' || c == b' ' || c == b'\t' || c == b'"')

-- A cookie whose value has no byte that is trimmed and, if it has the session's name, 1 to 32 bytes.
pub record IsCookie (name : Bytes) (c : Cookie) : Type 0 where
  pub name_bytes : All (λ x. (is_cookie_part x && not (x == b'=')) ≡ true) c.0
  pub value_bytes : All (λ x. is_cookie_part x ≡ true) c.1
  pub sized : same c.0 name ≡ true → (0 < length c.1) × (length c.1 ≤ 32)

-- The values of 32 bytes that have the name.
unfoldable pub tokens_of : Bytes → List Cookie → List Bytes
tokens_of name [] = []
tokens_of name (c ∷ cs) =
    let rest = tokens_of name cs in if same c.0 name && length c.1 == 32 then c.1 ∷ rest else rest

weaken :
    (p q : ℕ → Bool) (x : ℕ) (s : Bytes)
    → ((c : ℕ) → p c ≡ true → Lacks x c)
    → All (λ c. p c ≡ true) s
    → All (Lacks x) s
weaken p q x [] f h = tt
weaken p q x (c ∷ s) f (h, hs) = (f c h, weaken p q x s f hs)

abbrev is_name_part : ℕ → Bool
is_name_part c = is_cookie_part c && not (c == b'=')

module _ {name : Bytes} {c : Cookie} (h : IsCookie name c) where
  name_no_equals : All (Lacks b'=') c.0
  name_no_equals = weaken is_name_part is_name_part b'=' c.0 (λ x k. ground (arith, k)) h.name_bytes

  text_no_semicolon : All (Lacks b';') (cookie_text c)
  text_no_semicolon =
      All-append (Lacks b';') c.0 (b'=' ∷ c.1)
        (weaken is_name_part is_name_part b';' c.0 (λ x k. ground (arith, k)) h.name_bytes)
        (
          refl,
          weaken is_cookie_part is_cookie_part b';' c.1 (λ x k. ground (arith, k)) h.value_bytes,
        )

drop_last-Lacks : (x : ℕ) (s : Bytes) → All (Lacks x) s → drop_last x s ≡ s
unfolding drop_last
drop_last-Lacks x [] h = refl
drop_last-Lacks x (c ∷ []) (h, hs) = rw (h, if◌then◌else◌) refl
drop_last-Lacks x (c ∷ d ∷ s) (h, hs) = ap (◌∷◌ c) (drop_last-Lacks x (d ∷ s) hs)

drop_first-Lacks : (x : ℕ) (s : Bytes) → All (Lacks x) s → drop_first x s ≡ s
drop_first-Lacks x [] h = refl
drop_first-Lacks x (c ∷ s) (h, hs) = rw (h, if◌then◌else◌) refl

no_blank : (s : Bytes) → All (λ x. is_cookie_part x ≡ true) s → drop_while is_tab_or_space s ≡ s
unfolding drop_while
no_blank [] h = refl
no_blank (c ∷ s) (h, hs) =
    let z : is_tab_or_space c ≡ false = ground (arith, h) in rw (z, if◌then◌else◌) refl

cookie_value-part : (v : Bytes) → All (λ x. is_cookie_part x ≡ true) v → cookie_value v ≡ v
cookie_value-part v h =
    let quote = weaken is_cookie_part is_cookie_part b'"' v (λ x k. ground (arith, k)) h in
    let semi = weaken is_cookie_part is_cookie_part b';' v (λ x k. ground (arith, k)) h in
    rw
      (
        no_blank v h,
        drop_first-Lacks b'"' v quote,
        drop_last-Lacks b'"' v quote,
        drop_last-Lacks b';' v semi,
      )
      refl

pub value_named-cookie :
    (name : Bytes) (c : Cookie)
    → IsCookie name c
    → value_named name (cookie_text c) ≡ (if same c.0 name then some c.1 else none)
value_named-cookie name c h =
    rw
      (
        past-append b'=' c.0 c.1 (name_no_equals h),
        before-append b'=' c.0 c.1 (name_no_equals h),
        and_then,
        cookie_value-part c.1 h.value_bytes,
      )
      refl

-- With the space behind a semicolon, or without.
abbrev pub padded : Bool → Bytes → Bytes
padded true s = b' ' ∷ s
padded false s = s

pub no_padding :
    (sp : Bool) (name : Bytes) (c : Cookie)
    → IsCookie name c
    → drop_while is_tab_or_space (padded sp (cookie_text c)) ≡ cookie_text c
unfolding drop_while
no_padding true name ([], v) h = refl
no_padding false name ([], v) h = refl
no_padding true name (x ∷ n, v) h =
    let z : is_tab_or_space x ≡ false = ground (arith, h.name_bytes.0) in rw (z, if◌then◌else◌) refl
no_padding false name (x ∷ n, v) h =
    let z : is_tab_or_space x ≡ false = ground (arith, h.name_bytes.0) in rw (z, if◌then◌else◌) refl

abbrev pub next_of : List Cookie → Option Bytes
next_of [] = none
next_of (d ∷ ds) = some (padded true (cookie_header (d ∷ ds)))

pub first_segment :
    (sp : Bool) (name : Bytes) (c : Cookie) (cs : List Cookie)
    → IsCookie name c
    → (before b';' (padded sp (cookie_header (c ∷ cs))) ≡ padded sp (cookie_text c))
      × (past b';' (padded sp (cookie_header (c ∷ cs))) ≡ next_of cs)
unfolding cookie_header
first_segment true name c [] h =
    let k : All (Lacks b';') (b' ' ∷ cookie_text c) = (refl, text_no_semicolon h) in
    (before-Lacks b';' (b' ' ∷ cookie_text c) k, past-Lacks b';' (b' ' ∷ cookie_text c) k)
first_segment false name c [] h =
    let k = text_no_semicolon h in
    (before-Lacks b';' (cookie_text c) k, past-Lacks b';' (cookie_text c) k)
first_segment true name c (d ∷ ds) h =
    let k : All (Lacks b';') (b' ' ∷ cookie_text c) = (refl, text_no_semicolon h) in
    let s = b' ' ∷ cookie_header (d ∷ ds) in
    (before-append b';' (b' ' ∷ cookie_text c) s k, past-append b';' (b' ' ∷ cookie_text c) s k)
first_segment false name c (d ∷ ds) h =
    let k = text_no_semicolon h in
    let s = b' ' ∷ cookie_header (d ∷ ds) in
    (before-append b';' (cookie_text c) s k, past-append b';' (cookie_text c) s k)

pub length-cookie_header :
    (c : Cookie) (cs : List Cookie) → length cs < length (cookie_header (c ∷ cs))
unfolding cookie_header
length-cookie_header c [] = omega (arith, length-append c.0 (b'=' ∷ c.1))
length-cookie_header c (d ∷ ds) = omega (
  arith,
  length-append (cookie_text c) (b';' ∷ b' ' ∷ cookie_header (d ∷ ds)),
  length-cookie_header d ds,
)

pub length-padded : (sp : Bool) (s : Bytes) → length s ≤ length (padded sp s)
length-padded true s = omega arith
length-padded false s = omega arith
