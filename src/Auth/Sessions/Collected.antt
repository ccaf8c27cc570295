-- ===== src/Auth/Sessions/Collected.antt =====
-- What `session_cookie_tokens` of src/security/auth.c collects from a list of cookies.
use agent_httpd.Base.{
  ℕ, zero, suc, ◌-◌, ◌≤◌, ◌<◌, Bool, true, false, ◌&&◌, Option, none, some, List, [], ◌∷◌, length,
  take, ltb, ◌==◌, if◌then◌else◌, Bytes, All, same, past, before, drop_while, ◌≡◌, inl, inr, refl,
  sym, ap, ◌∙◌, arith, Bool-cases,
}
use agent_httpd.Auth.Sessions.{
  is_tab_or_space, value_named, cookie_loop, cookie_next, tokens_loop, session_cookie_tokens,
}
use agent_httpd.Auth.Sessions.Cookies.{
  Cookie, cookie_header, IsCookie, tokens_of, padded, next_of, value_named-cookie, no_padding,
  first_segment, length-cookie_header, length-padded,
}

-- A round of `cookie_next`, by the value and the rest.
abbrev search_round : ℕ → Bytes → Option Bytes → Option Bytes → Option (Bytes × Option Bytes)
search_round fuel name (some v) rest =
    if ltb 0 (length v) && ltb (length v) 33 then some (v, rest) else none
search_round fuel name none none = none
search_round fuel name none (some rest) = cookie_loop fuel 33 name rest

cookie_loop-round :
    (fuel : ℕ) (name p : Bytes)
    → 0 < length p
    → cookie_loop (suc fuel) 33 name p
      ≡ search_round fuel name
          (value_named name (drop_while is_tab_or_space (before b';' p)))
          (past b';' p)
unfolding cookie_loop
cookie_loop-round fuel name [] h = absurd (omega arith)
cookie_loop-round fuel name (c ∷ p) h =
    by_value (value_named name (drop_while is_tab_or_space (before b';' (c ∷ p))))
      (past b';' (c ∷ p))
  where
    by_value :
        (v rest : Option Bytes)
        → (elim v [
          | some v ↦ if ltb 0 (length v) && ltb (length v) 33 then some (v, rest) else none
          | none ↦ elim rest [ none ↦ none | some r ↦ cookie_loop fuel 33 name r ]
        ])
          ≡ search_round fuel name v rest
    by_value (some v) rest = refl
    by_value none none = refl
    by_value none (some r) = refl

-- The next cookie with the name, and the cursor behind it.
unfoldable find : Bytes → List Cookie → Option (Bytes × Option Bytes)
find name [] = none
find name (c ∷ cs) = if same c.0 name then some (c.1, next_of cs) else find name cs

search-next_of :
    (fuel : ℕ) (name : Bytes) (ds : List Cookie)
    → All (IsCookie name) ds
    → length ds < suc fuel
    → ((e : Cookie) (es : List Cookie)
        → All (IsCookie name) (e ∷ es)
        → length es < fuel
        → cookie_loop fuel 33 name (padded true (cookie_header (e ∷ es))) ≡ find name (e ∷ es))
    → search_round fuel name none (next_of ds) ≡ find name ds
unfolding find
search-next_of fuel name [] k m f = refl
search-next_of fuel name (d ∷ ds) k m f = f d ds k (omega (arith, m))

cookie_loop-find :
    (fuel : ℕ) (sp : Bool) (name : Bytes) (c : Cookie) (cs : List Cookie)
    → All (IsCookie name) (c ∷ cs)
    → length cs < fuel
    → cookie_loop fuel 33 name (padded sp (cookie_header (c ∷ cs))) ≡ find name (c ∷ cs)
unfolding find
cookie_loop-find zero sp name c cs h l = absurd (omega arith)
cookie_loop-find (suc fuel) sp name c cs (h, hs) l =
    let p = padded sp (cookie_header (c ∷ cs)) in
    let (seg, next) = first_segment sp name c cs h in
    let e =
      cookie_loop-round fuel name p
        (omega (arith, length-cookie_header c cs, length-padded sp (cookie_header (c ∷ cs))))
      ∙ ap
          (λ s.
            search_round fuel name (value_named name (drop_while is_tab_or_space s)) (past b';' p))
          seg
      ∙ ap (λ s. search_round fuel name (value_named name s) (past b';' p)) (no_padding sp name c h)
      ∙ ap (λ v. search_round fuel name v (past b';' p)) (value_named-cookie name c h)
      ∙ ap (λ r. search_round fuel name (if same c.0 name then some c.1 else none) r) next in
    elim (Bool-cases (same c.0 name)) [
      | inl q ↦
          let (a, b) = h.sized q in
          let z : (ltb 0 (length c.1) && ltb (length c.1) 33) ≡ true = ground (arith, a, b) in
          e ∙ rw (q, if◌then◌else◌, z) refl
      | inr q ↦
          e
          ∙ rw (q, if◌then◌else◌)
              (search-next_of fuel name cs hs (omega (arith, l))
                (λ d ds k m. cookie_loop-find fuel true name d ds k m))
    ]

-- A round of `session_cookie_tokens`, by what `cookie_next` finds.
abbrev token_round : ℕ → ℕ → Bytes → Option (Bytes × Option Bytes) → List Bytes
token_round fuel room name none = []
token_round fuel room name (some (t, next)) =
    if room == 0
    then []
    else if length t == 32
    then t ∷ tokens_loop fuel (room - 1) name next
    else tokens_loop fuel room name next

tokens_loop-round :
    (fuel room : ℕ) (name p : Bytes)
    → tokens_loop (suc fuel) room name (some p) ≡ token_round fuel room name (cookie_next name 33 p)
unfolding tokens_loop
tokens_loop-round fuel room name p = by_cookie (cookie_next name 33 p)
  where
    by_cookie :
        (o : Option (Bytes × Option Bytes))
        → (if room == 0 then [] else elim o [
          | none ↦ []
          | some (t, next) ↦
              let whole = length t == 32 in
              let rest = tokens_loop fuel (if whole then room - 1 else room) name next in
              if whole then t ∷ rest else rest
        ])
          ≡ token_round fuel room name o
    by_cookie none = elim (Bool-cases (room == 0)) [
      | inl e ↦ rw (e, if◌then◌else◌) refl
      | inr e ↦ rw (e, if◌then◌else◌) refl
    ]
    by_cookie (some (t, next)) = elim (Bool-cases (length t == 32)) [
      | inl e ↦ rw (e, if◌then◌else◌) refl
      | inr e ↦ rw (e, if◌then◌else◌) refl
    ]

take_nothing : (n : ℕ) → take {A = Bytes} n [] ≡ []
take_nothing zero = refl
take_nothing (suc n) = refl

cookie_next-find :
    (name : Bytes) (c : Cookie) (cs : List Cookie)
    → All (IsCookie name) (c ∷ cs)
    → cookie_next name 33 (padded true (cookie_header (c ∷ cs))) ≡ find name (c ∷ cs)
unfolding cookie_next
cookie_next-find name c cs h =
    let p = padded true (cookie_header (c ∷ cs)) in
    cookie_loop-find (suc (length p)) true name c cs h (omega (arith, length-cookie_header c cs))

-- The cookies behind a cursor, by what is found among them.
tokens_loop-rest :
    (fuel room : ℕ) (name : Bytes) (cs : List Cookie)
    → All (IsCookie name) cs
    → length cs ≤ fuel
    → ((f : ℕ)
        → length cs ≤ suc f
        → token_round f room name (find name cs) ≡ take room (tokens_of name cs))
    → tokens_loop fuel room name (next_of cs) ≡ take room (tokens_of name cs)
unfolding tokens_loop tokens_of
tokens_loop-rest zero room name [] h l f = sym (take_nothing room)
tokens_loop-rest (suc fuel) room name [] h l f = sym (take_nothing room)
tokens_loop-rest zero room name (c ∷ cs) h l f = absurd (omega arith)
tokens_loop-rest (suc fuel) room name (c ∷ cs) h l f =
    tokens_loop-round fuel room name (padded true (cookie_header (c ∷ cs)))
    ∙ ap (token_round fuel room name) (cookie_next-find name c cs h)
    ∙ f fuel l

token_round-find :
    (fuel room : ℕ) (name : Bytes) (cs : List Cookie)
    → All (IsCookie name) cs
    → length cs ≤ suc fuel
    → token_round fuel room name (find name cs) ≡ take room (tokens_of name cs)
unfolding find tokens_of
token_round-find fuel room name [] h l = sym (take_nothing room)
token_round-find fuel room name (c ∷ cs) (h, hs) l =
    let on : (r : ℕ) → tokens_loop fuel r name (next_of cs) ≡ take r (tokens_of name cs) = λ r.
      tokens_loop-rest fuel r name cs hs (omega (arith, l))
        (λ f k. token_round-find f r name cs hs k) in
    elim (Bool-cases (same c.0 name)) [
      | inr q ↦ rw (q, if◌then◌else◌) (token_round-find fuel room name cs hs (omega (arith, l)))
      | inl q ↦ elim (Bool-cases (length c.1 == 32)) [
        | inl w ↦ rw (q, if◌then◌else◌, w) (full_or_not room c.1 (next_of cs) w on)
        | inr w ↦ rw (q, if◌then◌else◌, w) (room_or_not room (next_of cs) on)
      ]
    ]
  where
    full_or_not :
        (r : ℕ) (v : Bytes) (next : Option Bytes)
        → (length v == 32) ≡ true
        → ((n : ℕ) → tokens_loop fuel n name next ≡ take n (tokens_of name cs))
        → (if r == 0 then [] else v ∷ tokens_loop fuel (r - 1) name next)
          ≡ take r (v ∷ tokens_of name cs)
    full_or_not zero v next w f = refl
    full_or_not (suc r) v next w f =
        let z : (suc r == 0) ≡ false = ground arith in
        let e : suc r - 1 ≡ r = omega arith in rw (z, if◌then◌else◌, e) (ap (◌∷◌ v) (f r))

    room_or_not :
        (r : ℕ) (next : Option Bytes)
        → ((n : ℕ) → tokens_loop fuel n name next ≡ take n (tokens_of name cs))
        → (if r == 0 then [] else tokens_loop fuel r name next) ≡ take r (tokens_of name cs)
    room_or_not zero next f = refl
    room_or_not (suc r) next f =
        let z : (suc r == 0) ≡ false = ground arith in rw (z, if◌then◌else◌) (f (suc r))

no_cookie : (name : Bytes) → tokens_loop 1 8 name (some []) ≡ []
unfolding tokens_loop cookie_next cookie_loop
no_cookie name = refl

-- The tokens of a header: the first eight values of 32 bytes under the session's name.
pub session_cookie_tokens-cookie_header :
    (name : Bytes) (cs : List Cookie)
    → All (IsCookie name) cs
    → session_cookie_tokens name (cookie_header cs) ≡ take 8 (tokens_of name cs)
unfolding session_cookie_tokens cookie_header tokens_of cookie_next
session_cookie_tokens-cookie_header name [] h = no_cookie name
session_cookie_tokens-cookie_header name (c ∷ cs) h =
    let p = cookie_header (c ∷ cs) in
    let l = length-cookie_header c cs in
    tokens_loop-round (length p) 8 name p
    ∙ ap (token_round (length p) 8 name)
        (cookie_loop-find (suc (length p)) false name c cs h (omega (arith, l)))
    ∙ token_round-find (length p) 8 name (c ∷ cs) h (omega (arith, l))
