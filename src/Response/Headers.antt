-- ===== src/Response/Headers.antt =====
-- Which headers a handler has set: `has_extra_header` of src/http/http_resp.c.
use agent_httpd.Base.{
  ℕ, zero, suc, ◌<◌, Bool, true, false, not, ◌&&◌, ◌||◌, some, List, [], ◌∷◌, ◌++◌, length,
  length-append, All, ◌==◌, if◌then◌else◌, Bytes, after_ci, same_ci, to_lower, past, before,
  drop_while, ◌≡◌, inl, inr, refl, ap, ◌∙◌, arith, Bool-cases, and_right,
}
use agent_httpd.Response.{is_blank, names, extra_loop, has_extra_header}

-- A header's name: bytes that are no colon, blank or line feed.
abbrev pub plain : ℕ → Bool
plain c = not (c == b':') && not (is_blank c) && not (c == b'\n')

abbrev pub all_plain : Bytes → Bool
all_plain [] = true
all_plain (c ∷ s) = plain c && all_plain s

abbrev pub no_feed : Bytes → Bool
no_feed [] = true
no_feed (c ∷ s) = not (c == b'\n') && no_feed s

-- A header that a handler may set.
abbrev pub IsField : Bytes × Bytes → Type 0
IsField f = (all_plain f.0 ≡ true) × (no_feed f.1 ≡ true)

-- The lines of some headers.
abbrev pub block : List (Bytes × Bytes) → Bytes
block [] = []
block ((name, value) ∷ fs) = (name ++ b':' ∷ value) ++ b'\n' ∷ block fs

abbrev pub any_named : Bytes → List (Bytes × Bytes) → Bool
any_named name [] = false
any_named name (f ∷ fs) = same_ci f.0 name || any_named name fs

names_same :
    (name n v : Bytes)
    → all_plain name ≡ true
    → all_plain n ≡ true
    → names (after_ci name (n ++ b':' ∷ v)) ≡ same_ci n name
unfolding after_ci same_ci drop_while
names_same [] [] v h k = refl
names_same [] (c ∷ n) v h k =
    let b : is_blank c ≡ false = ground (arith, k) in
    let d : (c == b':') ≡ false = ground (arith, k) in rw (b, if◌then◌else◌) d
names_same (x ∷ w) [] v h k =
    let e : (to_lower b':' == to_lower x) ≡ false = ground (arith, h) in rw (e, if◌then◌else◌) refl
names_same (x ∷ w) (c ∷ n) v h k = elim (Bool-cases (to_lower c == to_lower x)) [
  | inl e ↦
      rw (e, if◌then◌else◌)
        (names_same w n v (and_right (plain x) (all_plain w) h)
          (and_right (plain c) (all_plain n) k))
  | inr e ↦ rw (e, if◌then◌else◌) refl
]

no_feed_plain : (n : Bytes) → all_plain n ≡ true → no_feed n ≡ true
no_feed_plain [] h = refl
no_feed_plain (c ∷ n) h =
    let k = no_feed_plain n (and_right (plain c) (all_plain n) h) in ground (arith, h, k)

no_feed-append : (s t : Bytes) → no_feed s ≡ true → no_feed t ≡ true → no_feed (s ++ t) ≡ true
no_feed-append [] t h k = k
no_feed-append (c ∷ s) t h k =
    let n = no_feed-append s t (and_right (not (c == b'\n')) (no_feed s) h) k in
    ground (arith, h, n)

before_feed : (s t : Bytes) → no_feed s ≡ true → before b'\n' (s ++ b'\n' ∷ t) ≡ s
unfolding before
before_feed [] t h = refl
before_feed (c ∷ s) t h =
    let e : (c == b'\n') ≡ false = ground (arith, h) in
    rw (e, if◌then◌else◌)
      (ap (λ x. c ∷ x) (before_feed s t (and_right (not (c == b'\n')) (no_feed s) h)))

past_feed : (s t : Bytes) → no_feed s ≡ true → past b'\n' (s ++ b'\n' ∷ t) ≡ some t
unfolding past
past_feed [] t h = refl
past_feed (c ∷ s) t h =
    let e : (c == b'\n') ≡ false = ground (arith, h) in
    rw (e, if◌then◌else◌) (past_feed s t (and_right (not (c == b'\n')) (no_feed s) h))

round_at :
    (fuel : ℕ) (name s t : Bytes)
    → past b'\n' s ≡ some t
    → extra_loop (suc fuel) name s
      ≡ (names (after_ci name (before b'\n' s)) || extra_loop fuel name t)
unfolding extra_loop past
round_at fuel name [] t e = absurd (cc)
round_at fuel name (c ∷ s) t e = rw (extra_loop, e) refl

-- One round: the first line, and the others.
round :
    (fuel : ℕ) (name s t : Bytes)
    → no_feed s ≡ true
    → extra_loop (suc fuel) name (s ++ b'\n' ∷ t)
      ≡ (names (after_ci name s) || extra_loop fuel name t)
round fuel name s t h =
    round_at fuel name (s ++ b'\n' ∷ t) t (past_feed s t h)
    ∙ ap (λ x. names (after_ci name x) || extra_loop fuel name t) (before_feed s t h)

extra_loop-any_named :
    (fuel : ℕ) (name : Bytes) (fs : List (Bytes × Bytes))
    → all_plain name ≡ true
    → All IsField fs
    → length (block fs) < fuel
    → extra_loop fuel name (block fs) ≡ any_named name fs
unfolding extra_loop
extra_loop-any_named zero name fs h k l = absurd (omega arith)
extra_loop-any_named (suc fuel) name [] h k l = refl
extra_loop-any_named (suc fuel) name ((n, v) ∷ fs) h ((kn, kv), ks) l =
    let a = no_feed-append n (b':' ∷ v) (no_feed_plain n kn) kv in
    let d = length-append (n ++ b':' ∷ v) (b'\n' ∷ block fs) in
    let e = length-append n (b':' ∷ v) in
    round fuel name (n ++ b':' ∷ v) (block fs) a
    ∙ ap (λ x. x || extra_loop fuel name (block fs)) (names_same name n v h kn)
    ∙ ap (λ x. same_ci n name || x)
        (extra_loop-any_named fuel name fs h ks (omega (arith, l, d, e)))

-- A handler's header is recognized. For every name and every list of headers whose names have no
-- colon, blank or line feed and whose values have no line feed: the scan of their lines finds the name
-- exactly if one of the headers has it, in any case.
pub has_extra_header-any_named :
    (name : Bytes) (fs : List (Bytes × Bytes))
    → all_plain name ≡ true
    → All IsField fs
    → has_extra_header (block fs) name ≡ any_named name fs
unfolding has_extra_header
has_extra_header-any_named name fs h k =
    extra_loop-any_named (suc (length (block fs))) name fs h k (omega arith)
