-- ===== src/Validators/Listed.antt =====
-- A list in If-None-Match, and `etag_matches` of src/http/static.c.
use agent_httpd.Base.{
  ℕ, zero, suc, ◌<◌, ◌≤◌, Bool, true, false, ◌||◌, List, [], ◌∷◌, ◌++◌, length, ◌==◌, if◌then◌else◌,
  Bytes, codes, same, after, ltb, drop_while, take_while, drop_last_while, All, ◌≡◌, inl, inr, refl,
  sym, ap, ◌∙◌, arith, Bool-cases, length-append, append-nil,
}
use agent_httpd.Validators.{
  is_separator, is_end, opaque, member_tag, not_comma, match_loop, etag_matches,
}

abbrev pub begins : Bytes → Bool
begins [] = true
begins (c ∷ s) = is_separator c

-- A member: it has no comma, and begins and ends in a byte that is not trimmed.
pub record IsMember (m : Bytes) : Type 0 where
  pub no_comma : All (λ c. (c == b',') ≡ false) m
  pub starts : begins m ≡ false
  pub ends : drop_last_while is_end m ≡ m

-- The members with a comma and a space between them.
unfoldable pub joined : List Bytes → Bytes
joined [] = []
joined (m ∷ []) = m
joined (m ∷ n ∷ ms) = m ++ (b',' ∷ b' ' ∷ joined (n ∷ ms))

-- Whether a member is the tag, as the loop compares them.
unfoldable pub any_same : List Bytes → Bytes → Bool
any_same [] etag = false
any_same (m ∷ ms) etag =
    let rest = any_same ms etag in if same (member_tag m) (opaque etag) then true else rest

until_comma :
    (m s : Bytes)
    → All (λ c. (c == b',') ≡ false) m
    → (take_while not_comma (m ++ (b',' ∷ s)) ≡ m)
      × (drop_while not_comma (m ++ (b',' ∷ s)) ≡ b',' ∷ s)
unfolding take_while drop_while
until_comma [] s h = (refl, refl)
until_comma (c ∷ m) s (h, hs) =
    let (a, b) = until_comma m s hs in
    rw (take_while, drop_while, h, if◌then◌else◌) (ap (◌∷◌ c) a, b)

to_the_end :
    (m : Bytes)
    → All (λ c. (c == b',') ≡ false) m
    → (take_while not_comma m ≡ m) × (drop_while not_comma m ≡ [])
unfolding take_while drop_while
to_the_end [] h = (refl, refl)
to_the_end (c ∷ m) (h, hs) =
    let (a, b) = to_the_end m hs in rw (take_while, drop_while, h, if◌then◌else◌) (ap (◌∷◌ c) a, b)

separators_off : (m s : Bytes) → begins m ≡ false → drop_while is_separator (m ++ s) ≡ m ++ s
unfolding drop_while
separators_off [] s h = absurd (cc)
separators_off (c ∷ m) s h = rw (h, if◌then◌else◌) refl

joined_starts :
    (m : Bytes) (ms : List Bytes)
    → begins m ≡ false
    → drop_while is_separator (joined (m ∷ ms)) ≡ joined (m ∷ ms)
unfolding joined
joined_starts m [] h =
    ap (drop_while is_separator) (sym (append-nil m)) ∙ separators_off m [] h ∙ append-nil m
joined_starts m (n ∷ ms) h = separators_off m (b',' ∷ b' ' ∷ joined (n ∷ ms)) h

comma_off : (s : Bytes) → drop_while is_separator (b',' ∷ b' ' ∷ s) ≡ drop_while is_separator s
unfolding drop_while
comma_off s = refl

shorter : (s : Bytes) → length (drop_while is_separator s) ≤ length s
unfolding drop_while
shorter [] = omega arith
shorter (c ∷ s) = elim (Bool-cases (is_separator c)) [
  | inl e ↦ rw (drop_while, e, if◌then◌else◌) (omega (arith, shorter s))
  | inr e ↦ rw (drop_while, e, if◌then◌else◌) (omega arith)
]

nothing_left : (fuel : ℕ) (etag : Bytes) → match_loop fuel [] etag ≡ false
unfolding match_loop
nothing_left zero etag = refl
nothing_left (suc fuel) etag = refl

filled_begins : (m : Bytes) → begins m ≡ false → 0 < length m
filled_begins [] h = absurd (cc)
filled_begins (c ∷ m) h = omega arith

match_loop-joined :
    (fuel c : ℕ) (p m : Bytes) (ms : List Bytes) (etag : Bytes)
    → All IsMember (m ∷ ms)
    → drop_while is_separator (c ∷ p) ≡ joined (m ∷ ms)
    → length (c ∷ p) < fuel
    → match_loop fuel (c ∷ p) etag ≡ any_same (m ∷ ms) etag
unfolding match_loop any_same joined
match_loop-joined zero c p m ms etag h e f = absurd (omega arith)
match_loop-joined (suc fuel) c p m [] etag (h, hs) e f =
    let (a, b) = to_the_end m h.no_comma in
    rw (match_loop, e, a, b, h.ends, nothing_left fuel etag) refl
match_loop-joined (suc fuel) c p m (n ∷ ms) etag (h, hs) e f =
    let rest = joined (n ∷ ms) in
    let (a, b) = until_comma m (b' ' ∷ rest) h.no_comma in
    let k : length (b',' ∷ b' ' ∷ rest) < fuel = omega (
      arith,
      f,
      shorter (c ∷ p),
      ap length e,
      length-append m (b',' ∷ b' ' ∷ rest),
      filled_begins m h.starts,
    ) in
    let next =
      match_loop-joined fuel b',' (b' ' ∷ rest) n ms etag hs
        (comma_off rest ∙ joined_starts n ms hs.0.starts) k in
    let e' : drop_while is_separator (c ∷ p) ≡ m ++ (b',' ∷ b' ' ∷ rest) = e in
    rw (match_loop, e', a, b, h.ends)
      (ap (λ x. if same (member_tag m) (opaque etag) then true else x) next)

etag_matches-members :
    (m : Bytes) (ms : List Bytes) (etag : Bytes)
    → All IsMember (m ∷ ms)
    → same (joined (m ∷ ms)) (codes "*") ≡ false
    → etag_matches (joined (m ∷ ms)) etag ≡ any_same (m ∷ ms) etag
unfolding etag_matches joined
etag_matches-members m ms etag h n =
    go (joined (m ∷ ms)) (joined_starts m ms h.0.starts) (joined_filled m ms h.0.starts) n
  where
    joined_filled : (m : Bytes) (ms : List Bytes) → begins m ≡ false → 0 < length (joined (m ∷ ms))
    joined_filled m [] b = filled_begins m b
    joined_filled m (x ∷ ms) b =
        omega (arith, filled_begins m b, length-append m (b',' ∷ b' ' ∷ joined (x ∷ ms)))

    go :
        (s : Bytes)
        → drop_while is_separator s ≡ joined (m ∷ ms)
        → 0 < length s
        → same s (codes "*") ≡ false
        → etag_matches s etag ≡ any_same (m ∷ ms) etag
    go [] e k z = absurd (omega arith)
    go (c ∷ p) e k z =
        rw (z, if◌then◌else◌)
          (match_loop-joined (suc (length (c ∷ p))) c p m ms etag h e (omega arith))

-- A tag: whether it is weak, and the quoted text.
abbrev pub Tag : Type 0
Tag = Bool × Bytes

-- As a header writes it.
abbrev pub printed : Tag → Bytes
printed (true, text) = b'W' ∷ b'/' ∷ text
printed (false, text) = text

abbrev pub all_printed : List Tag → List Bytes
all_printed [] = []
all_printed (t ∷ ts) = printed t ∷ all_printed ts

abbrev pub is_quoted : Tag → Bool
is_quoted (weak, []) = false
is_quoted (weak, c ∷ text) = c == b'"'

-- Whether one of the tags has the quoted text of another.
abbrev pub any_equal : List Tag → Tag → Bool
any_equal [] e = false
any_equal (t ∷ ts) e = same t.1 e.1 || any_equal ts e

opaque-printed : (t : Tag) → is_quoted t ≡ true → opaque (printed t) ≡ t.1
unfolding after
opaque-printed (weak, []) h = absurd (cc)
opaque-printed (true, c ∷ text) h = refl
opaque-printed (false, c ∷ text) h =
    let z : (c == b'W') ≡ false = ground (arith, h) in rw (z, if◌then◌else◌) refl

member_tag-printed : (t : Tag) → is_quoted t ≡ true → member_tag (printed t) ≡ t.1
member_tag-printed (weak, []) h = absurd (cc)
member_tag-printed (true, c ∷ text) h =
    let z : ltb 2 (length (printed (true, c ∷ text))) ≡ true = ground arith in
    rw (z, if◌then◌else◌) (opaque-printed (true, c ∷ text) h)
member_tag-printed (false, c ∷ text) h = elim (Bool-cases (ltb 2 (length (c ∷ text)))) [
  | inl e ↦ rw (e, if◌then◌else◌) (opaque-printed (false, c ∷ text) h)
  | inr e ↦ rw (e, if◌then◌else◌) refl
]

if-or : (b r : Bool) → (if b then true else r) ≡ (b || r)
if-or true r = refl
if-or false r = refl

any_same-printed :
    (ts : List Tag) (e : Tag)
    → All (λ t. is_quoted t ≡ true) ts
    → is_quoted e ≡ true
    → any_same (all_printed ts) (printed e) ≡ any_equal ts e
unfolding any_same
any_same-printed [] e h k = refl
any_same-printed (t ∷ ts) e (h, hs) k =
    rw (member_tag-printed t h, opaque-printed e k, any_same-printed ts e hs k)
      (if-or (same t.1 e.1) (any_equal ts e))

no_asterisk :
    (t : Tag) (ts : List Tag)
    → is_quoted t ≡ true
    → same (joined (all_printed (t ∷ ts))) (codes "*") ≡ false
unfolding same joined
no_asterisk (weak, []) ts h = absurd (cc)
no_asterisk (true, c ∷ text) [] h = refl
no_asterisk (true, c ∷ text) (u ∷ ts) h = refl
no_asterisk (false, c ∷ text) [] h = ground (arith, h)
no_asterisk (false, c ∷ text) (u ∷ ts) h = ground (arith, h)

-- A list of tags, each a text that begins with a quote, with or without W/ in front, and a comma and a
-- space between them, where no tag has a comma in it or ends in a byte that is trimmed: for every tag of
-- that form, also with or without W/, the header matches exactly if one of them has the same quoted
-- text, whichever of the two are weak.
pub etag_matches-joined :
    (t : Tag) (ts : List Tag) (etag : Tag)
    → All (λ x. is_quoted x ≡ true) (t ∷ ts)
    → All IsMember (all_printed (t ∷ ts))
    → is_quoted etag ≡ true
    → etag_matches (joined (all_printed (t ∷ ts))) (printed etag) ≡ any_equal (t ∷ ts) etag
etag_matches-joined t ts etag q h e =
    etag_matches-members (printed t) (all_printed ts) (printed etag) h (no_asterisk t ts q.0)
    ∙ any_same-printed (t ∷ ts) etag q e
