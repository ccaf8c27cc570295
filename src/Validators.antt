-- ===== src/Validators.antt =====
-- Conditional requests and codings: `etag_matches` and `accepts_gzip` of src/http/static.c. A header is
-- the bytes before its NUL; an int is kept as its sign, which is all that is asked of it.
pub mod Listed
mod Tests
use agent_httpd.Base.{
  ℕ, zero, suc, ◌-◌, ◌%◌, ◌^◌, Bool, true, false, not, ◌&&◌, ◌||◌, Option, none, some, List, [],
  ◌∷◌, length, drop, ltb, ◌==◌, if◌then◌else◌, Bytes, codes, same, after, is_some, to_lower,
  drop_while, take_while, drop_last_while,
}
use agent_httpd.Range.{strtoll}

abbrev pub is_separator : ℕ → Bool
is_separator c = c == b' ' || c == b','

abbrev pub is_end : ℕ → Bool
is_end c = c == b' ' || c == b'\r'

-- A tag without its W/.
abbrev pub opaque : Bytes → Bytes
opaque s = if is_some (after (codes "W/") s) then drop 2 s else s

-- The same of a member of the list, if it is longer than that.
abbrev pub member_tag : Bytes → Bytes
member_tag m = if ltb 2 (length m) then opaque m else m

abbrev pub not_comma : ℕ → Bool
not_comma c = not (c == b',')

-- The loop of `etag_matches`.
unfoldable pub match_loop : ℕ → Bytes → Bytes → Bool
match_loop zero p etag = false
match_loop (suc fuel) [] etag = false
match_loop (suc fuel) (c ∷ p) etag =
    let start = drop_while is_separator (c ∷ p) in
    let rest = match_loop fuel (drop_while not_comma start) etag in
    if same (member_tag (drop_last_while is_end (take_while not_comma start))) (opaque etag)
    then true
    else rest

-- `etag_matches`; a round passes a byte at least.
unfoldable pub etag_matches : Bytes → Bytes → Bool
etag_matches [] etag = false
etag_matches (c ∷ p) etag =
    if same (c ∷ p) (codes "*") then true else match_loop (suc (length (c ∷ p))) (c ∷ p) etag

-- `codings_match`, of a coding in small letters.
unfoldable pub codings_match : Bytes → Bytes → Bool
codings_match [] [] = true
codings_match (a ∷ s) (b ∷ t) = to_lower a == b && codings_match s t
codings_match _ _ = false

-- The sign of a quality: below 0, which is also one that is not mentioned, 0, and above.
pub data Weight : Type 0 where
  unset refused wanted : Weight

abbrev pub sign_of : ℕ → Weight
sign_of n = if n == 0 then refused else if ltb n (2 ^ 31) then wanted else unset

-- `atoi`, of the low 32 bits.
abbrev pub weight_of : Option (Bool × ℕ × Bytes) → Weight
weight_of none = refused
weight_of (some (true, n, rest)) = sign_of ((2 ^ 32 - n % 2 ^ 32) % 2 ^ 32)
weight_of (some (false, n, rest)) = sign_of (n % 2 ^ 32)

-- The weight behind a semicolon, and what follows it.
abbrev pub weight_in : Bytes → Weight × Bytes
weight_in [] = (wanted, [])
weight_in (c ∷ []) = (wanted, c ∷ [])
weight_in (c ∷ d ∷ s) =
    if (c == b'q' || c == b'Q') && d == b'='
    then (weight_of (strtoll s), drop_while not_comma s)
    else (wanted, c ∷ d ∷ s)

abbrev pub is_gap : ℕ → Bool
is_gap c = c == b' '

abbrev pub parameter : Bytes → Weight × Bytes
parameter [] = (wanted, [])
parameter (c ∷ s) = if c == b';' then weight_in (drop_while is_gap s) else (wanted, c ∷ s)

abbrev pub past_comma : Bytes → Bytes
past_comma [] = []
past_comma (c ∷ s) = if c == b',' then s else c ∷ s

abbrev pub in_token : ℕ → Bool
in_token c = not (c == b',' || c == b';')

-- What a token says of gzip and of the rest.
abbrev pub noted : Bytes → Weight → Weight × Weight → Weight × Weight
noted token q (gzip_q, star_q) =
    if codings_match token (codes "gzip") || codings_match token (codes "x-gzip")
    then (q, star_q)
    else if same token (codes "*")
    then (gzip_q, q)
    else (gzip_q, star_q)

-- The loop of `accepts_gzip`.
unfoldable pub coding_loop : ℕ → Bytes → Weight × Weight → Weight × Weight
coding_loop zero p qs = qs
coding_loop (suc fuel) [] qs = qs
coding_loop (suc fuel) (c ∷ p) qs =
    let start = drop_while (λ x. x == b' ' || x == b'\t') (c ∷ p) in
    let r = parameter (drop_while in_token start) in
    coding_loop fuel (past_comma (drop_while is_gap r.1)) (noted (take_while in_token start) r.0 qs)

abbrev pub is_wanted : Weight → Bool
is_wanted wanted = true
is_wanted _ = false

abbrev pub verdict : Weight × Weight → Bool
verdict (wanted, star_q) = true
verdict (refused, star_q) = false
verdict (unset, star_q) = is_wanted star_q

-- `accepts_gzip`.
unfoldable pub accepts_gzip : Bytes → Bool
accepts_gzip s = verdict (coding_loop (suc (length s)) s (unset, unset))
