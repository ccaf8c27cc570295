-- ===== src/Range/Closed.antt =====
-- What `parse_range` of src/http/static.c answers to a header in the standard's form.
use agent_httpd.Base.{
  ℕ, suc, ◌+◌, ◌-◌, ◌*◌, ◌≤◌, ◌<◌, min, Bool, true, false, not, ◌&&◌, ◌||◌, some, [], ◌∷◌, ◌++◌,
  append-nil, length, ltb, leb, ◌==◌, ==_refl, if◌then◌else◌, Bytes, codes, ◌≡◌, ◌≢◌, inl, inr,
  refl, sym, ap, ◌∙◌, arith, Bool-cases,
}
use agent_httpd.Range.{
  is_space, skip_space, is_decimal, scan_decimal, llong_max, starts_decimal, clamp, convert, signed,
  strtoll, Answer, whole, unsatisfiable, part, last_of, last_position, up_to, closed_of, dashed,
  suffix_of, spec_range, parse_range, strip_prefix, has_byte, behind,
}

-- The digits `s` spell `v`.
abbrev pub value : ℕ → Bytes → ℕ
value v [] = v
value v (c ∷ cs) = value (v * 10 + (c - b'0')) cs

abbrev pub all_decimal : Bytes → Bool
all_decimal [] = true
all_decimal (c ∷ cs) = is_decimal c && all_decimal cs

pub record Numeral (s : Bytes) (n : ℕ) : Type 0 where
  pub filled : s ≢ []
  pub digits : all_decimal s ≡ true
  pub spells : value 0 s ≡ n
  pub short : n ≤ llong_max

-- Digits are scanned up to the first byte that is none.
pub scan_digits :
    (v : ℕ) (s rest : Bytes)
    → all_decimal s ≡ true
    → starts_decimal rest ≡ false
    → scan_decimal v (s ++ rest) ≡ (value v s, rest)
unfolding scan_decimal
scan_digits v [] [] h k = refl
scan_digits v [] (c ∷ cs) h k = rw (k, if◌then◌else◌) refl
scan_digits v (c ∷ cs) rest h k = elim (Bool-cases (is_decimal c)) [
  | inl d ↦
      rw (d, if◌then◌else◌) (scan_digits (v * 10 + (c - b'0')) cs rest (ground (arith, d, h)) k)
  | inr n ↦ absurd (ground (arith, h, n))
]

strtoll_digit :
    (c : ℕ) (cs : Bytes)
    → is_decimal c ≡ true
    → strtoll (c ∷ cs) ≡ some (clamp false (scan_decimal 0 (c ∷ cs)))
unfolding strtoll skip_space signed convert
strtoll_digit c cs d =
    let blank : is_space c ≡ false = ground (arith, d) in
    let minus : (c == b'-') ≡ false = ground (arith, d) in
    let plus : (c == b'+') ≡ false = ground (arith, d) in
    rw (blank, if◌then◌else◌) (rw (minus, plus, if◌then◌else◌) (rw (d, if◌then◌else◌) refl))

pub strtoll-Numeral :
    (s rest : Bytes) (n : ℕ)
    → Numeral s n
    → starts_decimal rest ≡ false
    → strtoll (s ++ rest) ≡ some (false, n, rest)
strtoll-Numeral [] rest n m k = absurd (m.filled refl)
strtoll-Numeral (c ∷ cs) rest n m k =
    let q : min (value 0 (c ∷ cs)) llong_max ≡ n = omega (arith, m.spells, m.short) in
    strtoll_digit c (cs ++ rest) (ground (arith, m.digits))
    ∙ ap (λ r. some (clamp false r)) (scan_digits 0 (c ∷ cs) rest m.digits k)
    ∙ ap (λ v. some (false, v, rest)) q

-- No dash and no comma among digits.
behind-digits : (s rest : Bytes) → all_decimal s ≡ true → behind b'-' (s ++ b'-' ∷ rest) ≡ some rest
unfolding behind
behind-digits [] rest h = refl
behind-digits (c ∷ cs) rest h =
    let n : (c == b'-') ≡ false = ground (arith, h) in
    rw (n, if◌then◌else◌) (behind-digits cs rest (ground (arith, h)))

has_byte-digits :
    (s rest : Bytes) → all_decimal s ≡ true → has_byte b',' (s ++ rest) ≡ has_byte b',' rest
unfolding has_byte
has_byte-digits [] rest h = refl
has_byte-digits (c ∷ cs) rest h =
    let n : (c == b',') ≡ false = ground (arith, h) in
    rw n (has_byte-digits cs rest (ground (arith, h)))

strtoll-all : (s : Bytes) (n : ℕ) → Numeral s n → strtoll s ≡ some (false, n, [])
strtoll-all s n m = ap strtoll (sym (append-nil s)) ∙ strtoll-Numeral s [] n m refl

last_bound : (n size : ℕ) → 0 < size → last_of (some (false, n, [])) size ≡ some (min n (size - 1))
last_bound n size p = elim (Bool-cases (leb size n)) [
  | inl b ↦ rw (b, if◌then◌else◌) (ap some (ground arith))
  | inr b ↦ rw (b, if◌then◌else◌) (ap some (ground arith))
]

last_position-Numeral :
    (s : Bytes) (n size : ℕ)
    → Numeral s n
    → 0 < size
    → last_position s size ≡ some (min n (size - 1))
unfolding last_position
last_position-Numeral [] n size m p = absurd (m.filled refl)
last_position-Numeral (c ∷ cs) n size m p =
    ap (λ o. last_of o size) (strtoll-all (c ∷ cs) n m) ∙ last_bound n size p

-- What the standard says of `bytes=a-b`, given where the last byte of the part is.
abbrev pub part_of : ℕ → ℕ → ℕ → Answer
part_of a e size =
    if leb size a then unsatisfiable else if ltb e a then whole else part a (e - a + 1)

up_to-part : (a e : ℕ) → up_to a (some e) ≡ (if ltb e a then whole else part a (e - a + 1))
up_to-part a e = let t : ltb 0 (e - a + 1) ≡ true = ground arith in rw (t, if◌then◌else◌) refl

position_range :
    (after : Bytes) (a e size : ℕ)
    → (0 < size → last_position after size ≡ some e)
    → closed_of (some (false, a, b'-' ∷ after)) after size ≡ part_of a e size
position_range after a e size f =
    rw (==_refl (suc (length after)), not, ◌||◌, if◌then◌else◌)
      (elim (Bool-cases (leb size a)) [
        | inl big ↦ rw (big, if◌then◌else◌) refl
        | inr small ↦
            rw (small, if◌then◌else◌) (ap (λ o. up_to a o) (f (ground arith)) ∙ up_to-part a e)
      ])

header_range :
    (ds after : Bytes) (a e size : ℕ)
    → Numeral ds a
    → has_byte b',' after ≡ false
    → (0 < size → last_position after size ≡ some e)
    → parse_range (some (codes "bytes=" ++ ds ++ b'-' ∷ after)) size ≡ part_of a e size
unfolding parse_range strip_prefix spec_range has_byte
header_range [] after a e size m n f = absurd (m.filled refl)
header_range (c ∷ cs) after a e size m n f =
    let comma : has_byte b',' (c ∷ cs ++ b'-' ∷ after) ≡ false =
      has_byte-digits (c ∷ cs) (b'-' ∷ after) m.digits ∙ n in
    let dash : (c == b'-') ≡ false = ground (arith, m.digits) in
    rw (comma, dash, if◌then◌else◌)
      (ap (λ o. dashed (c ∷ cs ++ b'-' ∷ after) o size) (behind-digits (c ∷ cs) after m.digits)
        ∙ ap (λ o. closed_of o after size) (strtoll-Numeral (c ∷ cs) (b'-' ∷ after) a m refl)
        ∙ position_range after a e size f)

no_comma : (s : Bytes) → all_decimal s ≡ true → has_byte b',' s ≡ false
unfolding has_byte
no_comma s h = ap (has_byte b',') (sym (append-nil s)) ∙ has_byte-digits s [] h

open_part :
    (a size : ℕ)
    → part_of a (size - 1) size ≡ (if leb size a then unsatisfiable else part a (size - a))
open_part a size = elim (Bool-cases (leb size a)) [
  | inl big ↦ rw (big, if◌then◌else◌) refl
  | inr small ↦
      let before : ltb (size - 1) a ≡ false = ground arith in
      let n : size - 1 - a + 1 ≡ size - a = ground arith in
      rw (small, if◌then◌else◌) (rw (before, if◌then◌else◌) (ap (λ l. part a l) n))
]

suffix_part :
    (n size : ℕ)
    → suffix_of (some (false, n, [])) size
      ≡ (if ltb 0 (min n size) then part (size - min n size) (min n size) else whole)
suffix_part n size = elim (Bool-cases (n == 0)) [
  | inl z ↦
      let none_left : ltb 0 (min n size) ≡ false = ground arith in
      rw (z, if◌then◌else◌) (rw (none_left, if◌then◌else◌) refl)
  | inr p ↦ rw (p, if◌then◌else◌) refl
]

-- A closed range, `bytes=a-b`. For all numerals a and b that fit a `long long` and every file size:
-- unsatisfiable if the file ends at or before a; else ignored if the last position, b or the file's
-- last, lies before a; else the bytes from a up to it.
pub parse_range-closed :
    (ds es : Bytes) (a b size : ℕ)
    → Numeral ds a
    → Numeral es b
    → parse_range (some (codes "bytes=" ++ ds ++ b'-' ∷ es)) size
      ≡ part_of a (min b (size - 1)) size
parse_range-closed ds es a b size m n =
    header_range ds es a (min b (size - 1)) size m (no_comma es n.digits)
      (λ p. last_position-Numeral es b size n p)

-- An open range, `bytes=a-`, for every numeral a that fits a `long long` and every file size:
-- unsatisfiable if the file ends at or before a, else the rest of the file from a on.
pub parse_range-open :
    (ds : Bytes) (a size : ℕ)
    → Numeral ds a
    → parse_range (some (codes "bytes=" ++ ds ++ b'-' ∷ [])) size
      ≡ (if leb size a then unsatisfiable else part a (size - a))
unfolding last_position has_byte
parse_range-open ds a size m =
    header_range ds [] a (size - 1) size m refl (λ p. refl) ∙ open_part a size

-- A suffix range, `bytes=-n`, for every numeral n that fits a `long long` and every file size: the last
-- n bytes, the whole file where n is larger; ignored if n is 0 or the file is empty.
pub parse_range-suffix :
    (ds : Bytes) (n size : ℕ)
    → Numeral ds n
    → parse_range (some (codes "bytes=" ++ b'-' ∷ ds)) size
      ≡ (if ltb 0 (min n size) then part (size - min n size) (min n size) else whole)
unfolding parse_range strip_prefix spec_range has_byte
parse_range-suffix ds n size m =
    rw (no_comma ds m.digits) (ap (λ o. suffix_of o size) (strtoll-all ds n m) ∙ suffix_part n size)
