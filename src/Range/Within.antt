-- ===== src/Range/Within.antt =====
-- The part that `parse_range` of src/http/static.c answers lies within the file.
use agent_httpd.Base.{
  ℕ, suc, ◌+◌, ◌-◌, ◌≤◌, ◌<◌, min, Bool, true, false, not, ◌||◌, Option, none, some, [], ◌∷◌,
  length, ltb, leb, ◌==◌, if◌then◌else◌, Bytes, codes, ◌≡◌, inl, inr, sym, subst, eq_of_some, arith,
  Bool-cases, Option-cases,
}
use agent_httpd.Range.{
  Answer, whole, unsatisfiable, part, answer_of, suffix_of, is_negative, last_of, last_position,
  up_to, from_position, closed_of, dashed, spec_range, bytes_range, parse_range, strtoll,
  strip_prefix, has_byte, behind,
}

-- At least one byte, none behind the end.
pub Fits : Answer → ℕ → Type 0
Fits whole size = Unit
Fits unsatisfiable size = Unit
Fits (part start len) size = (0 < len) × (start + len ≤ size)

answer_of-Fits : (start len size : ℕ) → start + len ≤ size → Fits (answer_of start len) size
unfolding Fits
answer_of-Fits start len size h = elim (Bool-cases (ltb 0 len)) [
  | inl p ↦ rw (p, if◌then◌else◌) (ground arith, h)
  | inr n ↦ rw (n, if◌then◌else◌) tt
]

suffix_of-Fits : (o : Option (Bool × ℕ × Bytes)) (size : ℕ) → Fits (suffix_of o size) size
unfolding Fits
suffix_of-Fits none size = tt
suffix_of-Fits (some (true, n, rest)) size = tt
suffix_of-Fits (some (false, n, c ∷ cs)) size = tt
suffix_of-Fits (some (false, n, [])) size = elim (Bool-cases (n == 0)) [
  | inl z ↦ rw (z, if◌then◌else◌) tt
  | inr z ↦
      rw (z, if◌then◌else◌) (answer_of-Fits (size - min n size) (min n size) size (omega arith))
]

last_of-some :
    (o : Option (Bool × ℕ × Bytes)) (size e : ℕ) → 0 < size → last_of o size ≡ some e → e < size
last_of-some none size e p h = absurd (cc)
last_of-some (some (neg, v, c ∷ cs)) size e p h = absurd (cc)
last_of-some (some (neg, v, [])) size e p h = ground (arith, h)

last_position-some :
    (after : Bytes) (size e : ℕ) → 0 < size → last_position after size ≡ some e → e < size
unfolding last_position
last_position-some [] size e p h = omega (arith, eq_of_some h)
last_position-some (c ∷ cs) size e p h = last_of-some (strtoll (c ∷ cs)) size e p h

up_to-Fits : (s size e : ℕ) → e < size → Fits (up_to s (some e)) size
unfolding Fits
up_to-Fits s size e h = elim (Bool-cases (ltb e s)) [
  | inl l ↦ rw (l, if◌then◌else◌) tt
  | inr l ↦ rw (l, if◌then◌else◌) (answer_of-Fits s (e - s + 1) size (ground arith))
]

from_position-Fits : (s : ℕ) (after : Bytes) (size : ℕ) → Fits (from_position s after size) size
unfolding Fits
from_position-Fits s after size = elim (Bool-cases (leb size s)) [
  | inl big ↦ rw (big, if◌then◌else◌) tt
  | inr small ↦
      rw (small, if◌then◌else◌)
        (elim (Option-cases (last_position after size)) [
          | inl n ↦ subst (λ o. Fits (up_to s o) size) (sym n) tt
          | inr (e, f) ↦
              subst (λ o. Fits (up_to s o) size) (sym f)
                (up_to-Fits s size e (last_position-some after size e (ground arith) f))
        ])
]

closed_of-Fits :
    (o : Option (Bool × ℕ × Bytes)) (after : Bytes) (size : ℕ) → Fits (closed_of o after size) size
unfolding Fits
closed_of-Fits none after size = tt
closed_of-Fits (some (neg, s, rest)) after size =
    elim (Bool-cases (not (length rest == suc (length after)) || is_negative neg s)) [
      | inl bad ↦ rw (bad, if◌then◌else◌) tt
      | inr good ↦ rw (good, if◌then◌else◌) (from_position-Fits s after size)
    ]

dashed-Fits : (spec : Bytes) (o : Option Bytes) (size : ℕ) → Fits (dashed spec o size) size
unfolding Fits
dashed-Fits spec none size = tt
dashed-Fits spec (some after) size = closed_of-Fits (strtoll spec) after size

spec_range-Fits : (spec : Bytes) (size : ℕ) → Fits (spec_range spec size) size
unfolding spec_range Fits
spec_range-Fits [] size = tt
spec_range-Fits (c ∷ cs) size = elim (Bool-cases (c == b'-')) [
  | inl d ↦ rw (d, if◌then◌else◌) (suffix_of-Fits (strtoll cs) size)
  | inr d ↦ rw (d, if◌then◌else◌) (dashed-Fits (c ∷ cs) (behind b'-' (c ∷ cs)) size)
]

bytes_range-Fits : (o : Option Bytes) (size : ℕ) → Fits (bytes_range o size) size
unfolding Fits
bytes_range-Fits none size = tt
bytes_range-Fits (some spec) size = elim (Bool-cases (has_byte b',' spec)) [
  | inl m ↦ rw (m, if◌then◌else◌) tt
  | inr m ↦ rw (m, if◌then◌else◌) (spec_range-Fits spec size)
]

-- No range reads outside the file. For every header, missing or not, and every file size: a part that
-- `parse_range` answers has at least one byte and ends at the end of the file or before.
pub parse_range-Fits : (header : Option Bytes) (size : ℕ) → Fits (parse_range header size) size
unfolding parse_range Fits
parse_range-Fits none size = tt
parse_range-Fits (some header) size = bytes_range-Fits (strip_prefix (codes "bytes=") header) size
