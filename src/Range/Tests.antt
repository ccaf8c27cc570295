-- ===== src/Range/Tests.antt =====
-- Byte ranges: runs, and the theorems at concrete inputs.
use agent_httpd.Base.{◌≡◌, refl, some, arith, codes}
use agent_httpd.Range.{
  whole, part, parse_range, strip_prefix, has_byte, behind, spec_range, last_position, strtoll,
  signed, convert, scan_decimal, skip_space,
}
use agent_httpd.Range.Within.{Fits, parse_range-Fits}
use agent_httpd.Range.Closed.{Numeral}

-- Blanks and a plus sign before a position are let through.
parse_range-loose : parse_range (some (codes "bytes= 2-+5")) 10 ≡ part 2 4
unfolding parse_range strip_prefix has_byte behind spec_range last_position strtoll signed convert
    scan_decimal skip_space
parse_range-loose = refl

parse_range-several : parse_range (some (codes "bytes=0-1,3-4")) 10 ≡ whole
unfolding parse_range strip_prefix has_byte
parse_range-several = refl

five : Numeral (codes "005") 5
five = record { filled = λ e. absurd (cc e); digits = refl; spells = refl; short = omega arith }

seven : Numeral (codes "7") 7
seven = record { filled = λ e. absurd (cc e); digits = refl; spells = refl; short = omega arith }

parse_range-Fits_example : Fits (parse_range (some (codes "bytes=2-5")) 4) 4
parse_range-Fits_example = parse_range-Fits (some (codes "bytes=2-5")) 4
