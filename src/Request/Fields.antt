-- ===== src/Request/Fields.antt =====
-- How the header fields decide the framing of a body: `parse_header_line` of src/http/http_parse.c.
use agent_httpd.Base.{
  ℕ, Bool, true, false, ◌||◌, Option, none, some, List, [], ◌∷◌, ◌++◌, All, ◌==◌, if◌then◌else◌,
  Bytes, codes, after_ci, to_lower, ◌≡◌, inl, inr, refl, ap, ◌∙◌, arith, Bool-cases, Option-cases,
}
use agent_httpd.Request.{
  HttpRequest, Setter, known_headers, unknown_header, apply_first, apply_header, parse_header_line,
  set_length, set_coding,
}
use agent_httpd.Request.RoundTrip.{apply_lines}
use agent_httpd.Range.{strtoll}

-- The body's length does not come from Content-Length alone.
abbrev pub coded : HttpRequest → Bool
coded r = r.chunked || r.te_unsupported

abbrev Keeps : Setter → Type 0
Keeps set = (v : Bytes) (r : HttpRequest) → coded r ≡ true → coded (set v r) ≡ true

set_coding-coded : (v : Bytes) (r : HttpRequest) → coded (set_coding v r) ≡ true
set_coding-coded v r = ground (arith)

set_length-Keeps :
    (spool : ℕ) (o : Option (Bool × ℕ × Bytes)) (r : HttpRequest)
    → coded r ≡ true
    → coded (set_length spool o r) ≡ true
set_length-Keeps spool none r h = h
set_length-Keeps spool (some (true, n, rest)) r h = h
set_length-Keeps spool (some (false, n, rest)) r h = ground (arith, h)

unknown_header-Keeps : Keeps unknown_header
unknown_header-Keeps [] r h = ground (arith, h)
unknown_header-Keeps (c ∷ s) r h = ground (arith, h)

apply_header-Keeps :
    (hs : List (Bytes × Setter)) → All (λ h. Keeps h.1) hs → Keeps (apply_header hs)
unfolding apply_header
apply_header-Keeps [] ks line r h = unknown_header-Keeps line r h
apply_header-Keeps ((name, set) ∷ hs) (k, ks) line r h = elim (Option-cases (after_ci name line)) [
  | inl e ↦ rw (e, apply_first) (apply_header-Keeps hs ks line r h)
  | inr (v, e) ↦ rw (e, apply_first) (k v r h)
]

known_headers-Keeps : (spool : ℕ) → All (λ h. Keeps h.1) (known_headers spool)
known_headers-Keeps spool =
    let p = λ (v : Bytes) (r : HttpRequest) (h : coded r ≡ true). h in
    (
      p,
      (
        p,
        (
          p,
          (
            p,
            (
              p,
              (
                p,
                (
                  p,
                  (
                    p,
                    (
                      p,
                      (
                        p,
                        (
                          p,
                          (
                            p,
                            (
                              p,
                              (
                                p,
                                (
                                  p,
                                  (
                                    p,
                                    (
                                      (λ v r h. set_length-Keeps spool (strtoll v) r h),
                                      ((λ v r h. set_coding-coded v r), tt),
                                    ),
                                  ),
                                ),
                              ),
                            ),
                          ),
                        ),
                      ),
                    ),
                  ),
                ),
              ),
            ),
          ),
        ),
      ),
    )

parse_header_line-Keeps : (spool : ℕ) → Keeps (parse_header_line spool)
unfolding parse_header_line
parse_header_line-Keeps spool = apply_header-Keeps (known_headers spool) (known_headers-Keeps spool)

apply_lines-Keeps :
    (spool : ℕ) (ls : List Bytes) (r : HttpRequest)
    → coded r ≡ true
    → coded (apply_lines spool ls r) ≡ true
apply_lines-Keeps spool [] r h = h
apply_lines-Keeps spool (l ∷ ls) r h =
    apply_lines-Keeps spool ls (parse_header_line spool l r) (parse_header_line-Keeps spool l r h)

-- The names before Transfer-Encoding in a list begin with another letter.
data Reaches : List (Bytes × Setter) → Type 0 where
  here : (hs : List (Bytes × Setter)) → Reaches ((codes "Transfer-Encoding:", set_coding) ∷ hs)
  there :
      (x : ℕ) (name : Bytes) (set : Setter) (hs : List (Bytes × Setter))
      → (b't' == to_lower x) ≡ false
      → Reaches hs
      → Reaches ((x ∷ name, set) ∷ hs)

other_name :
    (x : ℕ) (name : Bytes) (c : ℕ) (s : Bytes)
    → to_lower c ≡ b't'
    → (b't' == to_lower x) ≡ false
    → after_ci (x ∷ name) (c ∷ s) ≡ none
unfolding after_ci
other_name x name c s h k = rw (h, k, if◌then◌else◌) refl

first_letter :
    (l v : Bytes)
    → after_ci (codes "Transfer-Encoding:") l ≡ some v
    → (c : ℕ) × (s : Bytes) × (l ≡ c ∷ s) × (to_lower c ≡ b't')
unfolding after_ci
first_letter [] v h = absurd (cc)
first_letter (c ∷ s) v h = elim (Bool-cases (to_lower c == b't')) [
  | inl k ↦ (c, s, refl, ground (arith, k))
  | inr k ↦ absurd (ground (arith, k, h))
]

apply_header-coded :
    (hs : List (Bytes × Setter)) (l v : Bytes) (r : HttpRequest)
    → Reaches hs
    → after_ci (codes "Transfer-Encoding:") l ≡ some v
    → coded (apply_header hs l r) ≡ true
unfolding apply_header
apply_header-coded _ l v r (here hs) h = rw (h, apply_first) (set_coding-coded v r)
apply_header-coded _ l v r (there x name set hs k q) h =
    let (c, s, e, t) = first_letter l v h in
    let n : after_ci (x ∷ name) l ≡ none = ap (after_ci (x ∷ name)) e ∙ other_name x name c s t k in
    rw (n, apply_first) (apply_header-coded hs l v r q h)

known_headers-Reaches : (spool : ℕ) → Reaches (known_headers spool)
known_headers-Reaches spool = there _ _ _ _ refl (
    there _ _ _ _ refl (
      there _ _ _ _ refl (
        there _ _ _ _ refl (
          there _ _ _ _ refl (
            there _ _ _ _ refl (
              there _ _ _ _ refl (
                there _ _ _ _ refl (
                  there _ _ _ _ refl (
                    there _ _ _ _ refl (
                      there _ _ _ _ refl (
                        there _ _ _ _ refl (
                          there _ _ _ _ refl (
                            there _ _ _ _ refl (
                              there _ _ _ _ refl
                                (there _ _ _ _ refl (there _ _ _ _ refl (here [])))))))))))))))))

parse_header_line-coded :
    (spool : ℕ) (l v : Bytes) (r : HttpRequest)
    → after_ci (codes "Transfer-Encoding:") l ≡ some v
    → coded (parse_header_line spool l r) ≡ true
unfolding parse_header_line
parse_header_line-coded spool l v r h =
    apply_header-coded (known_headers spool) l v r (known_headers-Reaches spool) h

-- A Transfer-Encoding line is never lost. For any header lines, of which one begins with
-- `Transfer-Encoding:` in any case, and any request: after the lines have been applied one after
-- another, `chunked` or `te_unsupported` is set, whatever lines come before and behind, a
-- Content-Length among them.
pub apply_lines-coded :
    (spool : ℕ) (ls ms : List Bytes) (l v : Bytes) (r : HttpRequest)
    → after_ci (codes "Transfer-Encoding:") l ≡ some v
    → coded (apply_lines spool (ls ++ l ∷ ms) r) ≡ true
apply_lines-coded spool [] ms l v r h =
    apply_lines-Keeps spool ms (parse_header_line spool l r) (parse_header_line-coded spool l v r h)
apply_lines-coded spool (k ∷ ls) ms l v r h =
    apply_lines-coded spool ls ms l v (parse_header_line spool k r) h
