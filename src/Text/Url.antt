-- ===== src/Text/Url.antt =====
-- `url_decode` of src/core/util.c.
use agent_httpd.Base.{
  ℕ, ◌+◌, ◌-◌, ◌*◌, ◌/◌, ◌%◌, ◌≤◌, ◌<◌, Bool, true, false, not, ◌&&◌, ◌||◌, [], ◌∷◌, length, All,
  ltb, ◌==◌, if◌then◌else◌, Bytes, ◌≡◌, ◌≢◌, inl, inr, refl, ap, ◌∙◌, arith, Bool-cases, drop_while,
  is_whitespace,
}
use agent_httpd.Text.{url_decode, scan_hex, two_digits, is_hex, hex_of}

abbrev pub digit : ℕ → ℕ
digit d = if ltb d 10 then b'0' + d else b'A' + (d - 10)

-- Percent-encoding: the bytes that `keep` tells to keep stay, except for a percent sign and a plus.
abbrev pub encode : (ℕ → Bool) → Bytes → Bytes
encode keep [] = []
encode keep (c ∷ s) =
    if keep c && not (c == b'%' || c == b'+')
    then c ∷ encode keep s
    else b'%' ∷ digit (c / 16) ∷ digit (c % 16) ∷ encode keep s

url_decode_plain : (c : ℕ) (s : Bytes) → c ≢ b'%' → c ≢ b'+' → url_decode (c ∷ s) ≡ c ∷ url_decode s
unfolding url_decode
url_decode_plain c [] p q = ground arith
url_decode_plain c (d ∷ []) p q = ground arith
url_decode_plain c (d ∷ e ∷ s) p q = ground arith

digit-hex : (d : ℕ) → d < 16 → (is_hex (digit d) ≡ true) × (hex_of (digit d) ≡ d)
digit-hex d h = (ground arith, ground arith)

scan_hex_pair :
    (x y : ℕ) (s : Bytes)
    → is_hex x ≡ true
    → is_hex y ≡ true
    → scan_hex (x ∷ y ∷ s) ≡ hex_of x * 16 + hex_of y
unfolding scan_hex drop_while two_digits
scan_hex_pair x y s h k =
    let blank : is_whitespace x ≡ false = ground (arith, h) in
    let minus : (x == b'-') ≡ false = ground (arith, h) in
    let plus : (x == b'+') ≡ false = ground (arith, h) in
    rw (blank, if◌then◌else◌) (rw (minus, plus, h, k, if◌then◌else◌) refl)

scan_hex-digit : (c : ℕ) (s : Bytes) → c < 256 → scan_hex (digit (c / 16) ∷ digit (c % 16) ∷ s) ≡ c
scan_hex-digit c s h =
    let (p, x) = digit-hex (c / 16) (omega arith) in
    let (q, y) = digit-hex (c % 16) (omega arith) in
    scan_hex_pair (digit (c / 16)) (digit (c % 16)) s p q ∙ omega (arith, x, y)

url_decode_escape :
    (c : ℕ) (s : Bytes)
    → c < 256
    → url_decode (b'%' ∷ digit (c / 16) ∷ digit (c % 16) ∷ s) ≡ c ∷ url_decode s
unfolding url_decode
url_decode_escape c s h = ap (λ x. x ∷ url_decode s) (scan_hex-digit c s h)

-- Decoding inverts percent-encoding. For every text of bytes, and whichever bytes the encoder keeps:
-- `url_decode` of the encoded text is the text.
pub url_decode-encode :
    (keep : ℕ → Bool) (s : Bytes) → All (λ c. c < 256) s → url_decode (encode keep s) ≡ s
unfolding url_decode
url_decode-encode keep [] h = refl
url_decode-encode keep (c ∷ s) (b, h) = elim (Bool-cases (keep c && not (c == b'%' || c == b'+'))) [
  | inl k ↦
      rw (k, if◌then◌else◌)
        (url_decode_plain c (encode keep s) (ground (arith, k)) (ground (arith, k))
          ∙ ap (λ x. c ∷ x) (url_decode-encode keep s h))
  | inr n ↦
      rw (n, if◌then◌else◌)
        (url_decode_escape c (encode keep s) b ∙ ap (λ x. c ∷ x) (url_decode-encode keep s h))
]

-- The decoded text fits where the text did: for every text it is no longer than the text.
pub length-url_decode : (s : Bytes) → length (url_decode s) ≤ length s
unfolding url_decode
length-url_decode [] = omega arith
length-url_decode (c ∷ []) = omega arith
length-url_decode (c ∷ d ∷ []) = omega (arith, length-url_decode (d ∷ []))
length-url_decode (c ∷ d ∷ e ∷ s) =
    let x = length-url_decode s in
    let y = length-url_decode (d ∷ e ∷ s) in
    elim (Bool-cases (c == b'%')) [
      | inl p ↦ rw (p, if◌then◌else◌) (omega (arith, x))
      | inr p ↦ rw (p, if◌then◌else◌) (omega (arith, y))
    ]
