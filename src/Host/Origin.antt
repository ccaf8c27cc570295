-- ===== src/Host/Origin.antt =====
-- The same-origin test of src/core/util.c.
use agent_httpd.Base.{
  ℕ, Bool, true, false, ◌&&◌, Option, none, some, [], ◌∷◌, ◌++◌, ◌==◌, if◌then◌else◌, Bytes, codes,
  or_else, or_value, same, same-eq, after, ◌≡◌, inl, inr, refl, ap, ◌∙◌, arith, Bool-cases, ==_refl,
}
use agent_httpd.Host.{
  split_host, behind_text, origin_host, ports_agree, origins_agree, request_is_same_origin,
}

same_refl : (s : Bytes) → same s s ≡ true
unfolding same
same_refl [] = refl
same_refl (c ∷ s) = rw (==_refl c, ◌&&◌) (same_refl s)

ports_agree_refl : (p : Option Bytes) → ports_agree p p ≡ true
ports_agree_refl none = refl
ports_agree_refl (some p) = same_refl p

origins_agree_refl : (r : Bytes × Option Bytes) → origins_agree (some r) (some r) ≡ true
origins_agree_refl (h, p) = rw (same_refl h, if◌then◌else◌) (ports_agree_refl p)

-- No colon in the text.
abbrev pub no_colon : Bytes → Bool
no_colon [] = true
no_colon (c ∷ s) = if c == b':' then false else no_colon s

after-none : (c : ℕ) (t : Bytes) → (c == b':') ≡ false → after (codes "://") (c ∷ t) ≡ none
unfolding after
after-none c t k = rw (k, if◌then◌else◌) refl

behind_text_first :
    (s rest : Bytes)
    → no_colon s ≡ true
    → behind_text (codes "://") (s ++ codes "://" ++ rest) ≡ some rest
unfolding behind_text after
behind_text_first [] rest h = refl
behind_text_first (c ∷ s) rest h = elim (Bool-cases (c == b':')) [
  | inl k ↦ absurd (ground (arith, h, k))
  | inr k ↦
      ap (λ o. or_else o (behind_text (codes "://") (s ++ codes "://" ++ rest)))
        (after-none c (s ++ codes "://" ++ rest) k)
      ∙ behind_text_first s rest (ground (arith, h, k))
]

origin_host_of :
    (scheme host : Bytes)
    → no_colon scheme ≡ true
    → origin_host (scheme ++ codes "://" ++ host) ≡ host
origin_host_of scheme host h =
    ap (λ o. or_value o (scheme ++ codes "://" ++ host)) (behind_text_first scheme host h)

agree :
    (origin host : Bytes) (r : Bytes × Option Bytes)
    → origin_host origin ≡ host
    → split_host host 256 ≡ some r
    → origins_agree (split_host (origin_host origin) 256) (split_host host 256) ≡ true
agree origin host r q e =
    ap (λ x. origins_agree (split_host x 256) (split_host host 256)) q
    ∙ ap (λ x. origins_agree x x) e
    ∙ origins_agree_refl r

agree_names :
    (a b : Option (Bytes × Option Bytes))
    → origins_agree a b ≡ true
    → (o h : Bytes × Option Bytes) × (a ≡ some o)
      × (b ≡ some h)
      × (o.0 ≡ h.0)
      × (ports_agree o.1 h.1 ≡ true)
agree_names none b e = absurd (cc)
agree_names (some o) none e = absurd (cc)
agree_names (some (on, op)) (some (hn, hp)) e = elim (Bool-cases (same on hn)) [
  | inl k ↦ ((on, op), (hn, hp), refl, refl, same-eq on hn k, ground (arith, k, e))
  | inr k ↦ absurd (ground (arith, k, e))
]

-- A page's own requests pass. For every scheme without a colon and every Host value that splits: if
-- there is no Sec-Fetch-Site header and Origin is the scheme, `://` and that value, then the request is
-- of the same origin.
pub request_is_same_origin_self :
    (scheme host : Bytes) (r : Bytes × Option Bytes)
    → no_colon scheme ≡ true
    → split_host host 256 ≡ some r
    → request_is_same_origin [] (scheme ++ codes "://" ++ host) host ≡ true
unfolding request_is_same_origin
request_is_same_origin_self [] host r h e =
    agree (codes "://" ++ host) host r (origin_host_of [] host h) e
request_is_same_origin_self (c ∷ scheme) host r h e =
    agree (c ∷ scheme ++ codes "://" ++ host) host r (origin_host_of (c ∷ scheme) host h) e

-- Another page's requests do not. For every Origin header that is not empty: if there is no
-- Sec-Fetch-Site header and the request is of the same origin, then the Origin's part behind `://` and
-- the Host value both split, into equal names, and into ports that are the same, or of which Origin's is
-- missing and Host's is missing, 80 or 443.
pub request_is_same_origin_names :
    (c : ℕ) (origin host : Bytes)
    → request_is_same_origin [] (c ∷ origin) host ≡ true
    → (o h : Bytes × Option Bytes) × (split_host (origin_host (c ∷ origin)) 256 ≡ some o)
      × (split_host host 256 ≡ some h)
      × (o.0 ≡ h.0)
      × (ports_agree o.1 h.1 ≡ true)
unfolding request_is_same_origin
request_is_same_origin_names c origin host e =
    agree_names (split_host (origin_host (c ∷ origin)) 256) (split_host host 256) e
