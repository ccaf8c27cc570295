-- ===== src/RateLimit/Trusted/Masks.antt =====
-- Which peers a network holds: `build_mask`, the masked addresses of `parse_cidr` and the comparison of
-- `rate_limit_is_trusted`, in src/security/ratelimit.c.
use Prim.Native.Nat.{bit_and}
use agent_httpd.Base.{
  ℕ, zero, suc, ◌-◌, ◌/◌, ◌^◌, ◌<◌, Bool, true, false, ◌&&◌, ◌||◌, List, [], ◌∷◌, ◌++◌, length,
  replicate, All, ltb, leb, ◌==◌, if◌then◌else◌, Bytes, ◌≡◌, inl, inr, refl, sym, ap, subst, ◌∙◌,
  arith, Bool-cases,
}
use agent_httpd.RateLimit.Trusted.{
  mask_bytes, and_bytes, network, masked_equal, Family, inet, inet6, TrustedNet, any_net,
  is_trusted, address, same_family,
}
use agent_httpd.RateLimit.Trusted.Bits.{mask_of, byte_match, byte_match_all}

-- Do the first `p` bits agree? Whole bytes first, then the top bits of the next.
abbrev pub same_prefix : ℕ → Bytes → Bytes → Bool
same_prefix p (b ∷ bs) (a ∷ rest) =
    if leb 8 p then b == a && same_prefix (p - 8) bs rest else b / 2 ^ (8 - p) == a / 2 ^ (8 - p)
same_prefix p _ _ = true

abbrev pub AreBytes : Bytes → Type 0
AreBytes bs = All (λ b. b < 256) bs

same_prefix_zero : (bs rest : Bytes) → AreBytes bs → AreBytes rest → same_prefix 0 bs rest ≡ true
same_prefix_zero [] rest h k = refl
same_prefix_zero (b ∷ bs) [] h k = refl
same_prefix_zero (b ∷ bs) (a ∷ rest) (h, _) (k, _) =
    let x : b / 256 ≡ 0 = omega arith in let y : a / 256 ≡ 0 = omega arith in ground (arith, x, y)

mask_bytes_high : (p n : ℕ) → leb 8 p ≡ true → mask_bytes p (suc n) ≡ 0xff ∷ mask_bytes (p - 8) n
unfolding mask_bytes
mask_bytes_high p n h = rw (h, if◌then◌else◌) refl

mask_bytes_zero : (n : ℕ) → mask_bytes 0 n ≡ replicate n 0
unfolding mask_bytes
mask_bytes_zero zero = refl
mask_bytes_zero (suc n) = refl

mask_bytes_low : (p n : ℕ) → leb 8 p ≡ false → mask_bytes p (suc n) ≡ mask_of p ∷ mask_bytes 0 n
unfolding mask_bytes
mask_bytes_low p n h = elim (Bool-cases (ltb 0 p)) [
  | inl q ↦ rw (h, q, if◌then◌else◌) refl
  | inr q ↦
      let z : p ≡ 0 = ground arith in
      subst (λ x. mask_bytes x (suc n) ≡ mask_of x ∷ mask_bytes 0 n) (sym z)
        (ap (λ t. 0 ∷ t) (sym (mask_bytes_zero n)))
]

and_true : (b : Bool) → (b && true) ≡ b
and_true true = refl
and_true false = refl

-- One address against a masked network, byte by byte.
masked_equal-same_prefix :
    (n p : ℕ) (bs rest ws zs : Bytes)
    → length bs ≡ n
    → length rest ≡ n
    → AreBytes bs
    → AreBytes rest
    → masked_equal bs (mask_bytes p n ++ zs) (and_bytes (rest ++ ws) (mask_bytes p n ++ zs))
      ≡ same_prefix p bs rest
unfolding masked_equal and_bytes
masked_equal-same_prefix n p [] rest ws zs e f h k = refl
masked_equal-same_prefix n p (b ∷ bs) [] ws zs e f h k = absurd (omega (arith, e, f))
masked_equal-same_prefix zero p (b ∷ bs) (a ∷ rest) ws zs e f h k = absurd (omega arith)
masked_equal-same_prefix (suc n) p (b ∷ bs) (a ∷ rest) ws zs e f (h, hs) (k, ks) =
    elim (Bool-cases (leb 8 p)) [
      | inl q ↦
          let r =
            masked_equal-same_prefix n (p - 8) bs rest ws zs (omega arith) (omega arith) hs ks in
          let one : (bit_and b 0xff == bit_and a 0xff) ≡ (b == a) = byte_match_all b a h k in
          ap (λ m. masked_equal (b ∷ bs) (m ++ zs) (and_bytes (a ∷ rest ++ ws) (m ++ zs)))
            (mask_bytes_high p n q)
          ∙ rw (q, one, if◌then◌else◌) (ap (λ x. (b == a) && x) r)
      | inr q ↦
          let r =
            masked_equal-same_prefix n 0 bs rest ws zs (omega arith) (omega arith) hs ks
            ∙ same_prefix_zero bs rest hs ks in
          let one = byte_match p b a (ground arith) h k in
          ap (λ m. masked_equal (b ∷ bs) (m ++ zs) (and_bytes (a ∷ rest ++ ws) (m ++ zs)))
            (mask_bytes_low p n q)
          ∙ rw (q, if◌then◌else◌)
              (ap (λ x. (bit_and b (mask_of p) == bit_and a (mask_of p)) && x) r
                ∙ and_true (bit_and b (mask_of p) == bit_and a (mask_of p))
                ∙ one)
    ]

-- A network as it was written: its address, and how many bits of it count.
pub record Entry : Type 0 where
  pub family : Family
  pub literal : Bytes
  pub prefix : ℕ

abbrev pub width : Family → ℕ
width inet = 4
width inet6 = 16

abbrev pub networks : List Entry → List TrustedNet
networks [] = []
networks (e ∷ es) = network e.family (width e.family) e.literal e.prefix ∷ networks es

abbrev pub IsAddress : Family → Bytes → Type 0
IsAddress family bytes = (length bytes ≡ width family) × AreBytes bytes

-- Is the peer of the family and in the prefix of one of them?
abbrev pub in_entries : List Entry → Family → Bytes → Bool
in_entries [] family bytes = false
in_entries (e ∷ es) family bytes =
    same_family e.family family && same_prefix e.prefix bytes e.literal
    || in_entries es family bytes

net_match :
    (mine family : Family) (literal bytes : Bytes) (prefix : ℕ)
    → IsAddress mine literal
    → IsAddress family bytes
    → (same_family mine family
        && masked_equal bytes
            (network mine (width mine) literal prefix).mask
            (network mine (width mine) literal prefix).addr)
      ≡ (same_family mine family && same_prefix prefix bytes literal)
net_match inet inet literal bytes prefix (m, ms) (l, ls) =
    masked_equal-same_prefix 4 prefix bytes literal (replicate 12 0) (replicate 12 0) l m ls ms
net_match inet6 inet6 literal bytes prefix (m, ms) (l, ls) =
    masked_equal-same_prefix 16 prefix bytes literal [] [] l m ls ms
net_match inet inet6 literal bytes prefix m l = refl
net_match inet6 inet literal bytes prefix m l = refl

-- Which peers are trusted. For any list of networks, each stored as `parse_cidr` stores an address of
-- its family's width with a prefix, and any peer address: the peer is trusted exactly if one of the
-- networks is of its family and agrees with it in the first bits that the prefix counts.
pub is_trusted-in_entries :
    (es : List Entry) (family : Family) (bytes : Bytes)
    → All (λ e. IsAddress e.family e.literal) es
    → IsAddress family bytes
    → is_trusted (networks es) (address family bytes) ≡ in_entries es family bytes
unfolding is_trusted any_net
is_trusted-in_entries [] family bytes h k = refl
is_trusted-in_entries (e ∷ es) family bytes (h, hs) k =
    ap (λ x. x || any_net (networks es) family bytes)
      (net_match e.family family e.literal bytes e.prefix h k)
    ∙ ap (λ x. same_family e.family family && same_prefix e.prefix bytes e.literal || x)
        (is_trusted-in_entries es family bytes hs k)
