-- ===== src/Fcgi/Params.antt =====
-- Parameters on the wire, src/cgi/fastcgi.c: `put_params` with `fcgi_put_len`, and `parse_params`.
use agent_httpd.Base.{
  LacksNul, before-LacksNul, ℕ, zero, suc, ◌+◌, ◌*◌, ◌/◌, ◌%◌, ◌^◌, ◌≤◌, ◌<◌, true, false, Option,
  none, some, List, [], ◌∷◌, ◌++◌, length, drop, Bytes, ltb, if◌then◌else◌, All, ◌≡◌, inl, inr,
  refl, sym, ap, ◌∙◌, arith, Bool-cases, length-append, append_assoc, append-nil,
  take-append_length, drop-append_length, pair_eq, and_then, and_then-some, eq_of_some,
  guard_not-some,
}
use agent_httpd.Fcgi.{Param, read_len, cut_pair, read_pair, params_loop, parse_params}
use agent_httpd.Fcgi.Client.{fcgi_put_len, put_params}

one_byte : (c : ℕ) (s : Bytes) → c < 128 → read_len (c ∷ s) ≡ some (c, s)
one_byte c [] h = let e : ltb c 128 ≡ true = ground arith in rw (e, if◌then◌else◌) refl
one_byte c (x ∷ []) h = let e : ltb c 128 ≡ true = ground arith in rw (e, if◌then◌else◌) refl
one_byte c (x ∷ y ∷ []) h = let e : ltb c 128 ≡ true = ground arith in rw (e, if◌then◌else◌) refl
one_byte c (x ∷ y ∷ z ∷ s) h = let e : ltb c 128 ≡ true = ground arith in rw (e, if◌then◌else◌) refl

four_bytes :
    (n : ℕ)
    → n < 2 ^ 31
    → (128 + n / 2 ^ 24 % 128) % 128 * 2 ^ 24
        + n / 2 ^ 16 % 256 * 2 ^ 16
        + n / 2 ^ 8 % 256 * 2 ^ 8
        + n % 256
      ≡ n
four_bytes n h = omega arith

-- A length that is written is read back.
pub read_len-fcgi_put_len :
    (n : ℕ) (s : Bytes) → n < 2 ^ 31 → read_len (fcgi_put_len n ++ s) ≡ some (n, s)
unfolding fcgi_put_len
read_len-fcgi_put_len n s h = elim (Bool-cases (ltb n 128)) [
  | inl e ↦ rw (fcgi_put_len, e, if◌then◌else◌) (one_byte n s (ground (arith, e)))
  | inr e ↦
      let f : ltb (128 + n / 2 ^ 24 % 128) 128 ≡ false = ground arith in
      rw (fcgi_put_len, e, if◌then◌else◌, f) (ap some (pair_eq (four_bytes n h) refl))
]

nonempty_len : (n : ℕ) → 1 ≤ length (fcgi_put_len n)
unfolding fcgi_put_len
nonempty_len n = elim (Bool-cases (ltb n 128)) [
  | inl e ↦ rw (fcgi_put_len, e, if◌then◌else◌) (omega arith)
  | inr e ↦ rw (fcgi_put_len, e, if◌then◌else◌) (omega arith)
]

short_len : (n : ℕ) → length (fcgi_put_len n) ≤ 4
unfolding fcgi_put_len
short_len n = elim (Bool-cases (ltb n 128)) [
  | inl e ↦ rw (fcgi_put_len, e, if◌then◌else◌) (omega arith)
  | inr e ↦ rw (fcgi_put_len, e, if◌then◌else◌) (omega arith)
]

-- One pair as the wire has it, and a list of them.
abbrev pub encoded : Param → Bytes
encoded p = fcgi_put_len (length p.0) ++ (fcgi_put_len (length p.1) ++ (p.0 ++ p.1))

unfoldable pub encoded_all : List Param → Bytes
encoded_all [] = []
encoded_all (p ∷ ps) = encoded p ++ encoded_all ps

-- A pair that the buffer of the client holds.
pub record IsSendable (p : Param) : Type 0 where
  pub fits : length p.0 + length p.1 < 4096
  pub plain_name : LacksNul p.0
  pub plain_value : LacksNul p.1

cut_pair-append :
    (p : Param) (s : Bytes)
    → IsSendable p
    → cut_pair (length p.0) (length p.1) (p.0 ++ (p.1 ++ s)) ≡ some (p, s)
cut_pair-append (n, v) s h =
    let d : drop (length n) (n ++ (v ++ s)) ≡ v ++ s =
      drop-append_length (length n) n (v ++ s) refl in
    let e : ltb (length (n ++ (v ++ s))) (length n + length v) ≡ false =
      ground (arith, length-append n (v ++ s), length-append v s) in
    rw
      (
        e,
        if◌then◌else◌,
        take-append_length (length n) n (v ++ s) refl,
        d,
        take-append_length (length v) v s refl,
        drop-append_length (length v) v s refl,
        before-LacksNul n h.plain_name,
        before-LacksNul v h.plain_value,
      )
      refl

pub read_pair-encoded :
    (p : Param) (s : Bytes) → IsSendable p → read_pair (encoded p ++ s) ≡ some (p, s)
read_pair-encoded p s h =
    let a = fcgi_put_len (length p.0) in
    let b = fcgi_put_len (length p.1) in
    let shape : encoded p ++ s
        ≡ fcgi_put_len (length p.0) ++ (fcgi_put_len (length p.1) ++ (p.0 ++ (p.1 ++ s))) =
      append_assoc a (b ++ (p.0 ++ p.1)) s
      ∙ ap (λ t. a ++ t)
          (append_assoc b (p.0 ++ p.1) s ∙ ap (λ t. b ++ t) (append_assoc p.0 p.1 s)) in
    let first =
      read_len-fcgi_put_len (length p.0) (b ++ (p.0 ++ (p.1 ++ s))) (omega (arith, h.fits)) in
    let second = read_len-fcgi_put_len (length p.1) (p.0 ++ (p.1 ++ s)) (omega (arith, h.fits)) in
    ap read_pair shape
    ∙ and_then-some (λ k. and_then (read_len k.1) (λ l. cut_pair k.0 l.0 l.1)) first
    ∙ and_then-some (λ l. cut_pair (length p.0) l.0 l.1) second
    ∙ cut_pair-append p s h

-- Enough fuel: every pair takes a byte at least.
params_loop-encoded_all :
    (ps : List Param) (fuel : ℕ)
    → All IsSendable ps
    → length (encoded_all ps) < fuel
    → params_loop fuel (encoded_all ps) ≡ ps
unfolding params_loop encoded_all
params_loop-encoded_all ps zero h f = absurd (omega arith)
params_loop-encoded_all [] (suc fuel) h f = refl
params_loop-encoded_all (p ∷ ps) (suc fuel) (h, hs) f =
    let nonempty = nonempty_len (length p.0) in
    let a = fcgi_put_len (length p.0) in
    let b = fcgi_put_len (length p.1) ++ (p.0 ++ p.1) in
    let more : length (encoded_all ps) < fuel =
      omega (arith, length-append a b, length-append (encoded p) (encoded_all ps), nonempty, f) in
    rw (params_loop, read_pair-encoded p (encoded_all ps) h)
      (ap (◌∷◌ p) (params_loop-encoded_all ps fuel hs more))

pub parse_params-encoded_all :
    (ps : List Param) → All IsSendable ps → parse_params (encoded_all ps) ≡ ps
unfolding parse_params
parse_params-encoded_all ps h =
    params_loop-encoded_all ps (suc (length (encoded_all ps))) h (omega arith)

-- The pairs that are sent: those with a value that is there and not empty.
unfoldable pub sent : List (Bytes × Option Bytes) → List Param
sent [] = []
sent ((n, none) ∷ ps) = sent ps
sent ((n, some []) ∷ ps) = sent ps
sent ((n, some (c ∷ v)) ∷ ps) = (n, c ∷ v) ∷ sent ps

-- What is a C string on either side.
abbrev pub IsPlain : Bytes × Option Bytes → Type 0
IsPlain (n, none) = LacksNul n
IsPlain (n, some v) = LacksNul n × LacksNul v

-- What the buffer holds at the end, and that every pair fits.
pub put_params-sent :
    (ps : List (Bytes × Option Bytes)) (out w : Bytes)
    → All IsPlain ps
    → put_params out ps ≡ some w
    → (w ≡ out ++ encoded_all (sent ps)) × All IsSendable (sent ps)
unfolding put_params sent encoded_all
put_params-sent [] out w h e = (sym (eq_of_some e) ∙ sym (append-nil out), tt)
put_params-sent ((n, none) ∷ ps) out w (h, hs) e = put_params-sent ps out w hs e
put_params-sent ((n, some []) ∷ ps) out w (h, hs) e = put_params-sent ps out w hs e
put_params-sent ((n, some (c ∷ v)) ∷ ps) out w ((hn, hv), hs) e =
    let p : Param = (n, c ∷ v) in
    let (small, e') =
      guard_not-some (ltb 4096 (length out + 4 + length n + 4 + length (c ∷ v) + 1)) _ w e in
    let (q, rest) = put_params-sent ps (out ++ encoded p) w hs e' in
    let k : length n + length (c ∷ v) < 4096 = ground (arith, small) in
    (
      q ∙ append_assoc out (encoded p) (encoded_all (sent ps)),
      (record { fits = k; plain_name = hn; plain_value = hv }, rest),
    )

-- What the client writes is what the server reads.
pub parse_params-put_params :
    (ps : List (Bytes × Option Bytes)) (w : Bytes)
    → All IsPlain ps
    → put_params [] ps ≡ some w
    → parse_params w ≡ sent ps
parse_params-put_params ps w h e =
    let (q, sendable) = put_params-sent ps [] w h e in
    ap parse_params q ∙ parse_params-encoded_all (sent ps) sendable

-- The buffer of 4096 bytes is not left.
pub put_params-fits :
    (ps : List (Bytes × Option Bytes)) (out w : Bytes)
    → length out ≤ 4096
    → put_params out ps ≡ some w
    → length w ≤ 4096
unfolding put_params
put_params-fits [] out w h e = omega (arith, h, ap length (eq_of_some e))
put_params-fits ((n, none) ∷ ps) out w h e = put_params-fits ps out w h e
put_params-fits ((n, some []) ∷ ps) out w h e = put_params-fits ps out w h e
put_params-fits ((n, some (c ∷ v)) ∷ ps) out w h e =
    let p : Param = (n, c ∷ v) in
    let (small, e') =
      guard_not-some (ltb 4096 (length out + 4 + length n + 4 + length (c ∷ v) + 1)) _ w e in
    let a = fcgi_put_len (length n) in
    let b = fcgi_put_len (length (c ∷ v)) in
    let k : length out + 4 + length n + 4 + length (c ∷ v) + 1 ≤ 4096 = ground (arith, small) in
    let m : length (out ++ encoded p) ≤ 4096 = omega (
      arith,
      k,
      length-append out (encoded p),
      length-append a (b ++ (n ++ (c ∷ v))),
      length-append b (n ++ (c ∷ v)),
      length-append n (c ∷ v),
      short_len (length n),
      short_len (length (c ∷ v)),
    ) in
    put_params-fits ps (out ++ encoded p) w m e'
