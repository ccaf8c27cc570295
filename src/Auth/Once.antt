-- ===== src/Auth/Once.antt =====
-- The logout record and the check of a header together, src/security/auth.c.
use agent_httpd.Base.{
  ℕ, zero, suc, ◌+◌, ◌≤◌, ◌<◌, ◌^◌, eq_of_some, Bool, true, false, Option, some, List, [], ◌∷◌,
  ◌++◌, length, ltb, ◌==◌, if◌then◌else◌, Bytes, All, All-append, LacksNul, before-LacksNul,
  same_refl, ◌≡◌, ◌≢◌, inl, inr, refl, sym, ap, ◌∙◌, arith, Bool-cases, pair_eq, length-append,
  append_assoc, drop-append_length,
}
use agent_httpd.Range.{strtoll}
use agent_httpd.Range.Closed.{strtoll-Numeral}
use agent_httpd.Response.{decimal}
use agent_httpd.Auth.{Entry, fgets, entry_named, credentials}
use agent_httpd.Auth.Realm.{
  next_count, count_of, signed_decimal, recorded, record_of, auth_logout_realm_bump, up_to_bar,
  stamp_of, scan_record, auth_logout_consume, entry_matches, check_basic_auth,
}
use agent_httpd.Auth.Sessions.Words.{IsPlain}
use agent_httpd.Auth.Sessions.Expiry.{decimal-Numeral, decimal-IsWord, length-decimal}

-- A name as the record can hold it.
abbrev pub IsNameByte : ℕ → Type 0
IsNameByte c = (c ≢ b'\n') × (c ≢ 0) × (c ≢ b'|')

pub record IsName (user : Bytes) : Type 0 where
  pub filled : (length user == 0) ≡ false
  pub short : length user ≤ 63
  pub bytes : All IsNameByte user

-- A line that fits is read with its line feed.
fgets_line :
    (n : ℕ) (l s : Bytes)
    → length l < n
    → All (λ c. c ≢ b'\n') l
    → fgets n (l ++ (b'\n' ∷ s)) ≡ (l ++ (b'\n' ∷ []), s)
unfolding fgets
fgets_line zero l s h p = absurd (omega arith)
fgets_line (suc n) [] s h p = refl
fgets_line (suc n) (c ∷ l) s h (a, ps) =
    let z : (c == b'\n') ≡ false = ground arith in
    rw (fgets, z, if◌then◌else◌, fgets_line n l s (omega arith) ps) refl

up_to_bar-name :
    (n : ℕ) (user s : Bytes)
    → length user ≤ n
    → All IsNameByte user
    → up_to_bar n (user ++ (b'|' ∷ s)) ≡ user
unfolding up_to_bar
up_to_bar-name zero [] s h p = refl
up_to_bar-name zero (c ∷ user) s h p = absurd (omega arith)
up_to_bar-name (suc n) [] s h p = refl
up_to_bar-name (suc n) (c ∷ user) s h (a, ps) =
    let z : (c == b'|') ≡ false = ground (arith, a.2) in
    rw (up_to_bar, z, if◌then◌else◌) (ap (◌∷◌ c) (up_to_bar-name n user s (omega arith) ps))

-- The line with the counter, and the one with the record.
abbrev counter : ℕ → Bytes
counter n = decimal n ++ (b'\n' ∷ [])

abbrev stamp : Bytes → ℕ → Bytes
stamp user t = user ++ (b'|' ∷ (decimal t ++ (b'\n' ∷ [])))

plain_bytes : (s : Bytes) → All IsPlain s → All (λ c. c ≢ b'\n') s × LacksNul s
plain_bytes [] h = (tt, tt)
plain_bytes (c ∷ s) ((b, z), hs) =
    let (l, m) = plain_bytes s hs in (((λ e. absurd (ground (arith, e, b))), l), (z, m))

name_bytes : (s : Bytes) → All IsNameByte s → All (λ c. c ≢ b'\n') s × LacksNul s
name_bytes [] h = (tt, tt)
name_bytes (c ∷ s) (h, hs) = let (l, m) = name_bytes s hs in ((h.0, l), (h.1, m))

not_nul : (c : ℕ) → (c == 0) ≡ false → c ≢ 0
not_nul c e z = absurd (ground (arith, e, z))

counter-LacksNul : (n : ℕ) → n < 10000000000 → LacksNul (counter n)
counter-LacksNul n h =
    All-append (λ c. c ≢ 0) (decimal n) (b'\n' ∷ [])
      (plain_bytes (decimal n) (decimal-IsWord n h).plain).1 (not_nul b'\n' refl, tt)

signed_decimal-decimal : (n : ℕ) → n < 2 ^ 31 → signed_decimal n ≡ decimal n
signed_decimal-decimal n h =
    let z : ltb n (2 ^ 31) ≡ true = ground arith in rw (z, if◌then◌else◌) refl

count_of-counter : (n : ℕ) → n < 2 ^ 31 → count_of (strtoll (counter n)) ≡ n
count_of-counter n h =
    let w : n < 10000000000 = omega (arith, h) in
    ap count_of (strtoll-Numeral (decimal n) (b'\n' ∷ []) n (decimal-Numeral n w) refl)
    ∙ omega (arith, h)

-- The record reads back.
scan_record-stamp :
    (user : Bytes) (t : ℕ)
    → IsName user
    → t < 10000000000
    → scan_record (stamp user t) ≡ some (user, false, t)
unfolding scan_record
scan_record-stamp user t u h =
    let tail = decimal t ++ (b'\n' ∷ []) in
    rw
      (
        up_to_bar-name 63 user tail u.short u.bytes,
        u.filled,
        if◌then◌else◌,
        drop-append_length (length user) user (b'|' ∷ tail) refl,
      )
      (ap (stamp_of user) (strtoll-Numeral (decimal t) (b'\n' ∷ []) t (decimal-Numeral t h) refl))

-- The two lines of the file.
first_line :
    (n : ℕ) (s : Bytes) → n < 10000000000 → fgets 31 (decimal n ++ (b'\n' ∷ s)) ≡ (counter n, s)
first_line n s h =
    let w = decimal-IsWord n h in
    fgets_line 31 (decimal n) s (omega (arith, length-decimal n h))
      (plain_bytes (decimal n) w.plain).0

second_line :
    (user : Bytes) (t : ℕ)
    → IsName user
    → t < 10000000000
    → (fgets 159 (stamp user t)).0 ≡ stamp user t
second_line user t u h =
    let l = user ++ (b'|' ∷ decimal t) in
    let shape : l ++ (b'\n' ∷ []) ≡ stamp user t =
      append_assoc user (b'|' ∷ decimal t) (b'\n' ∷ []) in
    let w = decimal-IsWord t h in
    let bar : b'|' ≢ b'\n' = λ q. omega (arith, q) in
    let plain =
      All-append (λ c. c ≢ b'\n') user (b'|' ∷ decimal t) (name_bytes user u.bytes).0
        (bar, (plain_bytes (decimal t) w.plain).0) in
    let n : length l < 159 =
      omega (arith, u.short, length-append user (b'|' ∷ decimal t), length-decimal t h) in
    ap (λ s. (fgets 159 s).0) (sym shape) ∙ ap (λ r. r.0) (fgets_line 159 l [] n plain) ∙ shape

stamp-LacksNul : (user : Bytes) (t : ℕ) → IsName user → t < 10000000000 → LacksNul (stamp user t)
stamp-LacksNul user t u h =
    All-append (λ c. c ≢ 0) user (b'|' ∷ counter t) (name_bytes user u.bytes).1
      (not_nul b'|' refl, counter-LacksNul t h)

stamp_nonempty : (user : Bytes) (t : ℕ) → (length (stamp user t) == 0) ≡ false
stamp_nonempty [] t = ground arith
stamp_nonempty (c ∷ user) t = ground arith

-- The record of a user is taken off the file, and refuses for thirty seconds.
auth_logout_consume-stamp :
    (user : Bytes) (n t now : ℕ)
    → IsName user
    → n < 2 ^ 31
    → t < 10000000000
    → auth_logout_consume user now (decimal n ++ (b'\n' ∷ stamp user t))
      ≡ (ltb now (t + 30), counter n)
unfolding auth_logout_consume
auth_logout_consume-stamp user n t now u h ht =
    let hn : n < 10000000000 = omega (arith, h) in
    rw
      (
        first_line n (stamp user t) hn,
        u.filled,
        stamp_nonempty user t,
        if◌then◌else◌,
        second_line user t u ht,
        before-LacksNul (stamp user t) (stamp-LacksNul user t u ht),
        before-LacksNul (counter n) (counter-LacksNul n hn),
        scan_record-stamp user t u ht,
        same_refl user,
        count_of-counter n h,
        signed_decimal-decimal n h,
      )
      refl

-- A file with a counter only refuses nobody, and stays.
auth_logout_consume-counter :
    (user : Bytes) (n now : ℕ)
    → n < 10000000000
    → auth_logout_consume user now (counter n) ≡ (false, counter n)
unfolding auth_logout_consume
auth_logout_consume-counter user n now h = elim (Bool-cases (length user == 0)) [
  | inl e ↦ rw (first_line n [] h, e, if◌then◌else◌) refl
  | inr e ↦ rw (first_line n [] h, e, if◌then◌else◌) refl
]

module _ (bcrypt_is_hash : Bytes → Bool) (bcrypt_verify : Bytes → Bytes → Bool)
    (crypt : Bytes → Bytes → Option Bytes) where
  -- A header of a user, by what the record says.
  check_basic_auth-consumed :
      (table : List Entry) (now : ℕ) (header user pass file : Bytes) (r : Bool × Bytes)
      → credentials header ≡ some (user, pass)
      → auth_logout_consume user now file ≡ r
      → check_basic_auth bcrypt_is_hash bcrypt_verify crypt true table now (some file) header ≡ (
          if r.0 then (false, some r.1) else (
            entry_matches bcrypt_is_hash bcrypt_verify crypt pass (entry_named user table),
            some r.1,
          ))
  unfolding check_basic_auth
  check_basic_auth-consumed table now header user pass file r e q = rw (check_basic_auth, e, q) refl

  record_of-stamp :
      (user : Bytes) (now k : ℕ)
      → IsName user
      → k < 2 ^ 31
      → record_of user now k ≡ decimal k ++ (b'\n' ∷ stamp user now)
  record_of-stamp user now k u h = rw (u.filled, if◌then◌else◌, signed_decimal-decimal k h) refl

  bumped :
      (user file : Bytes) (now k : ℕ) (realm : Option Bytes)
      → next_count realm ≡ some k
      → auth_logout_realm_bump user now realm ≡ some file
      → record_of user now k ≡ file
  unfolding auth_logout_realm_bump
  bumped user file now k realm e h = eq_of_some (ap (recorded user now) (sym e) ∙ h)

  -- Behind the logout of a user whose name the record can hold, where the new counter is not negative:
  -- the first header with that name, within thirty seconds, is refused whatever its password; the next
  -- header of any user, at any time, is checked by its password as ever.
  pub check_basic_auth_once :
      (table : List Entry) (logout now later k : ℕ)
      (user pass header user2 pass2 header2 file : Bytes) (realm : Option Bytes)
      → IsName user
      → next_count realm ≡ some k
      → k < 2 ^ 31
      → logout < 10000000000
      → now < logout + 30
      → credentials header ≡ some (user, pass)
      → credentials header2 ≡ some (user2, pass2)
      → auth_logout_realm_bump user logout realm ≡ some file
      → ((check_basic_auth bcrypt_is_hash bcrypt_verify crypt true table now (some file) header).0
          ≡ false)
        × ((check_basic_auth bcrypt_is_hash bcrypt_verify crypt true table later
              (check_basic_auth bcrypt_is_hash bcrypt_verify crypt true table now
                (some file)
                header).1
              header2).0
            ≡ entry_matches bcrypt_is_hash bcrypt_verify crypt pass2 (entry_named user2 table))
  check_basic_auth_once table logout now later k user pass header user2 pass2 header2 file realm u c
        n t l e e2 b =
      let z : ltb now (logout + 30) ≡ true = ground (arith, l) in
      let f = sym (record_of-stamp user logout k u n) ∙ bumped user file logout k realm c b in
      let first = check_basic_auth-consumed table now header user pass file _ e (
        ap (auth_logout_consume user now) (sym f)
        ∙ auth_logout_consume-stamp user k logout now u n t
        ∙ pair_eq z refl) in
      let second =
        check_basic_auth-consumed table later header2 user2 pass2 (counter k) _ e2
          (auth_logout_consume-counter user2 k later (omega (arith, n))) in
      rw (first) (refl, ap (λ r. r.0) second)
