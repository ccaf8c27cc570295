-- ===== src/Auth/Strong.antt =====
-- The loading of the htpasswd table and the check of a header together, src/security/auth.c.
use agent_httpd.Base.{
  ℕ, zero, suc, ◌-◌, Bool, true, false, not, ◌&&◌, ◌||◌, Option, none, some, List, [], ◌∷◌, length,
  leb, ◌==◌, if◌then◌else◌, and_then, and_then_inv, guard_not-some, Bytes, same, after, before,
  past, or_value, All, ◌≡◌, ◌⊎◌, inl, inr, refl, sym, ap, subst, ◌∙◌, Bool-cases, Option-cases,
  eq_of_some, then_branch, else_branch,
}
use agent_httpd.Auth.{
  Entry, ct_eq, is_strong_hash, stored_is_hash, crypt_matches, secret_matches, starts_hash,
  entry_of, read_entry, fgets, line_text, load_loop, load_htpasswd, entry_named, credentials,
}
use agent_httpd.Auth.Realm.{consumed, entry_matches, check_basic_auth}

abbrev pub IsStrong : Entry → Type 0
IsStrong e = is_strong_hash e.secret ≡ true

accepted :
    (b : Bool) (x e : Entry)
    → (if not b && not false then none else some x) ≡ some e
    → (b ≡ true) × (x ≡ e)
accepted true x e h = (refl, eq_of_some h)
accepted false x e h = absurd (cc)

entry_of-IsStrong : (user rest : Bytes) (e : Entry) → entry_of false user rest ≡ some e → IsStrong e
entry_of-IsStrong user rest e h =
    let secret = before b':' rest in
    let (a, q) =
      guard_not-some (leb 256 (length secret) || leb 128 (length (or_value (past b':' rest) []))) _
        e h in
    let (s, r) = accepted (is_strong_hash secret) _ e q in subst IsStrong r s

read_entry-IsStrong : (line : Bytes) (e : Entry) → read_entry false line ≡ some e → IsStrong e
unfolding read_entry
read_entry-IsStrong line e h =
    let (a, q) = guard_not-some (starts_hash line) (and_then (past b':' line) (tail line)) e h in
    let (rest, p, r) = and_then_inv (past b':' line) (tail line) e q in
    let (b, s) =
      guard_not-some (length (before b':' line) == 0 || leb 64 (length (before b':' line))) _ e r in
    entry_of-IsStrong (before b':' line) rest e s
  where
    tail : Bytes → Bytes → Option Entry
    tail line rest =
        if length (before b':' line) == 0 || leb 64 (length (before b':' line))
        then none
        else entry_of false (before b':' line) rest

load_loop-IsStrong : (fuel room : ℕ) (s : Bytes) → All IsStrong (load_loop fuel false room s)
unfolding load_loop
load_loop-IsStrong zero room s = tt
load_loop-IsStrong (suc fuel) room [] = tt
load_loop-IsStrong (suc fuel) room (c ∷ s) =
    let line = fgets 511 (c ∷ s) in
    let o = if room == 0 then none else read_entry false (line_text line.0) in
    elim (Option-cases o) [
      | inl e ↦ rw (load_loop, e) (load_loop-IsStrong fuel room line.1)
      | inr (x, e) ↦
          let (z, q) = guard_not-some (room == 0) (read_entry false (line_text line.0)) x e in
          rw (load_loop, e)
            (read_entry-IsStrong (line_text line.0) x q, load_loop-IsStrong fuel (room - 1) line.1)
    ]

-- A table that was loaded without the escape hatch holds strong hashes only.
pub load_htpasswd-IsStrong :
    (file : Bytes) (table : List Entry) → All IsStrong (load_htpasswd false (some file) table).1
unfolding load_htpasswd
load_htpasswd-IsStrong file table = load_loop-IsStrong (suc (length file)) 64 file

-- A strong hash is never compared as a text.
strong-hash : (s : Bytes) → is_strong_hash s ≡ true → stored_is_hash s ≡ true
unfolding after
strong-hash [] h = absurd (cc)
strong-hash (c ∷ s) h = elim (Bool-cases (c == b'$')) [
  | inl e ↦ rw (e) refl
  | inr e ↦ let z : is_strong_hash (c ∷ s) ≡ false = rw (e, if◌then◌else◌) refl in absurd (cc)
]

entry_named-IsStrong :
    (user : Bytes) (es : List Entry) (e : Entry)
    → All IsStrong es
    → entry_named user es ≡ some e
    → (same user e.user ≡ true) × IsStrong e
unfolding entry_named
entry_named-IsStrong user [] e h q = absurd (cc)
entry_named-IsStrong user (x ∷ es) e (h, hs) q = elim (Bool-cases (same user x.user)) [
  | inl r ↦
      let z : x ≡ e = eq_of_some (then_branch (entry_named user es) r q) in
      subst (λ y. (same user y.user ≡ true) × IsStrong y) z (r, h)
  | inr r ↦ entry_named-IsStrong user es e hs (else_branch (some x) r q)
]

module _ (bcrypt_is_hash : Bytes → Bool) (bcrypt_verify : Bytes → Bytes → Bool)
    (crypt : Bytes → Bytes → Option Bytes) where
  -- The password hashes to the secret, by bcrypt or by `crypt`.
  abbrev pub IsHashOf : Bytes → Bytes → Type 0
  IsHashOf secret pass =
      (bcrypt_verify pass secret ≡ true)
      ⊎ ((got : Bytes) × (crypt pass secret ≡ some got) × (ct_eq got secret ≡ true))

  crypt_matches-some :
      (o : Option Bytes) (secret : Bytes)
      → crypt_matches bcrypt_is_hash bcrypt_verify crypt o secret ≡ true
      → (got : Bytes) × (o ≡ some got) × (ct_eq got secret ≡ true)
  crypt_matches-some none secret h = absurd (cc)
  crypt_matches-some (some got) secret h = (got, refl, h)

  secret_matches-IsHashOf :
      (secret pass : Bytes)
      → is_strong_hash secret ≡ true
      → secret_matches bcrypt_is_hash bcrypt_verify crypt pass secret ≡ true
      → IsHashOf secret pass
  unfolding secret_matches
  secret_matches-IsHashOf secret pass s h =
      let q =
        else_branch {b = not (stored_is_hash secret)} (ct_eq pass secret)
          (ap not (strong-hash secret s)) h in
      elim (Bool-cases (bcrypt_is_hash secret)) [
        | inl e ↦ inl (then_branch _ e q)
        | inr e ↦ inr (crypt_matches-some (crypt pass secret) secret (else_branch _ e q))
      ]

  matched :
      (user pass : Bytes) (es : List Entry) (o : Option Entry)
      → All IsStrong es
      → entry_named user es ≡ o
      → entry_matches bcrypt_is_hash bcrypt_verify crypt pass o ≡ true
      → (e : Entry) × (o ≡ some e) × (same user e.user ≡ true) × IsStrong e × IsHashOf e.secret pass
  matched user pass es none h q m = absurd (cc)
  matched user pass es (some e) h q m =
      let (r, s) = entry_named-IsStrong user es e h q in
      (e, refl, r, s, secret_matches-IsHashOf e.secret pass s m)

  -- On a table that was loaded without the escape hatch, a header is accepted only if it has a user and a
  -- password, and the first entry of that user has a strong hash, to which the password hashes.
  pub check_basic_auth_strong :
      (file : Bytes) (table : List Entry) (now : ℕ) (realm : Option Bytes) (header : Bytes)
      → (check_basic_auth bcrypt_is_hash bcrypt_verify crypt true
          (load_htpasswd false (some file) table).1
          now
          realm
          header).0
        ≡ true
      → (user : Bytes) × (pass : Bytes) × (e : Entry) × (credentials header ≡ some (user, pass))
        × (entry_named user (load_htpasswd false (some file) table).1 ≡ some e)
        × (same user e.user ≡ true)
        × (is_strong_hash e.secret ≡ true)
        × IsHashOf e.secret pass
  unfolding check_basic_auth
  check_basic_auth_strong file table now realm header h = elim (Option-cases (credentials header)) [
    | inl c ↦ absurd (refused c)
    | inr ((user, pass), c) ↦
        let es = (load_htpasswd false (some file) table).1 in
        let m = accepted_entry user pass c in
        let (e, q, r, s, k) =
          matched user pass es (entry_named user es) (load_htpasswd-IsStrong file table) refl m in
        (user, pass, e, c, q, r, s, k)
  ]
    where
      refused : credentials header ≡ none → ⊥
      refused c =
          let z : (check_basic_auth bcrypt_is_hash bcrypt_verify crypt true
                (load_htpasswd false (some file) table).1 now realm header).0
              ≡ false =
            rw (check_basic_auth, c) refl in
          absurd (cc)

      accepted_entry :
          (user pass : Bytes)
          → credentials header ≡ some (user, pass)
          → entry_matches bcrypt_is_hash bcrypt_verify crypt pass
              (entry_named user (load_htpasswd false (some file) table).1)
            ≡ true
      accepted_entry user pass c =
          let es = (load_htpasswd false (some file) table).1 in
          elim (Bool-cases (consumed user now realm).0) [
            | inl e ↦
                let z : (check_basic_auth bcrypt_is_hash bcrypt_verify crypt true
                      (load_htpasswd false (some file) table).1 now realm header).0
                    ≡ false =
                  rw (check_basic_auth, c, e, if◌then◌else◌) refl in
                absurd (cc)
            | inr e ↦
                let z : (check_basic_auth bcrypt_is_hash bcrypt_verify crypt true
                      (load_htpasswd false (some file) table).1 now realm header).0
                    ≡ entry_matches bcrypt_is_hash bcrypt_verify crypt pass (entry_named user es) =
                  rw (check_basic_auth, c, e, if◌then◌else◌) refl in
                sym z ∙ h
          ]
