-- ===== src/Auth/Public.antt =====
-- The entries of AUTH_PUBLIC_PATHS and `is_public_path` of src/security/auth.c.
use agent_httpd.Base.{
  ℕ, zero, suc, ◌<◌, Bool, true, false, ◌&&◌, some, [], ◌∷◌, ◌++◌, length, take, drop, ltb, leb,
  ◌==◌, if◌then◌else◌, Bytes, before, past, after, is_some, take_all, ◌≡◌, ◌⊎◌, inl, inr, refl, sym,
  ap, ◌∙◌, arith, Bool-cases, Option-cases,
}
use agent_httpd.Auth.Gate.{ends_entry, entry_allows, public_loop, is_public_path}

-- An entry of a list that semicolons separate.
pub data Listed : Bytes → Bytes → Type 0 where
  here : {s : Bytes} → Listed (before b';' s) s
  there : {entry s t : Bytes} → past b';' s ≡ some t → Listed entry t → Listed entry s

after-drop : (w s : Bytes) → is_some (after w s) ≡ true → s ≡ w ++ drop (length w) s
unfolding after
after-drop [] s h = refl
after-drop (x ∷ w) [] h = absurd (cc)
after-drop (x ∷ w) (c ∷ s) h = elim (Bool-cases (c == x)) [
  | inl e ↦
      let q : x ≡ c = ground (arith, e) in
      let r : is_some (after w s) ≡ true = sym (rw (e, if◌then◌else◌) refl) ∙ h in
      ap (λ y. y ∷ s) (sym q) ∙ ap (◌∷◌ x) (after-drop w s r)
  | inr e ↦
      let z : is_some (after (x ∷ w) (c ∷ s)) ≡ false = rw (e, if◌then◌else◌) refl in absurd (cc)
]

all_four : (a b c d : Bool) → (a && b && c && d) ≡ true → (a ≡ true) × (c ≡ true) × (d ≡ true)
all_four true true true true h = (refl, refl, refl)
all_four true true true false h = absurd (cc)
all_four true true false d h = absurd (cc)
all_four true false c d h = absurd (cc)
all_four false b c d h = absurd (cc)

public_loop-Listed :
    (fuel : ℕ) (paths path : Bytes)
    → public_loop fuel paths path ≡ true
    → (entry : Bytes) × (rest : Bytes) × Listed entry paths
      × (path ≡ entry ++ rest)
      × (ltb 0 (length entry) ≡ true)
      × (ends_entry rest ≡ true)
unfolding public_loop
public_loop-Listed zero paths path h = absurd (cc)
public_loop-Listed (suc fuel) [] path h = absurd (cc)
public_loop-Listed (suc fuel) (c ∷ s) path h =
    let entry = before b';' (c ∷ s) in
    elim (Bool-cases (entry_allows entry path)) [
      | inl e ↦
          let (a, b, d) =
            all_four (ltb 0 (length entry)) (leb (length entry) (length (before b'?' path)))
              (is_some (after entry path)) (ends_entry (drop (length entry) path)) e in
          (entry, drop (length entry) path, Listed.here, after-drop entry path b, a, d)
      | inr e ↦ elim (Option-cases (past b';' (c ∷ s))) [
        | inl q ↦
            let z : public_loop (suc fuel) (c ∷ s) path ≡ false =
              rw (public_loop, e, if◌then◌else◌, q) refl in
            absurd (cc)
        | inr (t, q) ↦
            let z : public_loop (suc fuel) (c ∷ s) path ≡ public_loop fuel t path =
              rw (public_loop, e, if◌then◌else◌, q) refl in
            let (x, rest, l, m, n, o) = public_loop-Listed fuel t path (sym z ∙ h) in
            (x, rest, Listed.there q l, m, n, o)
      ]
    ]

ends_entry-cases :
    (rest : Bytes)
    → ends_entry rest ≡ true
    → (rest ≡ []) ⊎ ((t : Bytes) × ((rest ≡ b'/' ∷ t) ⊎ (rest ≡ b'?' ∷ t)))
ends_entry-cases [] h = inl refl
ends_entry-cases (c ∷ t) h = elim (Bool-cases (c == b'/')) [
  | inl e ↦ let q : c ≡ b'/' = ground (arith, e) in inr (t, inl (ap (λ x. x ∷ t) q))
  | inr e ↦ let q : c ≡ b'?' = ground (arith, e, h) in inr (t, inr (ap (λ x. x ∷ t) q))
]

-- A path that is let through, where AUTH_PUBLIC_PATHS has fewer than 2047 bytes, lies below an entry of
-- it that is not empty: it is the entry, or the entry and behind it a slash or a question mark with
-- anything after it.
pub is_public_path-Listed :
    (paths path : Bytes)
    → length paths < 2047
    → is_public_path paths path ≡ true
    → (entry : Bytes) × (rest : Bytes) × Listed entry paths
      × (path ≡ entry ++ rest)
      × (0 < length entry)
      × ((rest ≡ []) ⊎ ((t : Bytes) × ((rest ≡ b'/' ∷ t) ⊎ (rest ≡ b'?' ∷ t))))
unfolding is_public_path
is_public_path-Listed paths path l h =
    let q : take 2047 paths ≡ paths = take_all 2047 paths (omega (arith, l)) in
    let (entry, rest, listed, e, filled, ends) =
      public_loop-Listed (suc (length paths)) paths path
        (ap (λ p. public_loop (suc (length p)) p path) (sym q) ∙ h) in
    (entry, rest, listed, e, ground (arith, filled), ends_entry-cases rest ends)
