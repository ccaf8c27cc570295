-- ===== src/Sql/Scan.antt =====
-- Where the scanners behind a WITH prefix stop: src/agent/sqlite_tool.c.
use agent_httpd.Base.{
  ℕ, zero, suc, ◌+◌, ◌-◌, true, false, Option, none, some, [], ◌∷◌, ◌++◌, append-nil, length, drop,
  ◌==◌, if◌then◌else◌, Bytes, ◌≡◌, ◌⊎◌, inl, inr, refl, sym, ap, ◌∙◌, arith, Bool-cases,
  Option-cases, eq_of_some, drop_while, guard-some,
}
use agent_httpd.Sql.{Refusal, Comment, comment_at, is_blank, refuse_or, sql_scan_ident}
use agent_httpd.Sql.Cte.{
  skip_loop, sql_skip_ws_comment, sql_skip_string, is_quote, match_loop, sql_match_paren, is_byte,
  columns_loop, closed_list, columns, subquery,
}
use agent_httpd.Sql.Suffix.{
  Ends, Ends-refl, Ends-tail, Ends-trans, drop_while-Ends, drop-Ends, sql_scan_ident-Ends,
  Comment-cases, comment_at-shorter, comment_at-Ends,
}

skip_loop-Ends : (fuel : ℕ) (s : Bytes) → Ends (skip_loop fuel s) s
unfolding skip_loop
skip_loop-Ends zero s = Ends-refl s
skip_loop-Ends (suc k) s =
    let skipped = drop_while-Ends is_blank s in
    elim (Comment-cases (comment_at (drop_while is_blank s))) [
      | inl e ↦ rw (skip_loop, e) skipped
      | inr (inl e) ↦ rw (skip_loop, e) (s, sym (append-nil s))
      | inr (inr (t, e)) ↦
          rw (skip_loop, e)
            (Ends-trans (skip_loop-Ends k t)
              (Ends-trans (comment_at-shorter (drop_while is_blank s) t e).0 skipped))
    ]

pub sql_skip_ws_comment-Ends : (s : Bytes) → Ends (sql_skip_ws_comment s) s
unfolding sql_skip_ws_comment
sql_skip_ws_comment-Ends s = skip_loop-Ends (suc (length s)) s

pub sql_skip_string-Ends : (q : ℕ) (s : Bytes) → Ends (sql_skip_string q s) s
unfolding sql_skip_string
sql_skip_string-Ends q [] = Ends-refl []
sql_skip_string-Ends q (c ∷ []) = (c ∷ [], refl)
sql_skip_string-Ends q (c ∷ d ∷ s) = elim (Bool-cases (c == q)) [
  | inr e ↦ rw (e, if◌then◌else◌) (Ends-tail c (sql_skip_string-Ends q (d ∷ s)))
  | inl e ↦ elim (Bool-cases (d == q)) [
    | inl k ↦
        rw (e, if◌then◌else◌)
          (rw (k, if◌then◌else◌) (Ends-tail c (Ends-tail d (sql_skip_string-Ends q s))))
    | inr k ↦ rw (e, if◌then◌else◌) (rw (k, if◌then◌else◌) (c ∷ [], refl))
  ]
]

module _ (fuel depth c : ℕ) (s : Bytes) where
  pub match_quote :
      is_quote c ≡ true
      → match_loop (suc fuel) depth (c ∷ s) ≡ match_loop fuel depth (sql_skip_string c s)
  unfolding match_loop
  match_quote e = rw (match_loop, e, if◌then◌else◌) refl

  -- The branches on a byte that begins neither a string nor a comment.
  abbrev pub match_byte : Option Bytes
  match_byte =
      if c == b'('
      then match_loop fuel (depth + 1) s
      else if c == b')'
      then (if depth == 1 then some (c ∷ s) else match_loop fuel (depth - 1) s)
      else match_loop fuel depth s

  pub match_plain :
      is_quote c ≡ false
      → comment_at (c ∷ s) ≡ Comment.no_comment
      → match_loop (suc fuel) depth (c ∷ s) ≡ match_byte
  unfolding match_loop
  match_plain e k = rw (match_loop, e, k, if◌then◌else◌) refl

  pub match_unended :
      is_quote c ≡ false
      → comment_at (c ∷ s) ≡ Comment.unended
      → match_loop (suc fuel) depth (c ∷ s) ≡ none
  unfolding match_loop
  match_unended e k = rw (match_loop, e, k, if◌then◌else◌) refl

  pub match_ended :
      (t : Bytes)
      → is_quote c ≡ false
      → comment_at (c ∷ s) ≡ Comment.ended t
      → match_loop (suc fuel) depth (c ∷ s) ≡ match_loop fuel depth t
  unfolding match_loop
  match_ended t e k = rw (match_loop, e, k, if◌then◌else◌) refl

  match_byte-Ends :
      (t : Bytes)
      → ((d : ℕ) → match_loop fuel d s ≡ some t → Ends t s)
      → match_byte ≡ some t
      → Ends t (c ∷ s)
  match_byte-Ends t f h = elim (Bool-cases (c == b'(')) [
    | inl e ↦ Ends-tail c (f (depth + 1) (ground (arith, e, h)))
    | inr e ↦ elim (Bool-cases (c == b')')) [
      | inr k ↦ Ends-tail c (f depth (ground (arith, e, k, h)))
      | inl k ↦ elim (Bool-cases (depth == 1)) [
        | inl m ↦ ([], eq_of_some (ground (arith, e, k, m, h)))
        | inr m ↦ Ends-tail c (f (depth - 1) (ground (arith, e, k, m, h)))
      ]
    ]
  ]

match_loop-Ends : (fuel depth : ℕ) (s t : Bytes) → match_loop fuel depth s ≡ some t → Ends t s
unfolding match_loop
match_loop-Ends zero depth s t h = absurd (cc)
match_loop-Ends (suc fuel) depth [] t h = absurd (cc)
match_loop-Ends (suc fuel) depth (c ∷ s) t h = elim (Bool-cases (is_quote c)) [
  | inl e ↦ Ends-tail c (
      Ends-trans
        (match_loop-Ends fuel depth (sql_skip_string c s) t
          (sym (match_quote fuel depth c s e) ∙ h))
        (sql_skip_string-Ends c s))
  | inr e ↦ elim (Comment-cases (comment_at (c ∷ s))) [
    | inl k ↦
        match_byte-Ends fuel depth c s t (λ d x. match_loop-Ends fuel d s t x)
          (sym (match_plain fuel depth c s e k) ∙ h)
    | inr (inl k) ↦ let n = sym (match_unended fuel depth c s e k) ∙ h in absurd (cc)
    | inr (inr (u, k)) ↦ Ends-tail c (
        Ends-trans (match_loop-Ends fuel depth u t (sym (match_ended fuel depth c s u e k) ∙ h))
          (comment_at-Ends c s u k))
  ]
]

pub sql_match_paren-Ends : (s t : Bytes) → sql_match_paren s ≡ some t → Ends t s
unfolding sql_match_paren
sql_match_paren-Ends s t h = match_loop-Ends (suc (length s)) 0 s t h

pub scan-Ends : (s t : Bytes) → sql_scan_ident s ≡ some t → Ends t s
unfolding sql_scan_ident
scan-Ends [] t h = absurd (cc)
scan-Ends (c ∷ s) t h = Ends-tail c (sql_scan_ident-Ends c s t h)

pub Bytes-cases : (s : Bytes) → (s ≡ []) ⊎ ((c : ℕ) × (t : Bytes) × (s ≡ c ∷ t))
Bytes-cases [] = inl refl
Bytes-cases (c ∷ t) = inr (c, t, refl)

module _ (fuel : ℕ) (s : Bytes) where
  pub columns_end : sql_skip_ws_comment s ≡ [] → columns_loop (suc fuel) s ≡ some []
  unfolding columns_loop
  columns_end e = rw (columns_loop, e) refl

  pub columns_stop :
      (c : ℕ) (t : Bytes)
      → sql_skip_ws_comment s ≡ c ∷ t
      → sql_scan_ident (c ∷ t) ≡ none
      → columns_loop (suc fuel) s ≡ (if c == b')' then some (c ∷ t) else none)
  unfolding columns_loop
  columns_stop c t e k = rw (columns_loop, e) (rw (k) refl)

  pub columns_next :
      (c : ℕ) (t u : Bytes)
      → sql_skip_ws_comment s ≡ c ∷ t
      → sql_scan_ident (c ∷ t) ≡ some u
      → columns_loop (suc fuel) s ≡ (
          if is_byte b',' (sql_skip_ws_comment u)
          then columns_loop fuel (drop 1 (sql_skip_ws_comment u))
          else some (sql_skip_ws_comment u))
  unfolding columns_loop
  columns_next c t u e k = rw (columns_loop, e) (rw (k) refl)

columns_loop-Ends : (fuel : ℕ) (s t : Bytes) → columns_loop fuel s ≡ some t → Ends t s
unfolding columns_loop
columns_loop-Ends zero s t h = absurd (cc)
columns_loop-Ends (suc fuel) s t h =
    let skipped = sql_skip_ws_comment-Ends s in
    elim (Bytes-cases (sql_skip_ws_comment s)) [
      | inl e ↦
          let n : [] ≡ t = eq_of_some (sym (columns_end fuel s e) ∙ h) in
          (s, sym (append-nil s) ∙ ap (λ x. s ++ x) n)
      | inr (c, r, e) ↦ elim (Option-cases (sql_scan_ident (c ∷ r))) [
        | inl k ↦
            let n =
              guard-some (c == b')') (some (c ∷ r)) t (sym (columns_stop fuel s c r e k) ∙ h) in
            (skipped.0, skipped.1 ∙ ap (λ x. skipped.0 ++ x) (e ∙ eq_of_some n.1))
        | inr (u, k) ↦
            let at_u =
              Ends-trans (scan-Ends (c ∷ r) u k)
                (skipped.0, skipped.1 ∙ ap (λ x. skipped.0 ++ x) e) in
            let q = Ends-trans (sql_skip_ws_comment-Ends u) at_u in
            let h' = sym (columns_next fuel s c r u e k) ∙ h in
            elim (Bool-cases (is_byte b',' (sql_skip_ws_comment u))) [
              | inl m ↦
                  Ends-trans
                    (columns_loop-Ends fuel (drop 1 (sql_skip_ws_comment u)) t
                      (ground (arith, m, h')))
                    (Ends-trans (drop-Ends 1 (sql_skip_ws_comment u)) q)
              | inr m ↦
                  let n : sql_skip_ws_comment u ≡ t = eq_of_some (ground (arith, m, h')) in
                  (q.0, q.1 ∙ ap (λ x. q.0 ++ x) n)
            ]
      ]
    ]

closed_list-Ends :
    (o : Option Bytes) (s t : Bytes)
    → ((u : Bytes) → o ≡ some u → Ends u s)
    → closed_list o ≡ some t
    → Ends t s
closed_list-Ends none s t f h = absurd (cc)
closed_list-Ends (some u) s t f h =
    let n = guard-some (is_byte b')' u) (some (sql_skip_ws_comment (drop 1 u))) t h in
    let p =
      Ends-trans (sql_skip_ws_comment-Ends (drop 1 u)) (Ends-trans (drop-Ends 1 u) (f u refl)) in
    (p.0, p.1 ∙ ap (λ x. p.0 ++ x) (eq_of_some n.1))

pub columns-Ends : (s t : Bytes) → columns s ≡ some t → Ends t s
columns-Ends s t h = elim (Bool-cases (is_byte b'(' s)) [
  | inl e ↦
      closed_list-Ends (columns_loop (suc (length s)) (drop 1 s)) s t
        (λ u x. Ends-trans (columns_loop-Ends (suc (length s)) (drop 1 s) u x) (drop-Ends 1 s))
        (ap (λ b. if b then closed_list (columns_loop (suc (length s)) (drop 1 s)) else some s)
            (sym e)
          ∙ h)
  | inr e ↦ (
    [],
    eq_of_some (
        ap (λ b. if b then closed_list (columns_loop (suc (length s)) (drop 1 s)) else some s)
          (sym e)
        ∙ h),
  )
]

pub subquery-Ends : (s t : Bytes) → subquery s ≡ some t → Ends t s
subquery-Ends s t h = ([], eq_of_some (guard-some (is_byte b'(' s) (some s) t h).1)

-- A test that did not refuse.
pub refuse_or-none :
    (r : Refusal) (o : Option Bytes) (f : Bytes → Option Refusal)
    → refuse_or r o f ≡ none
    → (s : Bytes) × (o ≡ some s) × (f s ≡ none)
refuse_or-none r none f h = absurd (cc)
refuse_or-none r (some s) f h = (s, refl, h)
