-- ===== src/Sql/Fuel.antt =====
-- The loops behind a WITH prefix end: src/agent/sqlite_tool.c.
use agent_httpd.Base.{
  ℕ, zero, suc, ◌+◌, ◌-◌, ◌<◌, Option, none, some, [], ◌∷◌, length, drop, ◌==◌, if◌then◌else◌,
  Bytes, ◌≡◌, inl, inr, refl, sym, ap, ◌∙◌, arith, Bool-cases, Option-cases, drop_while, codes,
  settled,
}
use agent_httpd.Sql.{
  Refusal, comment_at, is_blank, refuse_or, unless_refused, sql_scan_ident, keyword,
}
use agent_httpd.Sql.Cte.{
  skip_loop, sql_skip_ws_comment, sql_skip_string, is_quote, match_loop, sql_match_paren, is_byte,
  columns_loop, columns, subquery, words_loop, sql_cte_body_ok, trailing, cte_loop,
}
use agent_httpd.Sql.Scan.{
  sql_skip_ws_comment-Ends, sql_skip_string-Ends, match_quote, match_byte, match_plain,
  match_unended, match_ended, columns-Ends, subquery-Ends, sql_match_paren-Ends, Bytes-cases,
  columns_end, columns_stop, columns_next,
}
use agent_httpd.Sql.Suffix.{
  keyword-Ends, length-Ends, drop_while-Ends, drop-Ends, sql_scan_ident-Ends, Comment-cases,
  comment_at-shorter, comment_at-Ends,
}
use agent_httpd.Sql.Rounds.{words_loop_more}

skip_loop_more :
    (fuel : ℕ) (s : Bytes) → length s < fuel → skip_loop fuel s ≡ skip_loop (suc fuel) s
unfolding skip_loop
skip_loop_more zero s h = absurd (omega arith)
skip_loop_more (suc k) s h = elim (Comment-cases (comment_at (drop_while is_blank s))) [
  | inl e ↦ rw (skip_loop, e) refl
  | inr (inl e) ↦ rw (skip_loop, e) refl
  | inr (inr (t, e)) ↦
      let a = comment_at-shorter (drop_while is_blank s) t e in
      let b = length-Ends (drop_while-Ends is_blank s) in
      rw (skip_loop, e) (skip_loop_more k t (omega (arith, a.1, b)))
]

match_byte-eq :
    (k m depth c : ℕ) (s : Bytes)
    → ((d : ℕ) → match_loop k d s ≡ match_loop m d s)
    → match_byte k depth c s ≡ match_byte m depth c s
match_byte-eq k m depth c s f =
    ap
      (λ x.
        if c == b'('
        then x
        else if c == b')'
        then (if depth == 1 then some (c ∷ s) else match_loop k (depth - 1) s)
        else match_loop k depth s)
      (f (depth + 1))
    ∙ ap
        (λ x.
          if c == b'('
          then match_loop m (depth + 1) s
          else if c == b')'
          then (if depth == 1 then some (c ∷ s) else x)
          else match_loop k depth s)
        (f (depth - 1))
    ∙ ap
        (λ x.
          if c == b'('
          then match_loop m (depth + 1) s
          else if c == b')'
          then (if depth == 1 then some (c ∷ s) else match_loop m (depth - 1) s)
          else x)
        (f depth)

match_loop_more :
    (fuel depth : ℕ) (s : Bytes)
    → length s < fuel
    → match_loop fuel depth s ≡ match_loop (suc fuel) depth s
unfolding match_loop
match_loop_more zero depth s h = absurd (omega arith)
match_loop_more (suc k) depth [] h = refl
match_loop_more (suc k) depth (c ∷ s) h = elim (Bool-cases (is_quote c)) [
  | inl e ↦
      match_quote k depth c s e
      ∙ match_loop_more k depth (sql_skip_string c s)
          (omega (arith, length-Ends (sql_skip_string-Ends c s)))
      ∙ sym (match_quote (suc k) depth c s e)
  | inr e ↦ elim (Comment-cases (comment_at (c ∷ s))) [
    | inl n ↦
        match_plain k depth c s e n
        ∙ match_byte-eq k (suc k) depth c s (λ d. match_loop_more k d s (omega arith))
        ∙ sym (match_plain (suc k) depth c s e n)
    | inr (inl n) ↦ match_unended k depth c s e n ∙ sym (match_unended (suc k) depth c s e n)
    | inr (inr (t, n)) ↦
        match_ended k depth c s t e n
        ∙ match_loop_more k depth t (omega (arith, length-Ends (comment_at-Ends c s t n)))
        ∙ sym (match_ended (suc k) depth c s t e n)
  ]
]

columns_loop_more :
    (fuel : ℕ) (s : Bytes) → length s < fuel → columns_loop fuel s ≡ columns_loop (suc fuel) s
columns_loop_more zero s h = absurd (omega arith)
columns_loop_more (suc k) s h = elim (Bytes-cases (sql_skip_ws_comment s)) [
  | inl e ↦ columns_end k s e ∙ sym (columns_end (suc k) s e)
  | inr (c, t, e) ↦ elim (Option-cases (sql_scan_ident (c ∷ t))) [
    | inl n ↦ columns_stop k s c t e n ∙ sym (columns_stop (suc k) s c t e n)
    | inr (u, n) ↦
        let v = sql_skip_ws_comment u in
        let a = length-Ends (sql_skip_ws_comment-Ends s) in
        let b = length-Ends (sql_scan_ident-Ends c t u n) in
        let d = length-Ends (sql_skip_ws_comment-Ends u) in
        let f = length-Ends (drop-Ends 1 v) in
        let g = ap length e in
        columns_next k s c t u e n
        ∙ ap (λ x. if is_byte b',' v then x else some v)
            (columns_loop_more k (drop 1 v) (omega (arith, h, a, b, d, f, g)))
        ∙ sym (columns_next (suc k) s c t u e n)
  ]
]

scan_shorter : (s t : Bytes) → sql_scan_ident s ≡ some t → length t < length s
unfolding sql_scan_ident
scan_shorter [] t h = absurd (cc)
scan_shorter (c ∷ s) t h = omega (arith, length-Ends (sql_scan_ident-Ends c s t h))

refuse_or-eq :
    (r : Refusal) (o : Option Bytes) (f g : Bytes → Option Refusal)
    → ((s : Bytes) → o ≡ some s → f s ≡ g s)
    → refuse_or r o f ≡ refuse_or r o g
refuse_or-eq r none f g h = refl
refuse_or-eq r (some s) f g h = h s refl

-- With the skips, a name and its subquery take a byte at least.
list_shorter :
    (name p q body close s : Bytes)
    → sql_scan_ident (sql_skip_ws_comment s) ≡ some name
    → columns (sql_skip_ws_comment name) ≡ some p
    → keyword (codes "as") p ≡ some q
    → subquery (sql_skip_ws_comment q) ≡ some body
    → sql_match_paren body ≡ some close
    → length (drop 1 (sql_skip_ws_comment (drop 1 close))) < length s
list_shorter name p q body close s e1 e2 e3 e4 e5 =
    let a1 = length-Ends (sql_skip_ws_comment-Ends s) in
    let a2 = scan_shorter (sql_skip_ws_comment s) name e1 in
    let a3 = length-Ends (sql_skip_ws_comment-Ends name) in
    let a4 = length-Ends (columns-Ends (sql_skip_ws_comment name) p e2) in
    let a5 = length-Ends (keyword-Ends (codes "as") p q e3) in
    let a6 = length-Ends (sql_skip_ws_comment-Ends q) in
    let a7 = length-Ends (subquery-Ends (sql_skip_ws_comment q) body e4) in
    let a8 = length-Ends (sql_match_paren-Ends body close e5) in
    let a9 = length-Ends (drop-Ends 1 close) in
    let b1 = length-Ends (sql_skip_ws_comment-Ends (drop 1 close)) in
    let b2 = length-Ends (drop-Ends 1 (sql_skip_ws_comment (drop 1 close))) in
    omega (arith, a1, a2, a3, a4, a5, a6, a7, a8, a9, b1, b2)

cte_loop_more : (fuel : ℕ) (s : Bytes) → length s < fuel → cte_loop fuel s ≡ cte_loop (suc fuel) s
unfolding cte_loop
cte_loop_more zero s h = absurd (omega arith)
cte_loop_more (suc k) s h = refuse_or-eq _ (sql_scan_ident (sql_skip_ws_comment s)) _ _ (λ name e1.
    refuse_or-eq _ (columns (sql_skip_ws_comment name)) _ _ (λ p e2.
      refuse_or-eq _ (keyword (codes "as") p) _ _ (λ q e3.
        refuse_or-eq _ (subquery (sql_skip_ws_comment q)) _ _ (λ body e4.
          refuse_or-eq _ (sql_match_paren body) _ _ (λ close e5.
            let next = sql_skip_ws_comment (drop 1 close) in
            ap
              (λ x.
                unless_refused (sql_cte_body_ok (drop 1 body) close)
                  (if is_byte b',' next then x else trailing next))
              (cte_loop_more k (drop 1 next)
                (omega (arith, h, list_shorter name p q body close s e1 e2 e3 e4 e5))))))))

-- The loops of the guard end. For every text: with any number of rounds above the number of its bytes,
-- the loops that skip blanks and comments, match a parenthesis, read the words of a subquery, a list of
-- columns and the list of subqueries give what they give with one round more than there are bytes, so
-- the rounds that the guard has are never used up.
pub loops_enough :
    (fuel : ℕ) (end s : Bytes)
    → length s < fuel
    → (skip_loop fuel s ≡ sql_skip_ws_comment s)
      × (match_loop fuel 0 s ≡ sql_match_paren s)
      × (words_loop fuel end s ≡ words_loop (suc (length s)) end s)
      × (columns_loop fuel s ≡ columns_loop (suc (length s)) s)
      × (cte_loop fuel s ≡ cte_loop (suc (length s)) s)
unfolding sql_skip_ws_comment sql_match_paren
loops_enough fuel end s h = (
  settled (λ k. skip_loop k s) (length s) (λ k. skip_loop_more k s) fuel h,
  settled (λ k. match_loop k 0 s) (length s) (λ k. match_loop_more k 0 s) fuel h,
  settled (λ k. words_loop k end s) (length s) (λ k. words_loop_more k end s) fuel h,
  settled (λ k. columns_loop k s) (length s) (λ k. columns_loop_more k s) fuel h,
  settled (λ k. cte_loop k s) (length s) (λ k. cte_loop_more k s) fuel h,
)
