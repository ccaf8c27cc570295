-- ===== src/Sql/Rounds.antt =====
-- The loop over the words of a subquery ends: src/agent/sqlite_tool.c.
use agent_httpd.Base.{
  ℕ, zero, suc, ◌<◌, not, ◌||◌, Option, none, some, [], ◌∷◌, length, if◌then◌else◌, Bytes, ◌≡◌, inl,
  inr, refl, sym, ap, ◌∙◌, arith, Option-cases,
}
use agent_httpd.Sql.{Refusal, is_word, sql_scan_ident, kw_at_any}
use agent_httpd.Sql.Bare.{data_words}
use agent_httpd.Sql.Cte.{
  sql_skip_ws_comment, sql_skip_string, is_quote, beyond, forbidden_words, words_loop,
}
use agent_httpd.Sql.Scan.{sql_skip_ws_comment-Ends, sql_skip_string-Ends, Bytes-cases}
use agent_httpd.Sql.Suffix.{length-Ends, sql_scan_ident-Ends}

-- The tests of a round of `words_loop`, and what it goes on with.
abbrev words_at :
    Bytes → Bytes → ℕ → Bytes → Option Refusal → Option Refusal → Option Refusal → Option Refusal
words_at end s c t quoted plain ident =
    if beyond end s || beyond end (c ∷ t)
    then none
    else if is_quote c
    then quoted
    else if not (is_word c)
    then plain
    else if kw_at_any (c ∷ t) data_words
    then some Refusal.write_keyword
    else if kw_at_any (c ∷ t) forbidden_words
    then some Refusal.dangerous
    else ident

module _ (fuel : ℕ) (end s : Bytes) where
  words_end : sql_skip_ws_comment s ≡ [] → words_loop (suc fuel) end s ≡ none
  unfolding words_loop
  words_end e = rw (words_loop, e) refl

  words_bad :
      (c : ℕ) (t : Bytes)
      → sql_skip_ws_comment s ≡ c ∷ t
      → sql_scan_ident (c ∷ t) ≡ none
      → words_loop (suc fuel) end s
        ≡ words_at end s c t
            (words_loop fuel end (sql_skip_string c t))
            (words_loop fuel end t)
            (some Refusal.bad_token)
  unfolding words_loop
  words_bad c t e k = rw (words_loop, e) (rw (k) refl)

  words_next :
      (c : ℕ) (t u : Bytes)
      → sql_skip_ws_comment s ≡ c ∷ t
      → sql_scan_ident (c ∷ t) ≡ some u
      → words_loop (suc fuel) end s
        ≡ words_at end s c t
            (words_loop fuel end (sql_skip_string c t))
            (words_loop fuel end t)
            (words_loop fuel end u)
  unfolding words_loop
  words_next c t u e k = rw (words_loop, e) (rw (k) refl)

pub words_loop_more :
    (fuel : ℕ) (end s : Bytes)
    → length s < fuel
    → words_loop fuel end s ≡ words_loop (suc fuel) end s
words_loop_more zero end s h = absurd (omega arith)
words_loop_more (suc k) end s h = elim (Bytes-cases (sql_skip_ws_comment s)) [
  | inl e ↦ words_end k end s e ∙ sym (words_end (suc k) end s e)
  | inr (c, t, e) ↦
      let a = length-Ends (sql_skip_ws_comment-Ends s) in
      let g = ap length e in
      let string =
        words_loop_more k end (sql_skip_string c t)
          (omega (arith, h, a, g, length-Ends (sql_skip_string-Ends c t))) in
      let byte = words_loop_more k end t (omega (arith, h, a, g)) in
      elim (Option-cases (sql_scan_ident (c ∷ t))) [
        | inl n ↦
            words_bad k end s c t e n
            ∙ ap (λ x. words_at end s c t x (words_loop k end t) (some Refusal.bad_token)) string
            ∙ ap
                (λ x.
                  words_at end s c t (words_loop (suc k) end (sql_skip_string c t)) x
                    (some Refusal.bad_token))
                byte
            ∙ sym (words_bad (suc k) end s c t e n)
        | inr (u, n) ↦
            let word =
              words_loop_more k end u
                (omega (arith, h, a, g, length-Ends (sql_scan_ident-Ends c t u n))) in
            words_next k end s c t u e n
            ∙ ap (λ x. words_at end s c t x (words_loop k end t) (words_loop k end u)) string
            ∙ ap
                (λ x.
                  words_at end s c t (words_loop (suc k) end (sql_skip_string c t)) x
                    (words_loop k end u))
                byte
            ∙ ap
                (λ x.
                  words_at end s c t (words_loop (suc k) end (sql_skip_string c t))
                    (words_loop (suc k) end t) x)
                word
            ∙ sym (words_next (suc k) end s c t u e n)
      ]
]
