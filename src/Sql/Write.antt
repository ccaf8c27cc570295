-- ===== src/Sql/Write.antt =====
-- What `db_validate_write` of src/agent/sqlite_tool.c lets pass.
use agent_httpd.Base.{
  ℕ, zero, suc, Bool, true, false, not, ◌||◌, Option, none, some, [], ◌∷◌, ◌++◌, length, drop, ◌==◌,
  if◌then◌else◌, Bytes, codes, after_ci, is_some, to_lower, ◌≡◌, ◌⊎◌, inl, inr, refl, sym, ap, ◌∙◌,
  arith, Bool-cases, Option-cases, then_branch, else_branch,
}
use agent_httpd.Sql.{
  Refusal, behind_blank, at_break, keyword, kw_at, kw_at_any, kw_anywhere, mentions, one_statement,
  statement, sql_scan_ident,
}
use agent_httpd.Sql.Bare.{
  create_table, needs_where, dangerous_words, data_words, sql_validate_alter_add,
  db_validate_write_stmt,
}
use agent_httpd.Sql.Cte.{
  sql_skip_ws_comment, sql_match_paren, sql_cte_body_ok, is_byte, columns, subquery, trailing,
  cte_loop, behind_recursive, db_validate_write_cte, guard_write, db_validate_write,
}
use agent_httpd.Sql.Read.{single, single-statement, unless_refused-none}
use agent_httpd.Sql.Scan.{
  sql_skip_ws_comment-Ends, sql_match_paren-Ends, scan-Ends, columns-Ends, subquery-Ends,
  refuse_or-none,
}
use agent_httpd.Sql.Suffix.{Ends, Ends-refl, Ends-trans, drop-Ends, keyword-Ends}
use agent_httpd.Sql.Words.{has_word, kw_anywhere-has_word}

-- The verbs of a write.
abbrev pub begins_write : Bytes → Bool
begins_write p =
    kw_at p (codes "insert")
    || kw_at p (codes "update")
    || kw_at p (codes "delete")
    || kw_at p (codes "create")
    || kw_at p (codes "alter")

-- An UPDATE or a DELETE has the word WHERE somewhere.
abbrev pub limited : Bytes → Bool
limited p =
    not (kw_at p (codes "update") || kw_at p (codes "delete")) || has_word (codes "where") none p

-- What every accepted write is, or ends in.
pub record IsWrite (p : Bytes) : Type 0 where
  pub begun : begins_write p ≡ true
  pub limits : limited p ≡ true
  pub unmirrored : mentions (codes "portfolio") p ≡ false

blank_break : (o : Option Bytes) → is_some (behind_blank o) ≡ true → is_some (at_break o) ≡ true
blank_break none h = h
blank_break (some []) h = refl
blank_break (some (c ∷ s)) h = ground (arith, h)

create_table-some : (o : Option Bytes) → create_table o ≡ none → is_some o ≡ true
create_table-some none h = absurd (cc)
create_table-some (some s) h = refl

where_word : (p : Bytes) → kw_anywhere p (codes "where") ≡ has_word (codes "where") none p
where_word p = kw_anywhere-has_word b'w' (codes "here") p refl

refused_not :
    (b : Bool) (r : Refusal) (o : Option Refusal)
    → (if b then some r else o) ≡ none
    → (b ≡ false) × (o ≡ none)
refused_not true r o h = absurd (cc)
refused_not false r o h = (refl, h)

-- Keywords with different first letters exclude each other.
only_one :
    (x y : ℕ) (v w p : Bytes)
    → (to_lower x == to_lower y) ≡ false
    → kw_at p (x ∷ v) ≡ true
    → kw_at p (y ∷ w) ≡ false
unfolding after_ci
only_one x y v w [] n h = refl
only_one x y v w (c ∷ s) n h = elim (Bool-cases (to_lower c == to_lower x)) [
  | inr e ↦ absurd (ground (arith, e, h))
  | inl e ↦
      let d : (to_lower c == to_lower y) ≡ false = ground (arith, e, n) in
      rw (d, if◌then◌else◌) refl
]

-- One that is neither needs no WHERE.
unlimited :
    (x : ℕ) (w p : Bytes)
    → (to_lower x == b'u') ≡ false
    → (to_lower x == b'd') ≡ false
    → kw_at p (x ∷ w) ≡ true
    → limited p ≡ true
unlimited x w p m n h =
    let u = only_one x b'u' w (codes "pdate") p m h in
    let d = only_one x b'd' w (codes "elete") p n h in ground (arith, u, d)

needs_where-limited : (p : Bytes) → needs_where p ≡ false → limited p ≡ true
needs_where-limited p h = ground (arith, h, where_word p)

begun_by : (p : Bytes) → kw_at_any p data_words ≡ true → begins_write p ≡ true
begun_by p h = ground (arith, h)

db_validate_write_stmt-IsWrite : (p : Bytes) → db_validate_write_stmt p ≡ none → IsWrite p
unfolding db_validate_write_stmt
db_validate_write_stmt-IsWrite p h =
    let last = create_table (behind_blank (after_ci (codes "create") p)) in
    let rows = if needs_where p then some Refusal.no_where else none in
    let writes = if kw_at_any p data_words then rows else last in
    let rest = if kw_at p (codes "alter") then sql_validate_alter_add p else writes in
    let (_, h1) =
      refused_not (kw_at_any p dangerous_words) Refusal.dangerous
        (if mentions (codes "portfolio") p then some Refusal.mirror_table else rest) h in
    let (m, h2) = refused_not (mentions (codes "portfolio") p) Refusal.mirror_table rest h1 in
    elim (Bool-cases (kw_at p (codes "alter"))) [
      | inl e ↦ record {
        begun = ground (arith, e);
        limits = unlimited b'a' (codes "lter") p refl refl e;
        unmirrored = m;
      }
      | inr e ↦
          let h3 = else_branch _ e h2 in
          elim (Bool-cases (kw_at_any p data_words)) [
            | inl k ↦
                let h4 = then_branch _ k h3 in
                record {
                  begun = begun_by p k;
                  limits =
                      needs_where-limited p
                        (refused_not (needs_where p) Refusal.no_where none h4).0;
                  unmirrored = m;
                }
            | inr k ↦
                let h4 = else_branch _ k h3 in
                let c : kw_at p (codes "create") ≡ true =
                  blank_break (after_ci (codes "create") p)
                    (create_table-some (behind_blank (after_ci (codes "create") p)) h4) in
                record {
                  begun = ground (arith, c);
                  limits = unlimited b'c' (codes "reate") p refl refl c;
                  unmirrored = m;
                }
          ]
    ]

-- A write that ends a text.
abbrev EndsWrite : Bytes → Type 0
EndsWrite s = (p : Bytes) × Ends p s × IsWrite p

trailing-IsWrite : (p : Bytes) → trailing p ≡ none → IsWrite p
trailing-IsWrite [] h = absurd (cc)
trailing-IsWrite (c ∷ s) h =
    db_validate_write_stmt-IsWrite (c ∷ s)
      (refused_not (kw_at (c ∷ s) (codes "alter") || kw_at (c ∷ s) (codes "create"))
        Refusal.only_prefix (db_validate_write_stmt (c ∷ s)) h).1

from_end : (t s : Bytes) → Ends t s → EndsWrite t → EndsWrite s
from_end t s e (p, f, w) = (p, Ends-trans f e, w)

cte_loop-EndsWrite : (fuel : ℕ) (s : Bytes) → cte_loop fuel s ≡ none → EndsWrite s
unfolding cte_loop
cte_loop-EndsWrite zero s h = absurd (cc)
cte_loop-EndsWrite (suc fuel) s h =
    let (name, e1, h1) =
      refuse_or-none Refusal.no_cte_name (sql_scan_ident (sql_skip_ws_comment s)) _ h in
    let (p, e2, h2) =
      refuse_or-none Refusal.bad_column_list (columns (sql_skip_ws_comment name)) _ h1 in
    let (q, e3, h3) = refuse_or-none Refusal.no_as (keyword (codes "as") p) _ h2 in
    let (body, e4, h4) = refuse_or-none Refusal.no_body (subquery (sql_skip_ws_comment q)) _ h3 in
    let (close, e5, h5) = refuse_or-none Refusal.unbalanced (sql_match_paren body) _ h4 in
    let next = sql_skip_ws_comment (drop 1 close) in
    let on = cte_loop fuel (drop 1 next) in
    let (_, h6) =
      unless_refused-none (sql_cte_body_ok (drop 1 body) close)
        (if is_byte b',' next then on else trailing next) h5 in
    let at_name =
      Ends-trans (scan-Ends (sql_skip_ws_comment s) name e1) (sql_skip_ws_comment-Ends s) in
    let at_p =
      Ends-trans (columns-Ends (sql_skip_ws_comment name) p e2)
        (Ends-trans (sql_skip_ws_comment-Ends name) at_name) in
    let at_q = Ends-trans (keyword-Ends (codes "as") p q e3) at_p in
    let at_body =
      Ends-trans (subquery-Ends (sql_skip_ws_comment q) body e4)
        (Ends-trans (sql_skip_ws_comment-Ends q) at_q) in
    let at_close = Ends-trans (sql_match_paren-Ends body close e5) at_body in
    let at_next =
      Ends-trans (sql_skip_ws_comment-Ends (drop 1 close))
        (Ends-trans (drop-Ends 1 close) at_close) in
    elim (Bool-cases (is_byte b',' next)) [
      | inl e ↦
          from_end (drop 1 next) s (Ends-trans (drop-Ends 1 next) at_next)
            (cte_loop-EndsWrite fuel (drop 1 next) (then_branch _ e h6))
      | inr e ↦ (next, at_next, trailing-IsWrite next (else_branch _ e h6))
    ]

behind_recursive-Ends :
    (o : Option Bytes) (s : Bytes)
    → ((t : Bytes) → o ≡ some t → Ends t s)
    → Ends (behind_recursive o s) s
behind_recursive-Ends none s f = Ends-refl s
behind_recursive-Ends (some t) s f = Ends-trans (sql_skip_ws_comment-Ends t) (f t refl)

db_validate_write_cte-EndsWrite : (b : Bytes) → db_validate_write_cte b ≡ none → EndsWrite b
unfolding db_validate_write_cte
db_validate_write_cte-EndsWrite b h =
    let p = sql_skip_ws_comment (drop 4 b) in
    let q = behind_recursive (keyword (codes "recursive") p) p in
    let e =
      behind_recursive-Ends (keyword (codes "recursive") p) p
        (keyword-Ends (codes "recursive") p) in
    from_end q b (Ends-trans e (Ends-trans (sql_skip_ws_comment-Ends (drop 4 b)) (drop-Ends 4 b)))
      (cte_loop-EndsWrite (suc (length q)) q h)

-- A write from its first byte on, or behind a WITH prefix.
abbrev Writes : Bytes → Type 0
Writes b =
    ((kw_at b (codes "with") ≡ false) × IsWrite b)
    ⊎ ((kw_at b (codes "with") ≡ true) × ((p : Bytes) × Ends p b × IsWrite p))

guard_write-Writes : (b : Bytes) → guard_write b ≡ none → Writes b
guard_write-Writes b h = elim (Bool-cases (kw_at b (codes "with"))) [
  | inl e ↦ inr (e, db_validate_write_cte-EndsWrite b (then_branch _ e h))
  | inr e ↦ inl (e, db_validate_write_stmt-IsWrite b (else_branch _ e h))
]

-- What a write may be. For every text and every buffer: if `db_validate_write` accepts it, then the
-- statement that is prepared has no semicolon but at its end. If it does not begin with the word WITH,
-- it begins with INSERT, UPDATE, DELETE, CREATE or ALTER; with UPDATE or DELETE, the word WHERE stands
-- anywhere in it, be it in a comment or a string; and the search for `portfolio` finds nothing in it. If
-- it begins with WITH, the same holds of a part in which it ends.
pub db_validate_write-IsWrite :
    (s : Bytes) (n : ℕ)
    → db_validate_write s n ≡ none
    → (single (statement s n) ≡ true)
      × (((kw_at (statement s n) (codes "with") ≡ false) × IsWrite (statement s n))
          ⊎ ((kw_at (statement s n) (codes "with") ≡ true)
              × ((p : Bytes) × Ends p (statement s n) × IsWrite p)))
unfolding db_validate_write
db_validate_write-IsWrite s n h =
    let (a, b) = unless_refused-none (one_statement s) (guard_write (statement s n)) h in
    (single-statement s n a, guard_write-Writes (statement s n) b)

mentions-append : (w a c : Bytes) → mentions w (a ++ c) ≡ false → mentions w c ≡ false
unfolding mentions
mentions-append w [] c h = h
mentions-append w (x ∷ a) c h = mentions-append w a c (ground (arith, h))

mentions_front : (w c : Bytes) (x : ℕ) → mentions (x ∷ w) c ≡ false → after_ci (x ∷ w) c ≡ none
unfolding mentions after_ci
mentions_front w [] x h = refl
mentions_front w (d ∷ c) x h = elim (Option-cases (after_ci (x ∷ w) (d ∷ c))) [
  | inl e ↦ e
  | inr (t, e) ↦ absurd (ground (arith, e, h))
]

-- The mirror table is out of reach of a bare write. For every text and every buffer: if
-- `db_validate_write` accepts it and the statement does not begin with WITH, then at no place in the
-- statement does `portfolio` stand, in any case, not even within a longer name, a string or a comment.
pub db_validate_write_mirror :
    (s : Bytes) (n : ℕ) (a c : Bytes)
    → db_validate_write s n ≡ none
    → kw_at (statement s n) (codes "with") ≡ false
    → statement s n ≡ a ++ c
    → after_ci (codes "portfolio") c ≡ none
unfolding db_validate_write
db_validate_write_mirror s n a c h k e =
    let b = statement s n in
    let (_, g) = unless_refused-none (one_statement s) (guard_write b) h in
    let w = db_validate_write_stmt-IsWrite b (else_branch _ k g) in
    mentions_front (codes "ortfolio") c b'p' (
      mentions-append (codes "portfolio") a c
        (ap (mentions (codes "portfolio")) (sym e) ∙ w.unmirrored))
