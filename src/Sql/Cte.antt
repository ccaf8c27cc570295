-- ===== src/Sql/Cte.antt =====
-- The guard of a statement with a WITH prefix, and `db_validate_write`: src/agent/sqlite_tool.c. The end
-- of a subquery is what stands from there on, so a pointer is behind it if less or as much stands there.
use agent_httpd.Base.{
  ℕ, zero, suc, ◌+◌, ◌-◌, Bool, false, not, ◌||◌, Option, none, some, List, [], ◌∷◌, ◌++◌, length,
  drop, leb, ◌==◌, if◌then◌else◌, Bytes, codes, drop_while,
}
use agent_httpd.Sql.{
  Refusal, refuse_or, unless_refused, is_word, is_blank, Comment, comment_at, one_statement,
  statement, keyword, kw_at, kw_at_any, sql_scan_ident,
}
use agent_httpd.Sql.Bare.{dangerous_words, data_words, db_validate_write_stmt}

-- The loop of `sql_skip_ws_comment`.
unfoldable pub skip_loop : ℕ → Bytes → Bytes
skip_loop zero s = s
skip_loop (suc fuel) s = elim (comment_at (drop_while is_blank s)) [
  | Comment.no_comment ↦ drop_while is_blank s
  | Comment.unended ↦ []
  | Comment.ended t ↦ skip_loop fuel t
]

unfoldable pub sql_skip_ws_comment : Bytes → Bytes
sql_skip_ws_comment s = skip_loop (suc (length s)) s

-- `sql_skip_string`, behind the quote `q`.
unfoldable pub sql_skip_string : ℕ → Bytes → Bytes
sql_skip_string q [] = []
sql_skip_string q (c ∷ []) = []
sql_skip_string q (c ∷ d ∷ s) =
    let quoted = sql_skip_string q s in
    let plain = sql_skip_string q (d ∷ s) in
    if c == q then (if d == q then quoted else d ∷ s) else plain

abbrev pub is_quote : ℕ → Bool
is_quote c = c == b'\'' || c == b'"'

-- The loop of `sql_match_paren`; the result begins with the parenthesis that closes. The caller's
-- text begins with one that opens, so there is none that closes at depth 0.
unfoldable pub match_loop : ℕ → ℕ → Bytes → Option Bytes
match_loop zero depth s = none
match_loop (suc fuel) depth [] = none
match_loop (suc fuel) depth (c ∷ s) =
    let quoted = match_loop fuel depth (sql_skip_string c s) in
    let opened = match_loop fuel (depth + 1) s in
    let closed = match_loop fuel (depth - 1) s in
    let plain = match_loop fuel depth s in
    if is_quote c then quoted else elim (comment_at (c ∷ s)) [
      | Comment.unended ↦ none
      | Comment.ended t ↦ match_loop fuel depth t
      | Comment.no_comment ↦
          if c == b'('
          then opened
          else if c == b')'
          then (if depth == 1 then some (c ∷ s) else closed)
          else plain
    ]

unfoldable pub sql_match_paren : Bytes → Option Bytes
sql_match_paren s = match_loop (suc (length s)) 0 s

abbrev pub forbidden_words : List Bytes
forbidden_words =
    dangerous_words
    ++ codes "alter" ∷ codes "create" ∷ codes "begin" ∷ codes "commit" ∷ codes "rollback" ∷ []

abbrev pub beyond : Bytes → Bytes → Bool
beyond end s = leb (length s) (length end)

-- The loop of `sql_cte_body_ok`.
unfoldable pub words_loop : ℕ → Bytes → Bytes → Option Refusal
words_loop zero end s = some Refusal.bad_token
words_loop (suc fuel) end s = elim (sql_skip_ws_comment s) [
  | [] ↦ none
  | c ∷ t ↦
      let quoted = words_loop fuel end (sql_skip_string c t) in
      let plain = words_loop fuel end t in
      if beyond end s || beyond end (c ∷ t)
      then none
      else if is_quote c
      then quoted
      else if not (is_word c)
      then plain
      else if kw_at_any (c ∷ t) data_words
      then some Refusal.write_keyword
      else if kw_at_any (c ∷ t) forbidden_words
      then some Refusal.dangerous
      else elim (sql_scan_ident (c ∷ t)) [
        | none ↦ some Refusal.bad_token
        | some u ↦ words_loop fuel end u
      ]
]

-- `sql_cte_body_ok`.
unfoldable pub sql_cte_body_ok : Bytes → Bytes → Option Refusal
sql_cte_body_ok s end =
    let p = sql_skip_ws_comment s in
    if beyond end p
    then some Refusal.empty_subquery
    else if not (kw_at p (codes "select") || kw_at p (codes "values") || kw_at p (codes "with"))
    then some Refusal.not_read_only
    else words_loop (suc (length s)) end s

abbrev pub is_byte : ℕ → Bytes → Bool
is_byte x [] = false
is_byte x (c ∷ s) = c == x

-- The loop over a column list; the result is where it stops.
unfoldable pub columns_loop : ℕ → Bytes → Option Bytes
columns_loop zero s = none
columns_loop (suc fuel) s = elim (sql_skip_ws_comment s) [
  | [] ↦ some []
  | c ∷ t ↦ elim (sql_scan_ident (c ∷ t)) [
    | none ↦ if c == b')' then some (c ∷ t) else none
    | some u ↦
        let on = columns_loop fuel (drop 1 (sql_skip_ws_comment u)) in
        if is_byte b',' (sql_skip_ws_comment u) then on else some (sql_skip_ws_comment u)
  ]
]

abbrev pub closed_list : Option Bytes → Option Bytes
closed_list none = none
closed_list (some s) = if is_byte b')' s then some (sql_skip_ws_comment (drop 1 s)) else none

-- The optional column list.
abbrev pub columns : Bytes → Option Bytes
columns s =
    if is_byte b'(' s then closed_list (columns_loop (suc (length s)) (drop 1 s)) else some s

-- What `p` and `close` delimit, if it is a subquery.
abbrev pub subquery : Bytes → Option Bytes
subquery s = if is_byte b'(' s then some s else none

-- Behind the list of subqueries.
abbrev pub trailing : Bytes → Option Refusal
trailing [] = some Refusal.no_statement
trailing (c ∷ s) =
    if kw_at (c ∷ s) (codes "alter") || kw_at (c ∷ s) (codes "create")
    then some Refusal.only_prefix
    else db_validate_write_stmt (c ∷ s)

-- The loop over the subqueries.
unfoldable pub cte_loop : ℕ → Bytes → Option Refusal
cte_loop zero s = some Refusal.no_cte_name
cte_loop (suc fuel) s =
    refuse_or Refusal.no_cte_name (sql_scan_ident (sql_skip_ws_comment s)) (λ name.
      refuse_or Refusal.bad_column_list (columns (sql_skip_ws_comment name)) (λ p.
        refuse_or Refusal.no_as (keyword (codes "as") p) (λ q.
          refuse_or Refusal.no_body (subquery (sql_skip_ws_comment q)) (λ body.
            refuse_or Refusal.unbalanced (sql_match_paren body) (λ close.
              let p' = sql_skip_ws_comment (drop 1 close) in
              let on = cte_loop fuel (drop 1 p') in
              unless_refused (sql_cte_body_ok (drop 1 body) close)
                (if is_byte b',' p' then on else trailing p'))))))

abbrev pub behind_recursive : Option Bytes → Bytes → Bytes
behind_recursive none s = s
behind_recursive (some t) s = sql_skip_ws_comment t

-- `db_validate_write_cte`.
unfoldable pub db_validate_write_cte : Bytes → Option Refusal
db_validate_write_cte b =
    let p = sql_skip_ws_comment (drop 4 b) in
    let q = behind_recursive (keyword (codes "recursive") p) p in cte_loop (suc (length q)) q

abbrev pub guard_write : Bytes → Option Refusal
guard_write b = if kw_at b (codes "with") then db_validate_write_cte b else db_validate_write_stmt b

-- `db_validate_write`.
unfoldable pub db_validate_write : Bytes → ℕ → Option Refusal
db_validate_write s n = unless_refused (one_statement s) (guard_write (statement s n))
